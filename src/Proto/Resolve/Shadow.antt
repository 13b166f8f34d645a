-- ===== src/Proto/Resolve/Shadow.antt =====
-- A type of another service whose name the own service declares, too.
use mathlib.Core.Bool.{true, false}
use windrpc.Base.{◌≡◌, ◌≢◌, refl, some, List, [], ◌∷◌, ◌++◌, All, arith, ◌==◌, Bool-cases, inl, inr}
use windrpc.Base.Text.{
  Str, codes, split, extend, lower, lower_char, is_upper, str_eq, str_eq→eq, str_mem,
}
use windrpc.Base.Result.{ok}
use windrpc.Spec.{Spec}
use windrpc.Server.RpcTypes.{Part, command_part, message_c_type, is_empty, has_dot, pair_of}
use windrpc.Proto.Resolve.{scalar_types, declared_types, last_part, resolve_type_name}

-- a text without a dot
abbrev pub Undotted : Str → Type 0
Undotted s = All (λ c. c ≢ b'.') s

-- `{pkg}.{msg}`
abbrev pub qualified : Str → Str → Str
qualified pkg msg = pkg ++ b'.' ∷ msg

pub split-Undotted : (s : Str) → Undotted s → split b'.' s ≡ s ∷ []
unfolding split extend
split-Undotted [] h = refl
split-Undotted (c ∷ s) h =
    let other : (c == b'.') ≡ false = ground (arith, h.0) in rw (other, split-Undotted s h.1) refl

pub split-dotted : (s rest : Str) → Undotted s → split b'.' (s ++ b'.' ∷ rest) ≡ s ∷ split b'.' rest
unfolding split extend
split-dotted [] rest h = refl
split-dotted (c ∷ s) rest h =
    let other : (c == b'.') ≡ false = ground (arith, h.0) in
    rw (other, split-dotted s rest h.1) refl

split-qualified :
    (pkg msg : Str) → Undotted pkg → Undotted msg → split b'.' (qualified pkg msg) ≡ pkg ∷ msg ∷ []
split-qualified pkg msg hp hm = rw (split-dotted pkg msg hp, split-Undotted msg hm) refl

pub has_dot-qualified : (pkg msg : Str) → has_dot (qualified pkg msg) ≡ true
unfolding has_dot
has_dot-qualified [] msg = refl
has_dot-qualified (c ∷ pkg) msg = ground (arith, has_dot-qualified pkg msg)

lower-qualified : (pkg msg : Str) → has_dot (lower (qualified pkg msg)) ≡ true
unfolding has_dot lower lower_char is_upper
lower-qualified [] msg = refl
lower-qualified (c ∷ pkg) msg = ground (arith, lower-qualified pkg msg)

pub dotted_apart :
    (t : Str) (xs : List Str)
    → has_dot t ≡ true
    → All (λ x. has_dot x ≡ false) xs
    → str_mem t xs ≡ false
unfolding str_mem
dotted_apart t [] h hs = refl
dotted_apart t (x ∷ xs) h hs = elim (Bool-cases (str_eq t x)) [
  | inl same ↦ let e : t ≡ x = str_eq→eq t x same in cc (rw e at h, hs.0)
  | inr other ↦ rw other (dotted_apart t xs h hs.1)
]

pub scalar_types_bare : All (λ x. has_dot x ≡ false) scalar_types
unfolding has_dot
scalar_types_bare = (
  refl,
  (
    refl,
    (
      refl,
      (
        refl,
        (refl, (refl, (refl, (refl, (refl, (refl, (refl, (refl, (refl, (refl, (refl, tt))))))))))),
      ),
    ),
  ),
)

-- A reference `pkg.msg` to the type of another service, in a service that declares a type `msg` of its
-- own, is the own type in the .proto file, and the other service's type in the C server.
pub resolve_type_name-command_part :
    (spec : Spec) (package_prefix service_name pkg msg : Str) (names : List Str)
    → Undotted pkg
    → Undotted msg
    → is_empty (qualified pkg msg) ≡ false
    → declared_types spec service_name ≡ ok names
    → str_mem msg names ≡ true
    → (resolve_type_name spec package_prefix (qualified pkg msg) (some service_name) ≡ ok msg)
      × ((p : Part) × (command_part service_name (qualified pkg msg) ≡ ok p)
          × (p.c_type ≡ message_c_type pkg msg)
          × (p.raw_pkg ≡ some pkg))
unfolding resolve_type_name command_part pair_of last_part
resolve_type_name-command_part spec package_prefix service_name pkg msg names hp hm other declared
      own =
    let scalar : str_mem (lower (qualified pkg msg)) scalar_types ≡ false =
      dotted_apart (lower (qualified pkg msg)) scalar_types (lower-qualified pkg msg)
        scalar_types_bare in
    (
      rw (split-qualified pkg msg hp hm, scalar, declared, own) refl,
      (
        foreign,
        rw (other, has_dot-qualified pkg msg, split-qualified pkg msg hp hm) refl,
        refl,
        refl,
      ),
    )
  where
    foreign : Part
    foreign = record {
      c_type = message_c_type pkg msg;
      is_submsg = true;
      fields = codes "NULL";
      tag = [];
      raw_pkg = some pkg;
      raw_msg = some msg;
    }
