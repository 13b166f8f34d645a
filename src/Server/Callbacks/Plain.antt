-- ===== src/Server/Callbacks/Plain.antt =====
-- The lines of the handlers have no newline in them, if the names and types have none.
use mathlib.Core.Bool.{true, ◌||◌}
use windrpc.Base.{ℕ, ◌≡◌, refl, Option, List, [], ◌∷◌, ◌++◌, All, arith, ◌==◌, Bool-cases, inl, inr}
use windrpc.Base.Result.{Result, ◌>>=◌, Returns, Returns-bind, Returns-any}
use windrpc.Base.Text.{Str, codes, extend, split, str_eq}
use windrpc.Spec.{Rpc}
use windrpc.Spec.Required.{required}
use windrpc.Server.RpcTypes.{
  is_void, RpcTypes, Part, get_rpc_types, command_part, result_part, message_c_type, or_empty,
  type_of, package_prefix, is_empty, has_dot, is_number_or_bool, pair_of,
}
use windrpc.Server.Callbacks.{cmd_arg, res_arg}
use windrpc.Server.Callbacks.Paragraphs.{plain, plain-append}

-- texts around a name
pub plain-around :
    (a n b : Str) → plain a ≡ true → plain n ≡ true → plain b ≡ true → plain (a ++ n ++ b) ≡ true
plain-around a n b ha hn hb = plain-append (a ++ n) b (plain-append a n ha hn) hb

pub cmd_arg-plain : (info : RpcTypes) → plain info.cmd_type ≡ true → plain (cmd_arg info) ≡ true
cmd_arg-plain info h = elim (Bool-cases (is_void info.cmd_type)) [
  | inl void ↦ unfold cmd_arg plain in rw void refl
  | inr typed ↦
      unfold cmd_arg in
      rw typed (
        plain-around (codes "const ") info.cmd_type (codes " *req") (unfold plain in refl) h
          (unfold plain in refl))
]

pub res_arg-plain : (info : RpcTypes) → plain info.res_type ≡ true → plain (res_arg info) ≡ true
res_arg-plain info h = elim (Bool-cases (is_void info.res_type)) [
  | inl void ↦ unfold res_arg plain in rw void refl
  | inr typed ↦
      unfold res_arg in
      rw typed (plain-append info.res_type (codes " *res") h (unfold plain in refl))
]

split-plain : (sep : ℕ) (s : Str) → plain s ≡ true → All (λ p. plain p ≡ true) (split sep s)
unfolding split plain
split-plain sep [] h = (refl, tt)
split-plain sep (c ∷ s) h = elim (Bool-cases (c == sep)) [
  | inl cut ↦ rw cut (refl, split-plain sep s (ground arith))
  | inr kept ↦ rw kept (extended (split sep s) (split-plain sep s (ground arith)))
]
  where
    extended :
        (ps : List Str) → All (λ p. plain p ≡ true) ps → All (λ p. plain p ≡ true) (extend c ps)
    extended [] hp = (ground arith, tt)
    extended (p ∷ ps) hp = (ground (arith, hp.0), hp.1)

message_c_type-plain :
    (pkg msg : Str) → plain pkg ≡ true → plain msg ≡ true → plain (message_c_type pkg msg) ≡ true
unfolding message_c_type
message_c_type-plain pkg msg hp hm =
    plain-append (codes "rpc_" ++ pkg ++ codes "_" ++ msg) (codes "_t")
      (plain-append (codes "rpc_" ++ pkg ++ codes "_") msg
        (plain-around (codes "rpc_") pkg (codes "_") (unfold plain in refl) hp
          (unfold plain in refl))
        hm)
      (unfold plain in refl)

-- the parts of a reference `pkg.msg`
abbrev PlainPair : Str × Str → Type 0
PlainPair p = (plain p.0 ≡ true) × (plain p.1 ≡ true)

pair-plain : (t : Str) → plain t ≡ true → Returns PlainPair (pair_of (split b'.' t))
pair-plain t h = parts (split b'.' t) (split-plain b'.' t h)
  where
    parts : (ps : List Str) → All (λ q. plain q ≡ true) ps → Returns PlainPair (pair_of ps)
    parts [] hs = unfold pair_of in tt
    parts (a ∷ []) hs = unfold pair_of in tt
    parts (a ∷ b ∷ []) hs = unfold pair_of in (hs.0, hs.1.0)
    parts (a ∷ b ∷ c ∷ more) hs = unfold pair_of in tt

abbrev PlainPart : Part → Type 0
PlainPart p = plain p.c_type ≡ true

scalar-plain : (t : Str) → plain t ≡ true → plain (t ++ codes "_t") ≡ true
scalar-plain t h = plain-append t (codes "_t") h (unfold plain in refl)

command_part-plain :
    (service_name cmd : Str)
    → plain service_name ≡ true
    → plain cmd ≡ true
    → Returns PlainPart (command_part service_name cmd)
unfolding command_part
command_part-plain service_name cmd hs hc = elim (Bool-cases (is_empty cmd)) [
  | inl h ↦ rw h (unfold plain in refl)
  | inr h ↦ elim (Bool-cases (has_dot cmd)) [
    | inl dot ↦
        rw (h, dot)
          (Returns-bind PlainPair PlainPart (pair_of (split b'.' cmd)) _ (pair-plain cmd hc)
            (λ p hp. message_c_type-plain p.0 p.1 hp.0 hp.1))
    | inr bare ↦ elim (Bool-cases (is_number_or_bool cmd)) [
      | inl scalar ↦ rw (h, bare, scalar) (scalar-plain cmd hc)
      | inr local ↦ rw (h, bare, local) (message_c_type-plain service_name cmd hs hc)
    ]
  ]
]

named :
    (name : Option Str) (rest : Str → Result Part)
    → ((n : Str) → Returns PlainPart (rest n))
    → Returns PlainPart (required name >>= rest)
named name rest h =
    Returns-bind (λ n. Unit {0}) PlainPart (required name) rest (Returns-any (required name))
      (λ n u. h n)

result_part-plain :
    (prefix service_name rpc_type : Str) (r : Rpc)
    → plain service_name ≡ true
    → plain (or_empty r.result) ≡ true
    → Returns PlainPart (result_part prefix service_name rpc_type r)
unfolding result_part
result_part-plain prefix service_name rpc_type r hs hr =
    elim (Bool-cases (str_eq rpc_type (codes "REQUEST_ONLY") || is_empty (or_empty r.result))) [
      | inl nothing ↦ rw nothing (elim (Bool-cases (is_empty (or_empty r.result))) [
        | inl e ↦ rw e (unfold plain in refl)
        | inr e ↦ rw e (unfold plain in refl)
      ])
      | inr some_result ↦ elim (Bool-cases (is_number_or_bool (or_empty r.result))) [
        | inl scalar ↦
            rw (some_result, scalar) (named r.name _ (λ n. scalar-plain (or_empty r.result) hr))
        | inr other ↦ elim (Bool-cases (has_dot (or_empty r.result))) [
          | inl dot ↦
              rw (some_result, other, dot)
                (Returns-bind PlainPair PlainPart (pair_of (split b'.' (or_empty r.result))) _
                  (pair-plain (or_empty r.result) hr)
                  (λ p hp. named r.name _ (λ n. message_c_type-plain p.0 p.1 hp.0 hp.1)))
          | inr local ↦
              rw (some_result, other, local)
                (named r.name _ (λ n. message_c_type-plain service_name (or_empty r.result) hs hr))
        ]
      ]
    ]

-- the types of a handler
abbrev pub PlainTypes : RpcTypes → Type 0
PlainTypes info = (plain info.cmd_type ≡ true) × (plain info.res_type ≡ true)

pub get_rpc_types-plain :
    (r : Rpc) (service_name package_name : Str)
    → plain service_name ≡ true
    → plain (or_empty r.command) ≡ true
    → plain (or_empty r.result) ≡ true
    → Returns PlainTypes (get_rpc_types r service_name package_name)
unfolding get_rpc_types
get_rpc_types-plain r service_name package_name hs hc hr =
    Returns-bind PlainPart PlainTypes (command_part service_name (or_empty r.command)) _
      (command_part-plain service_name (or_empty r.command) hs hc)
      (λ cmd h.
        Returns-bind PlainPart PlainTypes
          (result_part (package_prefix package_name) service_name (type_of r) r) _
          (result_part-plain (package_prefix package_name) service_name (type_of r) r hs hr)
          (λ res h'. elim (Bool-cases (str_eq (type_of r) (codes "NOTIFICATION"))) [
            | inl event ↦ rw event (
                Returns-bind (λ n. Unit {0}) PlainTypes (required r.name) _
                  (Returns-any (required r.name))
                  (λ n u. (unfold plain in refl, unfold plain in refl)))
            | inr request ↦ rw request (h, h')
          ]))
