-- ===== src/Proto/Options/Sizes.antt =====
-- The sizes that the server reckons for messages, with the options of the generator and without.
use windrpc.Base.{
  ℕ, ◌+◌, ◌*◌, ◌≡◌, refl, ◌∙◌, Bool, true, ◌&&◌, Option, none, some, List, [], ◌∷◌, map, arith,
  Bool-cases, Option-cases, inl, inr, if◌then◌else◌,
}
use windrpc.Base.Text.{Str, codes, str_eq}
use windrpc.Spec.{Nanopb, Field}
use windrpc.Server.Sizing.{or_else, base_len, field_count, message_size}
use windrpc.Proto.Options.{
  Config, with_defaults, is_text, is_none, is_unlimited, limit_size, limit_count, config_or,
}

-- a specification without `config`
abbrev pub no_config : Config
no_config = record {
  default_string_max_size = none;
  default_bytes_max_size = none;
  default_array_max_count = none;
}

-- the field with the options that are written for it
abbrev pub limited : Field → Field
limited f = record f { nanopb = with_defaults no_config f }

-- a repeated field that says nothing about its count
unfoldable pub is_open : Field → Bool
unfolding is_text is_none
is_open f = is_text f.property (codes "repeated") && is_none f.nanopb.max_count

-- the bytes of one element of each such field
unfoldable pub open_size : List Field → ℕ
unfolding is_open
open_size [] = 0
open_size (f ∷ fs) = (if is_open f then base_len f else 0) + open_size fs

-- the length of a text or a byte string
sized : Nanopb → ℕ
sized o = or_else o.max_length (or_else o.max_size 64)

unlimited_sized : (o : Nanopb) → is_unlimited o ≡ true → (o.max_size ≡ none) × (o.max_length ≡ none)
unfolding is_unlimited is_none
unlimited_sized o h = elim (Option-cases o.max_size) [
  | inl s ↦ elim (Option-cases o.max_length) [
    | inl l ↦ (s, l)
    | inr (n, l) ↦ absurd (cc (rw (s, l) at h))
  ]
  | inr (n, s) ↦ absurd (cc (rw s at h))
]

sized-limit_size : (t : Option Str) (o : Nanopb) → sized (limit_size no_config t o) ≡ sized o
unfolding limit_size sized config_or or_else
sized-limit_size t o = elim (Bool-cases (is_unlimited o)) [
  | inl unlimited ↦
      let (s, l) = unlimited_sized o unlimited in
      elim (Bool-cases (is_text t (codes "string"))) [
        | inl a ↦ rw (unlimited, a, l, s) refl
        | inr a ↦ elim (Bool-cases (is_text t (codes "bytes"))) [
          | inl b ↦ rw (unlimited, a, b, l, s) refl
          | inr b ↦ rw (unlimited, a, b) refl
        ]
      ]
  | inr given ↦ elim (Bool-cases (is_text t (codes "string"))) [
    | inl a ↦ elim (Bool-cases (is_text t (codes "bytes"))) [
      | inl b ↦ rw (given, a, b) refl
      | inr b ↦ rw (given, a, b) refl
    ]
    | inr a ↦ elim (Bool-cases (is_text t (codes "bytes"))) [
      | inl b ↦ rw (given, a, b) refl
      | inr b ↦ rw (given, a, b) refl
    ]
  ]
]

sized-limit_count : (p : Option Str) (o : Nanopb) → sized (limit_count no_config p o) ≡ sized o
unfolding limit_count sized
sized-limit_count p o = elim (Bool-cases (is_text p (codes "repeated") && is_none o.max_count)) [
  | inl free ↦ rw free refl
  | inr closed ↦ rw closed refl
]

same_sized :
    (f : Field) (o : Nanopb)
    → sized o ≡ sized f.nanopb
    → base_len (record f { nanopb = o }) ≡ base_len f
unfolding base_len sized
same_sized f o h = rw h refl

base_len-limited : (f : Field) → base_len (limited f) ≡ base_len f
base_len-limited f = same_sized f (with_defaults no_config f) (
    unfold with_defaults in
    sized-limit_count f.property (limit_size no_config f.type_name f.nanopb)
    ∙ sized-limit_size f.type_name f.nanopb)

max_count-limit_size :
    (t : Option Str) (o : Nanopb) → (limit_size no_config t o).max_count ≡ o.max_count
unfolding limit_size
max_count-limit_size t o = elim (Bool-cases (is_text t (codes "string") && is_unlimited o)) [
  | inl a ↦ rw a refl
  | inr a ↦ elim (Bool-cases (is_text t (codes "bytes") && is_unlimited o)) [
    | inl b ↦ rw (a, b) refl
    | inr b ↦ rw (a, b) refl
  ]
]

-- how often a field with a given count is reckoned
counted : Option Str → Option ℕ → ℕ
counted p n = if str_eq (or_else p []) (codes "repeated") then or_else n 1 else 1

counted-limit_count :
    (p : Option Str) (o : Nanopb) (n : Option ℕ)
    → o.max_count ≡ n
    → counted p (limit_count no_config p o).max_count
      ≡ (if is_text p (codes "repeated") && is_none n then 16 else counted p n)
unfolding counted limit_count or_else is_text is_none config_or str_eq
counted-limit_count none o n h = refl
counted-limit_count (some s) o none h = elim (Bool-cases (str_eq s (codes "repeated"))) [
  | inl repeated ↦ rw (h, repeated) refl
  | inr single ↦ rw (h, single) refl
]
counted-limit_count (some s) o (some k) h = elim (Bool-cases (str_eq s (codes "repeated"))) [
  | inl repeated ↦ rw (repeated, h) refl
  | inr single ↦ rw single refl
]

field_count-limited :
    (f : Field) → field_count (limited f) ≡ (if is_open f then 16 else field_count f)
unfolding is_open field_count counted with_defaults
field_count-limited f =
    counted-limit_count f.property (limit_size no_config f.type_name f.nanopb) f.nanopb.max_count
      (max_count-limit_size f.type_name f.nanopb)

counted_open :
    (p : Option Str) (n : Option ℕ)
    → (is_text p (codes "repeated") && is_none n) ≡ true
    → counted p n ≡ 1
unfolding counted or_else is_text is_none str_eq
counted_open none n h = refl
counted_open (some s) none h = elim (Bool-cases (str_eq s (codes "repeated"))) [
  | inl repeated ↦ rw repeated refl
  | inr single ↦ rw single refl
]
counted_open (some s) (some k) h = elim (Bool-cases (str_eq s (codes "repeated"))) [
  | inl repeated ↦ cc (rw repeated at h)
  | inr single ↦ cc (rw single at h)
]

open_count : (f : Field) → is_open f ≡ true → field_count f ≡ 1
unfolding is_open field_count counted
open_count f h = counted_open f.property f.nanopb.max_count h

-- Where the specification has no `config`, the size that the server reckons for a message whose fields
-- have the options that the generator writes for them is the size that it reckons for the message as
-- it is given, and 15 more elements of each repeated field that has no `max_count`: the options permit
-- 16 elements of it, and the server reckons with one.
pub message_size-with_defaults :
    (fs : List Field) → message_size (map limited fs) ≡ message_size fs + 15 * open_size fs
unfolding message_size open_size
message_size-with_defaults [] = omega arith
message_size-with_defaults (f ∷ fs) = elim (Bool-cases (is_open f)) [
  | inl free ↦
      let one : field_count f ≡ 1 = open_count f free in
      let sixteen : field_count (limited f) ≡ 16 = field_count-limited f ∙ rw free refl in
      rw (free, one, sixteen) (omega (arith, base_len-limited f, message_size-with_defaults fs))
  | inr closed ↦
      let same : field_count (limited f) ≡ field_count f = field_count-limited f ∙ rw closed refl in
      rw (closed, same, base_len-limited f) (omega (arith, message_size-with_defaults fs))
]
