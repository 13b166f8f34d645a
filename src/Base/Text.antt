-- ===== src/Base/Text.antt =====
-- Python's `str` as a list of code points. Case conversion is that of ASCII: the names that the
-- program accepts are ASCII.
use Prim.Native.Nat.{ℕ, ◌+◌, ◌-◌}
use Prim.Native.Char.{code}
use Prim.Native.String.{String}
use mathlib.Core.Path.{◌≡◌, refl, ap}
use mathlib.Core.Logic.{◌≢◌, ◌↔◌, inl, inr}
use mathlib.Core.Bool.{Bool, true, false, ◌&&◌, ◌||◌}
use mathlib.Core.List.{List, [], ◌∷◌, ◌++◌, map}
use native.Mathlib.Omega.{arith}
use windrpc.Base.Tests.{leb, ◌==◌, if◌then◌else◌, Bool-cases}
use windrpc.Base.Lists.{All}

abbrev pub Str : Type 0
Str = List ℕ

-- the code points of a literal
abbrev pub codes : String → Str
codes String.[] = []
codes (String.◌∷◌ c s) = code c ∷ codes s

-- `s == t`
unfoldable pub str_eq : Str → Str → Bool
str_eq [] [] = true
str_eq [] (d ∷ t) = false
str_eq (c ∷ s) [] = false
str_eq (c ∷ s) (d ∷ t) = (c == d) && str_eq s t

pub str_eq_refl : (s : Str) → str_eq s s ≡ true
unfolding str_eq
str_eq_refl [] = refl
str_eq_refl (c ∷ s) = ground (arith, str_eq_refl s)

pub str_eq→eq : (s t : Str) → str_eq s t ≡ true → s ≡ t
unfolding str_eq
str_eq→eq [] [] h = refl
str_eq→eq [] (d ∷ t) h = cc
str_eq→eq (c ∷ s) [] h = cc
str_eq→eq (c ∷ s) (d ∷ t) h = ground (arith, str_eq→eq s t)

pub str_eq-ne : (s t : Str) → s ≢ t → str_eq s t ≡ false
str_eq-ne s t ne = elim (Bool-cases (str_eq s t)) [
  | inl same ↦ absurd (ne (str_eq→eq s t same))
  | inr other ↦ other
]

pub ne-str_eq : (s t : Str) → str_eq s t ≡ false → s ≢ t
ne-str_eq s t h e = cc (rw (e, str_eq_refl t) at h)

pub str_eq_iff : (s t : Str) → (str_eq s t ≡ true) ↔ (s ≡ t)
str_eq_iff s t = (str_eq→eq s t, λ e. rw e (str_eq_refl t))

-- `x in xs` for a collection of texts
unfoldable pub str_mem : Str → List Str → Bool
str_mem x [] = false
str_mem x (y ∷ ys) = str_eq x y || str_mem x ys

-- what holds of every text of a list holds of one that is in it
pub All-str_mem :
    (P : Str → Type 0) (x : Str) (xs : List Str) → All P xs → str_mem x xs ≡ true → P x
unfolding str_mem
All-str_mem P x [] h m = absurd (cc m)
All-str_mem P x (y ∷ xs) h m = elim (Bool-cases (str_eq x y)) [
  | inl same ↦ rw (str_eq→eq x y same) h.0
  | inr other ↦ All-str_mem P x xs h.1 (rw other at m)
]

unfoldable pub is_lower : ℕ → Bool
is_lower c = leb b'a' c && leb c b'z'

unfoldable pub is_upper : ℕ → Bool
is_upper c = leb b'A' c && leb c b'Z'

unfoldable pub is_digit : ℕ → Bool
is_digit c = leb b'0' c && leb c b'9'

unfoldable pub upper_char : ℕ → ℕ
unfolding is_lower
upper_char c = if is_lower c then c - 32 else c

unfoldable pub lower_char : ℕ → ℕ
unfolding is_upper
lower_char c = if is_upper c then c + 32 else c

-- `s.upper()`
unfoldable pub upper : Str → Str
unfolding upper_char
upper s = map upper_char s

-- `s.lower()`
unfoldable pub lower : Str → Str
unfolding lower_char
lower s = map lower_char s

-- `s.startswith(p)`
unfoldable pub starts_with : Str → Str → Bool
starts_with s [] = true
starts_with [] (c ∷ p) = false
starts_with (d ∷ s) (c ∷ p) = (c == d) && starts_with s p

-- a character in front of the first part
unfoldable pub extend : ℕ → List Str → List Str
extend c [] = (c ∷ []) ∷ []
extend c (p ∷ ps) = (c ∷ p) ∷ ps

-- `s.split(sep)` for a separator of one character
unfoldable pub split : ℕ → Str → List Str
unfolding extend
split sep [] = [] ∷ []
split sep (c ∷ s) = let rest = split sep s in if c == sep then [] ∷ rest else extend c rest

-- `sep.join(parts)`
unfoldable pub join : Str → List Str → Str
join sep [] = []
join sep (p ∷ []) = p
join sep (p ∷ q ∷ ps) = p ++ sep ++ join sep (q ∷ ps)

pub upper_char_idem : (c : ℕ) → upper_char (upper_char c) ≡ upper_char c
unfolding upper_char
upper_char_idem c = ground arith

pub upper_idem : (s : Str) → upper (upper s) ≡ upper s
unfolding upper
upper_idem [] = refl
upper_idem (c ∷ s) = cc (upper_char_idem c, upper_idem s)

pub upper-append : (s t : Str) → upper (s ++ t) ≡ upper s ++ upper t
unfolding upper
upper-append [] t = refl
upper-append (c ∷ s) t = ap (λ l. upper_char c ∷ l) (upper-append s t)

pub starts_with-append : (p s : Str) → starts_with (p ++ s) p ≡ true
unfolding starts_with
starts_with-append [] [] = refl
starts_with-append [] (c ∷ s) = refl
starts_with-append (c ∷ p) s = ground (arith, starts_with-append p s)
