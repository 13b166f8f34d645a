-- ===== src/Converter/Pascal.antt =====
-- `to_pascal_case` gives a normal form.
use mathlib.Core.List.{flatten}
use windrpc.Base.{
  ℕ, ◌≡◌, ◌≢◌, refl, ap, ◌∙◌, true, false, List, [], ◌∷◌, ◌++◌, map, arith, Bool-cases, inl, inr,
  ◌==◌, All, All-append,
}
use windrpc.Base.Text.{Str, codes, upper_char, lower, split, extend, upper_char_idem}
use windrpc.Converter.{underscore, has_underscore, capitalize, upper_first, to_pascal_case}

snake : to_pascal_case (codes "power_info") ≡ codes "PowerInfo"
unfolding to_pascal_case upper_char lower
snake = refl

abbrev Plain : Str → Type 0
Plain = All (λ c. c ≢ underscore)

upper_char-plain : (c : ℕ) → c ≢ underscore → upper_char c ≢ underscore
unfolding upper_char
upper_char-plain c h = ground arith

lower-Plain : (s : Str) → Plain s → Plain (lower s)
unfolding lower
lower-Plain [] h = tt
lower-Plain (c ∷ s) h = (ground arith, lower-Plain s h.1)

capitalize-Plain : (s : Str) → Plain s → Plain (capitalize s)
unfolding capitalize
capitalize-Plain [] h = tt
capitalize-Plain (c ∷ s) h = (upper_char-plain c h.0, lower-Plain s h.1)

abbrev AllPlain : List Str → Type 0
AllPlain = All Plain

extend-plain : (c : ℕ) (ps : List Str) → c ≢ underscore → AllPlain ps → AllPlain (extend c ps)
unfolding extend
extend-plain c [] h hp = ((h, tt), tt)
extend-plain c (p ∷ ps) h hp = ((h, hp.0), hp.1)

split-plain : (s : Str) → AllPlain (split underscore s)
unfolding split
split-plain [] = (tt, tt)
split-plain (c ∷ s) = elim (Bool-cases (c == underscore)) [
  | inl e ↦ rw e (tt, split-plain s)
  | inr ne ↦ rw ne (extend-plain c (split underscore s) (ground arith) (split-plain s))
]

flatten-Plain : (ps : List Str) → AllPlain ps → Plain (flatten (map capitalize ps))
unfolding flatten
flatten-Plain [] h = tt
flatten-Plain (p ∷ ps) h =
    All-append (λ c. c ≢ underscore) (capitalize p) _ (capitalize-Plain p h.0)
      (flatten-Plain ps h.1)

upper_first-flatten :
    (ps : List Str) → upper_first (flatten (map capitalize ps)) ≡ flatten (map capitalize ps)
unfolding flatten capitalize upper_first
upper_first-flatten [] = refl
upper_first-flatten ([] ∷ ps) = upper_first-flatten ps
upper_first-flatten ((c ∷ p) ∷ ps) =
    ap (λ d. d ∷ (lower p ++ flatten (map capitalize ps))) (upper_char_idem c)

Plain-text : (s : Str) → has_underscore s ≡ false → Plain s
unfolding has_underscore
Plain-text [] h = tt
Plain-text (c ∷ s) h = ground (arith, Plain-text s)

has_underscore-Plain : (s : Str) → Plain s → has_underscore s ≡ false
unfolding has_underscore
has_underscore-Plain [] h = refl
has_underscore-Plain (c ∷ s) h = ground (arith, has_underscore-Plain s h.1)

to_pascal_plain : (s : Str) → has_underscore s ≡ false → to_pascal_case s ≡ upper_first s
to_pascal_plain [] h = unfold to_pascal_case in refl
to_pascal_plain (c ∷ s) h = unfold to_pascal_case in rw h

to_pascal_words :
    (s : Str)
    → has_underscore s ≡ true
    → to_pascal_case s ≡ flatten (map capitalize (split underscore s))
to_pascal_words [] h = cc (has_underscore-Plain [] tt)
to_pascal_words (c ∷ s) h = unfold to_pascal_case in rw h

upper_first-Plain : (s : Str) → Plain s → Plain (upper_first s)
unfolding upper_first
upper_first-Plain [] h = tt
upper_first-Plain (c ∷ s) h = (upper_char-plain c h.0, h.1)

upper_first_idem : (s : Str) → upper_first (upper_first s) ≡ upper_first s
unfolding upper_first
upper_first_idem [] = refl
upper_first_idem (c ∷ s) = ap (λ d. d ∷ s) (upper_char_idem c)

-- The result holds no underscore and begins with no small letter; putting it through
-- `to_pascal_case` again changes nothing.
pub to_pascal_case_lem :
    (s : Str)
    → (has_underscore (to_pascal_case s) ≡ false)
      × (upper_first (to_pascal_case s) ≡ to_pascal_case s)
      × (to_pascal_case (to_pascal_case s) ≡ to_pascal_case s)
to_pascal_case_lem s = elim (Bool-cases (has_underscore s)) [
  | inl h ↦
      let out : Str = flatten (map capitalize (split underscore s)) in
      let plain : has_underscore out ≡ false =
        has_underscore-Plain out (flatten-Plain (split underscore s) (split-plain s)) in
      let first : upper_first out ≡ out = upper_first-flatten (split underscore s) in
      rw (to_pascal_words s h) (plain, first, to_pascal_plain out plain ∙ first)
  | inr h ↦
      let plain : has_underscore (upper_first s) ≡ false =
        has_underscore-Plain (upper_first s) (upper_first-Plain s (Plain-text s h)) in
      rw (to_pascal_plain s h)
        (plain, upper_first_idem s, to_pascal_plain (upper_first s) plain ∙ upper_first_idem s)
]
