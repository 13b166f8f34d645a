-- ===== src/Validator/Names/Newline.antt =====
-- The patterns end in `$`, which lets a newline through.
use windrpc.Base.{
  ℕ, ◌≡◌, ◌≢◌, refl, ap, Bool, true, Option, none, some, [], ◌∷◌, ◌++◌, arith, Bool-cases, inl, inr,
  ◌⊎◌, All,
}
use windrpc.Base.Text.{Str}
use windrpc.Validator.Fault.{NameKind, service, message, enum, field, rpc, enum_member}
use windrpc.Validator.Names.{
  class_to_end, matches, is_identifier, has_style, validate_name, identifier_start, identifier_char,
}

module _ (allowed : ℕ → Bool) where
  class_to_end-newline :
      (s : Str)
      → All (λ c. c ≢ 10) s
      → class_to_end allowed s ≡ true
      → class_to_end allowed (s ++ 10 ∷ []) ≡ true
  unfolding class_to_end
  class_to_end-newline [] hs h = ground arith
  class_to_end-newline (c ∷ []) hs h = ground arith
  class_to_end-newline (c ∷ d ∷ s) hs h = ground (arith, class_to_end-newline (d ∷ s) hs.1)

  matches-newline :
      (first : ℕ → Bool) (s : Str)
      → All (λ c. c ≢ 10) s
      → matches first allowed s ≡ true
      → matches first allowed (s ++ 10 ∷ []) ≡ true
  matches-newline first [] hs h = unfold matches in cc (h)
  matches-newline first (c ∷ s) hs h = unfold matches in ground (arith, class_to_end-newline s hs.1)

  class_to_end_lem :
      (s : Str)
      → class_to_end allowed s ≡ true
      → All (λ c. allowed c ≡ true) s
        ⊎ ((t : Str) × (s ≡ t ++ 10 ∷ []) × All (λ c. allowed c ≡ true) t)
  unfolding class_to_end
  class_to_end_lem [] h = inl tt
  class_to_end_lem (c ∷ []) h = elim (Bool-cases (allowed c)) [
    | inl a ↦ inl (a, tt)
    | inr n ↦ let e : c ≡ 10 = ground arith in inr ([], rw e, tt)
  ]
  class_to_end_lem (c ∷ d ∷ s) h =
      let a : allowed c ≡ true = ground arith in
      elim (class_to_end_lem (d ∷ s) (ground arith)) [
        | inl all ↦ inl (a, all)
        | inr (t, e, all) ↦ inr (c ∷ t, ap (λ l. c ∷ l) e, (a, all))
      ]

style-newline :
    (kind : NameKind) (s : Str)
    → All (λ c. c ≢ 10) s
    → has_style kind s ≡ true
    → has_style kind (s ++ 10 ∷ []) ≡ true
style-newline service s hs h = unfold has_style in matches-newline _ _ s hs h
style-newline message s hs h = unfold has_style in matches-newline _ _ s hs h
style-newline enum s hs h = unfold has_style in matches-newline _ _ s hs h
style-newline field s hs h = unfold has_style in matches-newline _ _ s hs h
style-newline rpc s hs h = unfold has_style in matches-newline _ _ s hs h
style-newline enum_member s hs h = unfold has_style in matches-newline _ _ s hs h

identifier-newline :
    (s : Str) → All (λ c. c ≢ 10) s → is_identifier s ≡ true → is_identifier (s ++ 10 ∷ []) ≡ true
identifier-newline s hs h = unfold is_identifier in matches-newline _ _ s hs h

identifier_parts :
    (c : ℕ) (s : Str)
    → is_identifier (c ∷ s) ≡ true
    → (identifier_start c ≡ true) × (class_to_end identifier_char s ≡ true)
identifier_parts c s h = unfold is_identifier in ground arith

pub accepted :
    (c : ℕ) (s : Str) (kind : NameKind)
    → validate_name (some (c ∷ s)) kind ≡ []
    → (is_identifier (c ∷ s) ≡ true) × (has_style kind (c ∷ s) ≡ true)
unfolding validate_name
accepted c s kind h = ground arith

accepts :
    (c : ℕ) (s : Str) (kind : NameKind)
    → is_identifier (c ∷ s) ≡ true
    → has_style kind (c ∷ s) ≡ true
    → validate_name (some (c ∷ s)) kind ≡ []
accepts c s kind i st = unfold validate_name in rw (i, st)

-- Every name that is accepted without a newline in it is accepted with a newline behind it, too,
-- whatever it names.
pub validate_name-newline :
    (name : Str) (kind : NameKind)
    → All (λ c. c ≢ 10) name
    → validate_name (some name) kind ≡ []
    → validate_name (some (name ++ 10 ∷ [])) kind ≡ []
validate_name-newline [] kind hs h = unfold validate_name in cc
validate_name-newline (c ∷ s) kind hs h =
    let ok' : (is_identifier (c ∷ s) ≡ true) × (has_style kind (c ∷ s) ≡ true) =
      accepted c s kind h in
    accepts c (s ++ 10 ∷ []) kind (identifier-newline (c ∷ s) hs ok'.0)
      (style-newline kind (c ∷ s) hs ok'.1)

-- A name that is accepted is there and begins with a letter or an underscore; what follows is
-- letters, digits and underscores, but for one newline that may end it.
pub validate_name_lem :
    (name : Option Str) (kind : NameKind)
    → validate_name name kind ≡ []
    → (c : ℕ) × (s : Str) × (name ≡ some (c ∷ s))
      × (identifier_start c ≡ true)
      × (All (λ d. identifier_char d ≡ true) s
          ⊎ ((t : Str) × (s ≡ t ++ 10 ∷ []) × All (λ d. identifier_char d ≡ true) t))
validate_name_lem none kind h = unfold validate_name in cc
validate_name_lem (some []) kind h = unfold validate_name in cc
validate_name_lem (some (c ∷ s)) kind h =
    let parts : (identifier_start c ≡ true) × (class_to_end identifier_char s ≡ true) =
      identifier_parts c s (accepted c s kind h).0 in
    (c, s, refl, parts.0, class_to_end_lem identifier_char s parts.1)
