-- ===== src/Converter/Prefix.antt =====
-- Prefixes of enum values: `enum_value_prefix` and `apply_enum_prefix`.
use windrpc.Base.{
  ℕ, ◌≡◌, ◌≢◌, refl, sym, ap, ◌∙◌, true, false, none, some, [], ◌∷◌, ◌++◌, arith, Bool-cases, inl,
  inr, length, length-append,
}
use windrpc.Base.Text.{Str, codes, upper, upper_idem, upper-append, starts_with, starts_with-append}
use windrpc.Converter.{
  underscore, apply_enum_prefix, enum_value_prefix, rstrip_underscores, keep_unless_last,
}

derived : enum_value_prefix (codes "HTTPStatusCode2X") none ≡ codes "HTTP_STATUS_CODE2_X_"
unfolding enum_value_prefix upper
derived = refl

module _ (member_name prefix : Str) where
  prefixed :
      starts_with (upper member_name) (upper prefix) ≡ true
      → apply_enum_prefix member_name prefix ≡ upper member_name
  unfolding apply_enum_prefix
  prefixed h = rw h

  pub unprefixed :
      starts_with (upper member_name) (upper prefix) ≡ false
      → apply_enum_prefix member_name prefix ≡ upper prefix ++ upper member_name
  unfolding apply_enum_prefix
  unprefixed h = rw h

  -- A name with its prefix is in upper case and begins with the prefix, and putting the prefix on
  -- it again changes nothing.
  pub apply_enum_prefix_lem :
      (upper (apply_enum_prefix member_name prefix) ≡ apply_enum_prefix member_name prefix)
      × (starts_with (apply_enum_prefix member_name prefix) (upper prefix) ≡ true)
      × (apply_enum_prefix (apply_enum_prefix member_name prefix) prefix
          ≡ apply_enum_prefix member_name prefix)
  apply_enum_prefix_lem = elim (Bool-cases (starts_with (upper member_name) (upper prefix))) [
    | inl h ↦
        rw (prefixed h)
          (upper_idem member_name, h, (unfold apply_enum_prefix in rw (upper_idem member_name, h)))
    | inr h ↦
        let out : Str = upper prefix ++ upper member_name in
        let same : upper out ≡ out =
          upper-append (upper prefix) (upper member_name)
          ∙ rw (upper_idem prefix, upper_idem member_name) in
        let begins : starts_with out (upper prefix) ≡ true =
          starts_with-append (upper prefix) (upper member_name) in
        rw (unprefixed h) (same, begins, (unfold apply_enum_prefix in rw (same, begins)))
  ]

longer : (p s : Str) → p ≢ [] → s ≢ p ++ s
longer [] s h e = absurd (h refl)
longer (c ∷ p) s h e = absurd (omega (arith, ap length e, length-append (c ∷ p) s))

upper-ne-nil : (p : Str) → p ≢ [] → upper p ≢ []
unfolding upper
upper-ne-nil [] ne = absurd (ne refl)
upper-ne-nil (c ∷ p) ne = λ e. cc

-- Two members of an enum can have different names and get the same name: a name in upper case that
-- lacks the prefix, which is not empty, and the same name with the prefix written out.
pub apply_enum_prefix_collision :
    (member_name prefix : Str)
    → upper member_name ≡ member_name
    → prefix ≢ []
    → starts_with (upper member_name) (upper prefix) ≡ false
    → (member_name ≢ upper prefix ++ member_name)
      × (apply_enum_prefix member_name prefix
          ≡ apply_enum_prefix (upper prefix ++ member_name) prefix)
apply_enum_prefix_collision member_name prefix up ne h = (
  longer (upper prefix) member_name (upper-ne-nil prefix ne),
  rw (unprefixed member_name prefix h, up)
      (sym
        (rw (unprefixed member_name prefix h, up) at (apply_enum_prefix_lem member_name prefix).2)),
)

rstrip-append : (p : Str) → rstrip_underscores (p ++ underscore ∷ []) ≡ rstrip_underscores p
unfolding rstrip_underscores
rstrip-append [] = refl
rstrip-append (c ∷ p) = ap (keep_unless_last c) (rstrip-append p)

-- An explicit prefix may be written with or without an underscore behind it.
pub enum_value_prefix-underscore :
    (enum_name : Str) (c : ℕ) (p : Str)
    → enum_value_prefix enum_name (some (c ∷ p ++ underscore ∷ []))
      ≡ enum_value_prefix enum_name (some (c ∷ p))
unfolding enum_value_prefix
enum_value_prefix-underscore enum_name c p = rw (rstrip-append p)
