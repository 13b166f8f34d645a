-- ===== src/Converter.antt =====
-- windrpc/utils/converter.py: names in PascalCase and UPPER_SNAKE_CASE, and the prefixes of enum values.
pub mod Prefix
pub mod Pascal
use windrpc.Base.{
  ℕ, Bool, true, false, ◌&&◌, ◌||◌, Option, none, some, List, [], ◌∷◌, ◌++◌, map, ◌==◌,
  if◌then◌else◌, any,
}
use mathlib.Core.List.{flatten}
use windrpc.Base.Text.{
  Str, upper_char, upper, lower, is_upper, is_lower, is_digit, starts_with, split,
}

abbrev pub underscore : ℕ
underscore = b'_'

-- `'_' in s`
unfoldable pub has_underscore : Str → Bool
has_underscore s = any (λ c. c == underscore) s

-- `word.capitalize()`
unfoldable pub capitalize : Str → Str
capitalize [] = []
capitalize (c ∷ s) = upper_char c ∷ lower s

-- `s[0].upper() + s[1:]`
unfoldable pub upper_first : Str → Str
upper_first [] = []
upper_first (c ∷ s) = upper_char c ∷ s

unfoldable pub to_pascal_case : Str → Str
unfolding has_underscore capitalize upper_first split flatten
to_pascal_case [] = []
to_pascal_case (c ∷ s) =
    if has_underscore (c ∷ s)
    then flatten (map capitalize (split underscore (c ∷ s)))
    else upper_first (c ∷ s)

begins_lower : Str → Bool
begins_lower [] = false
begins_lower (c ∷ s) = is_lower c

begins_upper : Str → Bool
begins_upper [] = false
begins_upper (c ∷ s) = is_upper c

-- `re.sub(r'([A-Z]+)([A-Z][a-z])', r'\1_\2', s)`: a mark in front of a capital that follows a
-- capital and is followed by a small letter; the first argument says whether a capital went before
mark_acronyms : Bool → Str → Str
unfolding begins_lower
mark_acronyms after_upper [] = []
mark_acronyms after_upper (c ∷ s) =
    let rest = mark_acronyms (is_upper c) s in
    if after_upper && is_upper c && begins_lower s then underscore ∷ c ∷ rest else c ∷ rest

-- `re.sub(r'([a-z0-9])([A-Z])', r'\1_\2', s)`
mark_words : Str → Str
unfolding begins_upper
mark_words [] = []
mark_words (c ∷ s) =
    let rest = mark_words s in
    if (is_lower c || is_digit c) && begins_upper s then c ∷ underscore ∷ rest else c ∷ rest

unfoldable pub to_upper_snake_case : Str → Str
unfolding mark_acronyms mark_words upper is_upper is_lower is_digit
to_upper_snake_case name = upper (mark_words (mark_acronyms false name))

-- a character in front of a text whose underscores at the end are gone
keep_unless_last : ℕ → Str → Str
keep_unless_last c [] = if c == underscore then [] else c ∷ []
keep_unless_last c (d ∷ t) = c ∷ d ∷ t

-- `s.rstrip('_')`
unfoldable pub rstrip_underscores : Str → Str
unfolding keep_unless_last
rstrip_underscores [] = []
rstrip_underscores (c ∷ s) = keep_unless_last c (rstrip_underscores s)

unfoldable pub enum_value_prefix : Str → Option Str → Str
unfolding to_upper_snake_case rstrip_underscores
enum_value_prefix enum_name none = to_upper_snake_case enum_name ++ underscore ∷ []
enum_value_prefix enum_name (some []) = to_upper_snake_case enum_name ++ underscore ∷ []
enum_value_prefix enum_name (some (c ∷ p)) = upper (rstrip_underscores (c ∷ p)) ++ underscore ∷ []

unfoldable pub apply_enum_prefix : Str → Str → Str
apply_enum_prefix member_name prefix =
    let upper_name = upper member_name in
    let upper_prefix = upper prefix in
    if starts_with upper_name upper_prefix then upper_name else upper_prefix ++ upper_name
