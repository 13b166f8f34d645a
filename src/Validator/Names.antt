-- ===== src/Validator/Names.antt =====
-- `validate_name` and its patterns.
pub mod Newline
use windrpc.Base.{
  ℕ, Bool, true, false, not, ◌&&◌, ◌||◌, Option, none, some, List, [], ◌∷◌, ◌==◌, if◌then◌else◌,
}
use windrpc.Base.Text.{Str, is_lower, is_upper, is_digit}
use windrpc.Validator.Fault.{
  NameKind, service, message, enum, field, rpc, enum_member, Faults, name_missing, name_characters,
  name_style,
}

-- `[class]*$`: `$` stands at the end of the text and in front of a newline that ends it
unfoldable pub class_to_end : (ℕ → Bool) → Str → Bool
class_to_end allowed [] = true
class_to_end allowed (c ∷ []) = allowed c || c == 10
class_to_end allowed (c ∷ d ∷ s) = allowed c && class_to_end allowed (d ∷ s)

-- `^[first][class]*$`
unfoldable pub matches : (ℕ → Bool) → (ℕ → Bool) → Str → Bool
unfolding class_to_end
matches first allowed [] = false
matches first allowed (c ∷ s) = first c && class_to_end allowed s

unfoldable pub identifier_start : ℕ → Bool
unfolding is_lower is_upper
identifier_start c = is_lower c || is_upper c || c == b'_'

unfoldable pub identifier_char : ℕ → Bool
unfolding is_lower is_upper is_digit
identifier_char c = is_lower c || is_upper c || is_digit c || c == b'_'

unfoldable pub snake_char : ℕ → Bool
unfolding is_lower is_digit
snake_char c = is_lower c || is_digit c || c == b'_'

unfoldable pub alphanumeric : ℕ → Bool
unfolding is_lower is_upper is_digit
alphanumeric c = is_lower c || is_upper c || is_digit c

unfoldable pub upper_snake_char : ℕ → Bool
unfolding is_upper is_digit
upper_snake_char c = is_upper c || is_digit c || c == b'_'

-- `IDENTIFIER_PATTERN`
unfoldable pub is_identifier : Str → Bool
unfolding matches identifier_start identifier_char
is_identifier name = matches identifier_start identifier_char name

-- `SERVICE_NAME_PATTERN`, `PASCAL_CASE_PATTERN`, `SNAKE_CASE_PATTERN`, `UPPER_SNAKE_CASE_PATTERN`
unfoldable pub has_style : NameKind → Str → Bool
unfolding matches snake_char alphanumeric upper_snake_char is_lower is_upper
has_style service name = matches is_lower snake_char name
has_style message name = matches is_upper alphanumeric name
has_style enum name = matches is_upper alphanumeric name
has_style field name = matches snake_char snake_char name
has_style rpc name = matches snake_char snake_char name
has_style enum_member name = matches upper_snake_char upper_snake_char name

unfoldable pub validate_name : Option Str → NameKind → Faults
validate_name none kind = name_missing kind ∷ []
validate_name (some []) kind = name_missing kind ∷ []
validate_name (some (c ∷ name)) kind =
    if not (is_identifier (c ∷ name))
    then name_characters kind (c ∷ name) ∷ []
    else if not (has_style kind (c ∷ name))
    then name_style kind (c ∷ name) ∷ []
    else []
