-- ===== src/Validator/Enums.antt =====
-- `validate_enums`.
use windrpc.Base.{
  Bool, true, false, not, ◌&&◌, ◌||◌, Option, none, some, List, [], ◌∷◌, ◌++◌, map, ◌==◌, any,
  if◌then◌else◌,
}
use windrpc.Base.Text.{Str, codes, upper, starts_with}
use windrpc.Converter.{enum_value_prefix, apply_enum_prefix}
use windrpc.Spec.{ℤ, pos, negsuc, Member, EnumDef}
use windrpc.Validator.Fault.{
  Faults, fault_if, enum_member, prefix_missing, no_zero_member, first_member_not_zero,
  first_member_implicit, duplicate_value,
}
use windrpc.Validator.Names.{validate_name}
use windrpc.Validator.Unique.{int_eq, check_names}

-- `x.get('name', 'N/A')`
unfoldable pub name_or_na : Option Str → Str
name_or_na none = codes "N/A"
name_or_na (some n) = n

-- `m.get('name') and not m['name'].upper().startswith(expected_prefix.upper())`
lacks_prefix : Str → Option Str → Bool
lacks_prefix prefix none = false
lacks_prefix prefix (some []) = false
lacks_prefix prefix (some (c ∷ name)) = not (starts_with (upper (c ∷ name)) (upper prefix))

filter_names : Str → List Member → List Str
filter_names prefix [] = []
filter_names prefix (m ∷ ms) =
    let rest = filter_names prefix ms in
    if lacks_prefix prefix m.name then name_or_na m.name ∷ rest else rest

-- `members_missing_prefix`
unfoldable pub members_missing_prefix : Str → List Member → List Str
unfolding filter_names lacks_prefix name_or_na
members_missing_prefix prefix members = filter_names prefix members

unfoldable pub is_zero : Option ℤ → Bool
is_zero (some (pos n)) = n == 0
is_zero (some (negsuc n)) = false
is_zero none = false

-- A first member with no value gets 0; otherwise some member's value has to be 0.
zero_among : Option ℤ → List Member → Bool
zero_among none ms = true
zero_among (some v) ms = is_zero (some v) || any (λ (m : Member). is_zero m.value) ms

unfoldable pub has_zero : List Member → Bool
unfolding is_zero zero_among
has_zero [] = false
has_zero (m ∷ ms) = zero_among m.value ms

-- the tests on a member's value; `first` tells the member at 0, and `seen` holds the values so far
value_faults : Bool → Bool → List ℤ → Str → Option ℤ → Faults
value_faults first zero_there seen name none =
    fault_if (first && not zero_there) (first_member_implicit name)
value_faults first zero_there seen name (some v) =
    fault_if (first && not (is_zero (some v))) (first_member_not_zero name)
    ++ fault_if (any (int_eq v) seen) (duplicate_value v)

see : Option ℤ → List ℤ → List ℤ
see none seen = seen
see (some v) seen = v ∷ seen

-- the loop over the members
check_members : Bool → Bool → Str → List ℤ → List Member → Faults
unfolding see value_faults is_zero
check_members first zero_there prefix seen [] = []
check_members first zero_there prefix seen (m ∷ ms) =
    validate_name (some (apply_enum_prefix (name_or_na m.name) prefix)) enum_member
    ++ (value_faults first zero_there seen (name_or_na m.name) m.value
        ++ check_members false zero_there prefix (see m.value seen) ms)

-- `expected_prefix`
unfoldable pub expected_prefix : EnumDef → Str
expected_prefix e = enum_value_prefix (name_or_na e.name) e.prefix

missing_fault : Str → List Str → Faults
missing_fault name [] = []
missing_fault name (m ∷ ms) = prefix_missing name (m ∷ ms) ∷ []

-- what is an error if `strict`, and a warning otherwise
unfoldable pub prefix_faults : EnumDef → Faults
unfolding missing_fault members_missing_prefix expected_prefix
prefix_faults e =
    missing_fault (name_or_na e.name) (members_missing_prefix (expected_prefix e) e.members)

unfoldable pub enum_errors : Bool → EnumDef → Faults
unfolding check_members has_zero expected_prefix
enum_errors strict e =
    check_names (map (λ (m : Member). m.name) e.members)
    ++ ((if strict then prefix_faults e else [])
        ++ (fault_if (not (has_zero e.members)) (no_zero_member (name_or_na e.name))
            ++ check_members true (has_zero e.members) (expected_prefix e) [] e.members))

unfoldable pub enum_warnings : Bool → EnumDef → Faults
enum_warnings strict e = if strict then [] else prefix_faults e
