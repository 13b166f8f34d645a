-- ===== src/Validator/Unique.antt =====
-- `check_uniqueness` and `check_normalized_name_uniqueness`.
pub mod Distinct
use windrpc.Base.{
  ℕ, Bool, true, false, ◌&&◌, ◌||◌, Option, none, some, List, [], ◌∷◌, ◌++◌, map, ◌==◌,
  if◌then◌else◌, any,
}
use windrpc.Base.Text.{Str, str_eq}
use windrpc.Spec.{ℤ, pos, negsuc, Scalar, int, text}
use windrpc.Converter.{to_pascal_case}
use windrpc.Validator.Fault.{
  Fault, Faults, fault_if, duplicate_name, duplicate_normalized_name, duplicate_number,
  duplicate_id,
}

unfoldable pub int_eq : ℤ → ℤ → Bool
int_eq (pos a) (pos b) = a == b
int_eq (negsuc a) (negsuc b) = a == b
int_eq (pos a) (negsuc b) = false
int_eq (negsuc a) (pos b) = false

unfoldable pub scalar_eq : Scalar → Scalar → Bool
unfolding int_eq str_eq
scalar_eq (int a) (int b) = int_eq a b
scalar_eq (text s) (text t) = str_eq s t
scalar_eq (int a) (text t) = false
scalar_eq (text s) (int b) = false

module _ {ℓ} {A : Type ℓ} (eq : A → A → Bool) (fault : A → Fault) where
  -- the loop over the values of a key; `seen` holds those that went before
  unfoldable pub repeats : List A → List (Option A) → Faults
  repeats seen [] = []
  repeats seen (none ∷ values) = repeats seen values
  repeats seen (some v ∷ values) = fault_if (any (eq v) seen) (fault v) ++ repeats (v ∷ seen) values

-- `check_uniqueness(items, 'name', …)`, given the names
unfoldable pub check_names : List (Option Str) → Faults
unfolding repeats str_eq
check_names names = repeats str_eq duplicate_name [] names

-- `check_uniqueness(items, 'number', …)`
unfoldable pub check_numbers : List (Option ℕ) → Faults
unfolding repeats
check_numbers numbers = repeats ◌==◌ duplicate_number [] numbers

-- `check_uniqueness(items, 'id', …)`
unfoldable pub check_ids : List (Option Scalar) → Faults
unfolding repeats scalar_eq
check_ids ids = repeats scalar_eq duplicate_id [] ids

normalize_name : Option Str → Option Str
normalize_name none = none
normalize_name (some name) = some (to_pascal_case name)

-- `check_normalized_name_uniqueness(items, 'name', …, to_pascal_case)`
unfoldable pub check_normalized_names : List (Option Str) → Faults
unfolding repeats str_eq normalize_name
check_normalized_names names =
    repeats str_eq duplicate_normalized_name [] (map normalize_name names)
