-- ===== src/Validator/Fault.antt =====
-- `ValidationError`: the rule that a specification breaks. The text of the message, its context and
-- its line are not modelled.
use windrpc.Base.{ℕ, List, [], ◌∷◌, ◌++◌, Bool, true, false, Option}
use windrpc.Base.Text.{Str}
use windrpc.Spec.{ℤ, Scalar}

pub data NameKind : Type 0 where
  service message enum field rpc enum_member : NameKind

pub data Fault : Type 0 where
  name_missing : NameKind → Fault
  name_characters name_style : NameKind → Str → Fault
  duplicate_name duplicate_normalized_name : Str → Fault
  duplicate_number : ℕ → Fault
  duplicate_id : Scalar → Fault
  invalid_type : Option Str → Fault
  prefix_missing : Str → List Str → Fault
  no_zero_member first_member_not_zero first_member_implicit : Str → Fault
  duplicate_value : ℤ → Fault
  service_named_types : Fault
  conflicts_with_service : Str → Fault
  no_service : Fault
  id_not_integer : Str → Fault
  service_id_range service_id_reserved rpc_id_range : ℤ → Fault
  invalid_rpc_type : Option Str → Fault
  request_required response_required event_required : Fault
  invalid_request invalid_response invalid_event : Option Str → Fault

abbrev pub Faults : Type 0
Faults = List Fault

-- `if test: errors.append(fault)`
abbrev pub fault_if : Bool → Fault → Faults
fault_if true f = f ∷ []
fault_if false f = []

-- `for x in xs: …`, where each round may add to `errors`
unfoldable pub for_each {ℓ} : {A : Type ℓ} → (A → Faults) → List A → Faults
for_each check [] = []
for_each check (x ∷ xs) = check x ++ for_each check xs
