-- ===== src/Validator/Whole/References.antt =====
-- What an accepted specification guarantees about the types of fields.
use mathlib.Core.Path.{subst}
use windrpc.Base.{
  ◌≡◌, refl, Bool, true, false, not, Option, none, some, List, [], ◌∷◌, ◌++◌, map, All, Bool-cases,
  inl, inr, arith,
}
use windrpc.Base.Text.{Str, codes, str_eq, str_eq→eq, str_eq_refl, str_mem, upper_char}
use windrpc.Converter.{to_pascal_case}
use windrpc.Spec.{Field, Message, EnumDef, Service, Spec}
use windrpc.Validator.Fault.{
  Fault, fault_if, for_each, field, message, service, service_named_types, invalid_type, no_service,
}
use windrpc.Validator.Names.{validate_name}
use windrpc.Validator.Unique.{check_names, check_ids, check_numbers, check_normalized_names}
use windrpc.Validator.Unique.Distinct.{append-eq-nil}
use windrpc.Validator.Types.{
  is_valid_type, all_fields, validate_field, validate_fields, service_types, given_names, is_named,
  or_here,
}
use windrpc.Validator.Enums.{name_or_na}
use windrpc.Validator.Rpcs.{service_id_faults}
use windrpc.Validator.Whole.{
  validate, validate_service, definition_faults, package_faults, name_faults, service_names,
  none_given, normalized_service_names, normalized_names,
}
use windrpc.Validator.Whole.Sound.{for_each-nil}
use windrpc.Server.Dispatch.Members.{With}

module _ (spec : Spec) (current : Option Str) where
  abbrev pub HasValidType : Field → Type 0
  HasValidType f = is_valid_type spec current f.type_name ≡ true

  abbrev pub FieldsValid : Message → Type 0
  FieldsValid m = All HasValidType (all_fields m)

  field-HasValidType : (f : Field) → validate_field spec current f ≡ [] → HasValidType f
  unfolding validate_field
  field-HasValidType f h = elim (Bool-cases (is_valid_type spec current f.type_name)) [
    | inl valid ↦ valid
    | inr invalid ↦ absurd (
        cc (
          rw invalid at
            (append-eq-nil (validate_name f.name field)
              (fault_if (not (is_valid_type spec current f.type_name)) (invalid_type f.type_name))
              h).1))
  ]

  fields-HasValidType :
      (fs : List Field) → All (λ f. validate_field spec current f ≡ []) fs → All HasValidType fs
  fields-HasValidType [] h = tt
  fields-HasValidType (f ∷ fs) h = (field-HasValidType f h.0, fields-HasValidType fs h.1)

  message-FieldsValid : (m : Message) → validate_fields spec current m ≡ [] → FieldsValid m
  unfolding validate_fields
  message-FieldsValid m h = fields-HasValidType (all_fields m) (
      for_each-nil (validate_field spec current) (all_fields m)
        (append-eq-nil (check_names (map (λ (f : Field). f.name) (all_fields m)))
          (for_each (validate_field spec current) (all_fields m))
          (append-eq-nil (check_numbers (map (λ (f : Field). f.number) (all_fields m))) _ h).1).1)

  messages-FieldsValid :
      (ms : List Message)
      → All
          (λ (m : Message). validate_name m.name message ++ validate_fields spec current m ≡ [])
          ms
      → All FieldsValid ms
  messages-FieldsValid [] h = tt
  messages-FieldsValid (m ∷ ms) h = (
    message-FieldsValid m
        (append-eq-nil (validate_name m.name message) (validate_fields spec current m) h.0).1,
    messages-FieldsValid ms h.1,
  )

definitions-FieldsValid :
    (strict : Bool) (spec : Spec) (current : Option Str) (ms : List Message) (es : List EnumDef)
    → definition_faults strict spec current ms es ≡ []
    → All (FieldsValid spec current) ms
unfolding definition_faults
definitions-FieldsValid strict spec current ms es h =
    let each =
      for_each (λ (m : Message). validate_name m.name message ++ validate_fields spec current m)
        ms in
    let from_each =
      (append-eq-nil (check_normalized_names (map (λ (e : EnumDef). e.name) es)) _
        (append-eq-nil (check_names (map (λ (e : EnumDef). e.name) es)) _
          (append-eq-nil (check_normalized_names (map (λ (m : Message). m.name) ms)) _
            (append-eq-nil (check_names (map (λ (m : Message). m.name) ms)) _ h).1).1).1).1 in
    messages-FieldsValid spec current ms (
      for_each-nil (λ (m : Message). validate_name m.name message ++ validate_fields spec current m)
        ms (append-eq-nil each _ from_each).0)

-- the fields of a service's messages
service-FieldsValid :
    (strict : Bool) (spec : Spec) (s : Service)
    → validate_service strict spec s ≡ []
    → All (FieldsValid spec (some (name_or_na s.name))) s.messages
unfolding validate_service
service-FieldsValid strict spec s h =
    let name : Str = name_or_na s.name in
    definitions-FieldsValid strict spec (some name) s.messages s.enums
      (append-eq-nil (definition_faults strict spec (some name) s.messages s.enums) _
        (append-eq-nil (service_id_faults name s.id) _
          (append-eq-nil (validate_name (some name) service) _ h).1).1).0

pub All-With : {A : Type 0} (P : A → Type 0) (x : A) (xs : List A) → All P xs → With x xs → P x
All-With P x xs h ([], after, e) = (subst (All P) e h).0
All-With P x [] h (b ∷ before, after, e) = absurd (cc e)
All-With P x (y ∷ xs) h (b ∷ before, after, e) = All-With P x xs h.1 (before, after, cc e)

types_Pascal : to_pascal_case (codes "types") ≡ codes "Types"
unfolding to_pascal_case upper_char
types_Pascal = refl

-- the first of the names is not `types`
not_types :
    (name : Option Str) (names : List (Option Str))
    → str_mem (codes "Types") (normalized_names (given_names (name ∷ names))) ≡ false
    → (is_named (codes "types") name ≡ false)
      × (str_mem (codes "Types") (normalized_names (given_names names)) ≡ false)
unfolding normalized_names given_names is_named str_mem
not_types none names h = (refl, h)
not_types (some []) names h = (unfold str_eq in refl, h)
not_types (some (c ∷ n)) names h = elim (Bool-cases (str_eq (c ∷ n) (codes "types"))) [
  | inl same ↦
      let e : c ∷ n ≡ codes "types" = str_eq→eq (c ∷ n) (codes "types") same in
      absurd (cc (rw (e, types_Pascal, str_eq_refl (codes "Types")) at h))
  | inr other ↦ (other, ground arith)
]

-- no service is called `types`
types_unnamed :
    (services : List Service)
    → str_mem
        (codes "Types")
        (normalized_names (given_names (map (λ (s : Service). s.name) services)))
      ≡ false
    → service_types services (codes "types") ≡ none
unfolding service_types or_here
types_unnamed [] h = refl
types_unnamed (s ∷ services) h =
    let (first, rest) = not_types s.name (map (λ (q : Service). q.name) services) h in
    rw (types_unnamed services rest, first) refl

fault_if-false : (b : Bool) (f : Fault) → fault_if b f ≡ [] → b ≡ false
fault_if-false true f h = absurd (cc h)
fault_if-false false f h = refl

names-types_unnamed :
    (spec : Spec) → name_faults spec ≡ [] → service_types spec.services (codes "types") ≡ none
unfolding name_faults normalized_service_names service_names
names-types_unnamed spec h = types_unnamed spec.services (
    fault_if-false _ service_named_types
      (append-eq-nil _ _ (append-eq-nil (check_normalized_names (service_names spec)) _ h).1).0)

-- The fields of the messages of a service in a specification without errors have types that are valid
-- for the service, and no service is called `types`.
pub validate-FieldsValid :
    (strict : Bool) (spec : Spec) (s : Service)
    → (validate strict spec).errors ≡ []
    → With s spec.services
    → All (FieldsValid spec (some (name_or_na s.name))) s.messages
      × (service_types spec.services (codes "types") ≡ none)
unfolding validate
validate-FieldsValid strict spec s h there =
    let from_names = (append-eq-nil (package_faults spec.package_name) _ h).1 in
    let names = append-eq-nil (name_faults spec) _ from_names in
    let given =
      (append-eq-nil (definition_faults strict spec none spec.messages spec.enums) _ names.1).1 in
    let ids = (append-eq-nil (fault_if (none_given spec.services) no_service) _ given).1 in
    let unique = (append-eq-nil (check_ids (map (λ (q : Service). q.id) spec.services)) _ ids).1 in
    let each = (append-eq-nil (check_names (service_names spec)) _ unique).1 in
    (
      service-FieldsValid strict spec s (
          All-With (λ q. validate_service strict spec q ≡ []) s spec.services
            (for_each-nil (validate_service strict spec) spec.services each) there),
      names-types_unnamed spec names.0,
    )
