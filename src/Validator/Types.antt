-- ===== src/Validator/Types.antt =====
-- `is_valid_type` and `validate_fields`.
use windrpc.Base.{
  Bool, true, false, not, ◌&&◌, ◌||◌, Option, none, some, List, [], ◌∷◌, ◌++◌, map, if◌then◌else◌,
}
use windrpc.Base.Text.{Str, codes, str_eq, str_mem, lower, split}
use windrpc.Spec.{Field, Oneof, Message, EnumDef, Service, Spec}
use windrpc.Converter.{to_pascal_case}
use windrpc.Validator.Fault.{Faults, fault_if, for_each, invalid_type, field}
use windrpc.Validator.Names.{validate_name}
use windrpc.Validator.Unique.{check_names, check_numbers}

-- `PROTO_SCALAR_TYPES`
abbrev pub proto_scalar_types : List Str
proto_scalar_types =
    codes "double"
    ∷ codes "float"
    ∷ codes "int32"
    ∷ codes "int64"
    ∷ codes "uint32"
    ∷ codes "uint64"
    ∷ codes "sint32"
    ∷ codes "sint64"
    ∷ codes "fixed32"
    ∷ codes "fixed64"
    ∷ codes "sfixed32"
    ∷ codes "sfixed64"
    ∷ codes "bool"
    ∷ codes "string"
    ∷ codes "bytes"
    ∷ []

-- the texts among the values of a key; no text is equal to a missing value
unfoldable pub given_names : List (Option Str) → List Str
given_names [] = []
given_names (none ∷ names) = given_names names
given_names (some n ∷ names) = n ∷ given_names names

unfoldable pub message_names : List Message → List Str
unfolding given_names
message_names ms = given_names (map (λ (m : Message). m.name) ms)

unfoldable pub enum_names : List EnumDef → List Str
unfolding given_names
enum_names es = given_names (map (λ (e : EnumDef). e.name) es)

-- `common_messages` and `common_enums` in one
unfoldable pub common_types : Spec → List Str
unfolding message_names enum_names
common_types spec = message_names spec.messages ++ enum_names spec.enums

unfoldable pub is_named : Str → Option Str → Bool
is_named name none = false
is_named name (some n) = str_eq n name

unfoldable pub own_types : Service → List Str
own_types s = message_names s.messages ++ enum_names s.enums

unfoldable pub or_here : Option (List Str) → Service → Str → Option (List Str)
unfolding own_types is_named
or_here (some types) s name = some types
or_here none s name = if is_named name s.name then some (own_types s) else none

-- `service_types[name]`: of services of one name the last stands in the dict
unfoldable pub service_types : List Service → Str → Option (List Str)
unfolding or_here
service_types [] name = none
service_types (s ∷ services) name = or_here (service_types services name) s name

unfoldable pub option_eq : Option Str → Str → Bool
option_eq none s = false
option_eq (some p) s = str_eq p s

unfoldable pub mem_option : Str → Option (List Str) → Bool
mem_option name none = false
mem_option name (some names) = str_mem name names

-- D-1: a type of the current service
unfoldable pub in_current : Spec → Option Str → Str → Bool
unfolding mem_option
in_current spec none name = false
in_current spec (some []) name = false
in_current spec (some (c ∷ current)) name =
    mem_option name (service_types spec.services (c ∷ current))

-- the tests on the parts of `type_name.split('.')`
unfoldable pub valid_parts : Spec → Option Str → List Str → Bool
unfolding in_current
valid_parts spec current (name ∷ []) =
    in_current spec current (to_pascal_case name)
    || str_mem (to_pascal_case name) (common_types spec)
valid_parts spec current (owner ∷ name ∷ []) =
    if str_eq owner (codes "types")
    then str_mem (to_pascal_case name) (common_types spec)
    else mem_option (to_pascal_case name) (service_types spec.services owner)
valid_parts spec current (pkg ∷ types ∷ name ∷ []) =
    if option_eq spec.package_name pkg && str_eq types (codes "types")
    then str_mem (to_pascal_case name) (common_types spec)
    else false
valid_parts spec current parts = false

-- `is_valid_type(type_name, current_service_name)`
unfoldable pub is_valid_type : Spec → Option Str → Option Str → Bool
unfolding valid_parts
is_valid_type spec current none = false
is_valid_type spec current (some []) = false
is_valid_type spec current (some (c ∷ name)) =
    if str_mem (lower (c ∷ name)) proto_scalar_types
    then true
    else valid_parts spec current (split b'.' (c ∷ name))

-- `all_fields`
unfoldable pub oneof_fields : List Oneof → List Field
oneof_fields [] = []
oneof_fields (o ∷ os) = o.fields ++ oneof_fields os

unfoldable pub all_fields : Message → List Field
unfolding oneof_fields
all_fields m = m.fields ++ oneof_fields m.oneofs

unfoldable pub validate_field : Spec → Option Str → Field → Faults
validate_field spec current f =
    validate_name f.name field
    ++ fault_if (not (is_valid_type spec current f.type_name)) (invalid_type f.type_name)

unfoldable pub validate_fields : Spec → Option Str → Message → Faults
unfolding for_each all_fields
validate_fields spec current m =
    check_numbers (map (λ (f : Field). f.number) (all_fields m))
    ++ (check_names (map (λ (f : Field). f.name) (all_fields m))
        ++ for_each (validate_field spec current) (all_fields m))
