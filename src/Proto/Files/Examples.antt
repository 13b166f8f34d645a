-- ===== src/Proto/Files/Examples.antt =====
-- The files of a fan whose state names common types and a type of another service.
use windrpc.Base.{ℕ, ◌≡◌, refl, inl, inr, true, false, some, none, List, [], ◌∷◌, arith, All}
use windrpc.Base.Text.{
  Str, codes, upper_char, str_mem, extend, is_digit, is_lower, is_upper, lower, lower_char, split,
  starts_with, str_eq, upper,
}
use windrpc.Base.Result.{Result, ok, raise}
use windrpc.Validator.Unique.{
  check_normalized_names, check_names, check_numbers, check_ids, int_eq, repeats, scalar_eq,
}
use windrpc.Converter.{to_pascal_case, has_underscore, capitalize, upper_first}
use windrpc.Validator.Types.{
  validate_fields, all_fields, common_types, enum_names, given_names, is_valid_type, message_names,
  oneof_fields, option_eq, service_types, validate_field,
}
use windrpc.Validator.Enums.{name_or_na}
use windrpc.Validator.Rpcs.{
  service_id_faults, first_true, kind_of, outside_byte, req_type, res_type, rpc_id_faults,
  upper_type, validate_rpc,
}
use windrpc.Validator.Fault.{for_each}
use windrpc.Validator.Names.{
  validate_name, identifier_start, identifier_char, is_identifier, has_style, alphanumeric,
  class_to_end, matches, snake_char,
}
use windrpc.Validator.Whole.{
  validate, normalized_service_names, definition_faults, validate_service, name_faults,
  package_faults, service_names,
}
use windrpc.Spec.{Field, Message, Rpc, Service, Spec, int, pos, combined_id}
use windrpc.Spec.Required.{required, required_id, id_or_zero}
use windrpc.Proto.Resolve.{resolve_type_name, declared_types, qualifier, last_part, scalar_types}
use windrpc.Proto.Resolve.Imports.{Imported}
use windrpc.Proto.Resolve.Known.{Known}
use windrpc.Proto.Enums.{generate_enums_from_spec}
use windrpc.Proto.Files.{ProtoFile, message_types, generate_types_proto, generate_service_proto}
use windrpc.Proto.Files.SelfImport.{types_import, generate_types_proto-types_import}
use windrpc.Proto.Files.Typed.{TypeIsPascal, generate_service_proto-Known}

abbrev field_of : Str → ℕ → Str → Field
field_of name number type_name = record {
  name = some name;
  number = some number;
  type_name = some type_name;
  property = none;
  nanopb = record { max_size = none; max_length = none; max_count = none };
}

abbrev empty : Message
empty = record { name = some (codes "Empty"); fields = []; oneofs = [] }

abbrev last : Field
last = field_of (codes "last") 2 (codes "Empty")

abbrev status : Message
status = record {
  name = some (codes "Status");
  fields = field_of (codes "code") 1 (codes "int32") ∷ last ∷ [];
  oneofs = [];
}

abbrev state : Message
state = record {
  name = some (codes "State");
  fields =
      field_of (codes "speed") 1 (codes "uint32")
      ∷ field_of (codes "status") 2 (codes "types.Status")
      ∷ field_of (codes "color") 3 (codes "led.Color")
      ∷ [];
  oneofs = [];
}

-- an RPC as the merging leaves it
abbrev start : Rpc
start = record {
  id = some (int (pos 1));
  name = some (codes "start");
  rpc_type = some (codes "REQUEST_ONLY");
  request = some (codes "types.Empty");
  command = some (codes "types.Empty");
  params = none;
  parameter = none;
  input = none;
  response = none;
  result = none;
  returns = none;
  return_ = none;
  output = none;
  event = none;
}

abbrev fan : Service
fan = record {
  id = some (int (pos 7));
  name = some (codes "fan");
  messages = state ∷ [];
  enums = [];
  rpcs = start ∷ [];
}

abbrev led : Service
led = record {
  id = some (int (pos 8));
  name = some (codes "led");
  messages = record { name = some (codes "Color"); fields = []; oneofs = [] } ∷ [];
  enums = [];
  rpcs = [];
}

abbrev spec : Spec
spec = record {
  package_name = none;
  messages = empty ∷ status ∷ [];
  enums = [];
  services = fan ∷ led ∷ [];
}

spec_accepted : (validate true spec).errors ≡ []
unfolding validate check_normalized_names to_pascal_case upper_char str_mem normalized_service_names
    for_each definition_faults check_names is_identifier has_style validate_fields check_numbers
    check_ids validate_service name_or_na service_id_faults extend is_digit is_lower is_upper lower
    lower_char split starts_with str_eq upper alphanumeric class_to_end matches snake_char
    first_true kind_of outside_byte req_type res_type rpc_id_faults upper_type validate_rpc
    all_fields common_types enum_names given_names is_valid_type message_names oneof_fields
    option_eq service_types validate_field int_eq repeats scalar_eq name_faults package_faults
    service_names has_underscore capitalize upper_first identifier_char identifier_start
    validate_name
spec_accepted = refl

abbrev types_or_blank : Result ProtoFile → ProtoFile
types_or_blank (ok f) = f
types_or_blank (raise e) = record { package_name = []; imports = []; enums = []; messages = [] }

abbrev types_file : ProtoFile
types_file = types_or_blank (generate_types_proto spec (codes "demo"))

types_generated : generate_types_proto spec (codes "demo") ≡ ok types_file
unfolding generate_types_proto required resolve_type_name split extend lower lower_char is_upper
    str_mem str_eq declared_types service_types common_types message_names enum_names given_names
    option_eq last_part qualifier to_pascal_case has_underscore capitalize upper_first upper_char
    generate_enums_from_spec
types_generated = refl

no_types_service : service_types spec.services (codes "types") ≡ none
unfolding service_types message_names enum_names given_names option_eq str_eq
no_types_service = refl

empty_no_scalar : str_mem (lower (codes "Empty")) scalar_types ≡ false
unfolding str_mem lower lower_char is_upper str_eq
empty_no_scalar = refl

empty_common : str_mem (codes "Empty") (common_types spec) ≡ true
unfolding str_mem common_types message_names enum_names given_names str_eq
empty_common = refl

generate_types_proto-types_import_example :
    str_mem (types_import (codes "demo")) types_file.imports ≡ true
generate_types_proto-types_import_example =
    generate_types_proto-types_import spec (codes "demo") types_file status last (codes "Empty")
      types_generated (omega arith) (omega arith) no_types_service (empty ∷ [], [], refl)
      (field_of (codes "code") 1 (codes "int32") ∷ [], [], refl) refl empty_no_scalar empty_common

abbrev service_or_blank : Result (ProtoFile × List (Str × ℕ)) → ProtoFile × List (Str × ℕ)
service_or_blank (ok r) = r
service_or_blank (raise e) =
    (record { package_name = []; imports = []; enums = []; messages = [] }, [])

abbrev fan_file : ProtoFile × List (Str × ℕ)
fan_file = service_or_blank (generate_service_proto fan spec (codes "demo"))

fan_generated : generate_service_proto fan spec (codes "demo") ≡ ok fan_file
unfolding generate_service_proto required required_id id_or_zero combined_id kind_of upper_type
    upper generate_enums_from_spec resolve_type_name split extend lower lower_char is_upper str_mem
    str_eq declared_types service_types common_types message_names enum_names given_names option_eq
    last_part qualifier to_pascal_case has_underscore capitalize upper_first upper_char oneof_fields
fan_generated = refl

fan_pascal : All (λ m. All TypeIsPascal (all_fields m)) fan.messages
unfolding to_pascal_case has_underscore capitalize upper_first upper_char last_part split extend
    all_fields oneof_fields str_mem lower lower_char is_upper str_eq
fan_pascal = ((inl refl, (inr refl, (inr refl, tt))), tt)

generate_service_proto-Known_example :
    All
      (λ t. Known spec (codes "demo") fan.name t × Imported fan_file.0.imports t)
      (message_types fan_file.0.messages)
generate_service_proto-Known_example =
    generate_service_proto-Known true spec (codes "demo") fan fan_file.0 fan_file.1 spec_accepted
      ([], led ∷ [], refl) fan_generated fan_pascal
