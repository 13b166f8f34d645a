-- ===== src/Validator/Examples.antt =====
-- Names and a specification that pass the check.
use windrpc.Base.{List, ℕ, ◌≡◌, refl, true, none, some, [], ◌∷◌, ◌++◌, arith, All}
use windrpc.Base.Text.{
  Str, codes, upper_char, str_mem, extend, is_digit, is_lower, is_upper, lower, lower_char, split,
  starts_with, str_eq, upper,
}
use windrpc.Validator.Unique.{
  check_normalized_names, check_names, check_numbers, check_ids, int_eq, repeats, scalar_eq,
}
use windrpc.Converter.{to_pascal_case, has_underscore, capitalize, upper_first}
use windrpc.Validator.Types.{
  validate_fields, all_fields, common_types, enum_names, given_names, is_valid_type, message_names,
  oneof_fields, option_eq, service_types, validate_field,
}
use windrpc.Validator.Enums.{name_or_na}
use windrpc.Validator.Rpcs.{
  service_id_faults, first_true, kind_of, outside_byte, req_type, res_type, rpc_id_faults,
  upper_type, validate_rpc,
}
use windrpc.Spec.{Message, Rpc, Service, Spec, int, pos, combined_id}
use windrpc.Validator.Fault.{rpc, for_each}
use windrpc.Validator.Names.{
  validate_name, identifier_start, identifier_char, is_identifier, has_style, alphanumeric,
  class_to_end, matches, snake_char,
}
use windrpc.Validator.Names.Newline.{validate_name-newline}
use windrpc.Validator.Unique.Distinct.{Distinct, numbers}
use windrpc.Validator.Whole.{
  validate, normalized_service_names, definition_faults, validate_service, name_faults,
  package_faults, service_names,
}
use windrpc.Validator.Whole.RequestIds.{IsRequestId, combined_ids, service_rpc_ids, rpc_ids}
use windrpc.Validator.Whole.Sound.{combined_ids-Distinct}

abbrev ping : Str
ping = codes "go"

ping_accepted : validate_name (some ping) rpc ≡ []
unfolding validate_name is_identifier has_style
ping_accepted = refl

validate_name-newline_example : validate_name (some (ping ++ 10 ∷ [])) rpc ≡ []
validate_name-newline_example =
    validate_name-newline ping rpc (omega arith, (omega arith, tt)) ping_accepted

abbrev empty_message : Message
empty_message = record { name = some (codes "Empty"); fields = []; oneofs = [] }

abbrev pub get_it : ℕ → Str → Rpc
get_it n name = record {
  id = some (int (pos n));
  name = some name;
  rpc_type = some (codes "REQUEST_ONLY");
  request = some (codes "types.Empty");
  command = none;
  params = none;
  parameter = none;
  input = none;
  response = none;
  result = none;
  returns = none;
  return_ = none;
  output = none;
  event = none;
}

abbrev pub two_services : Spec
two_services = record {
  package_name = none;
  messages = empty_message ∷ [];
  enums = [];
  services =
      record {
        id = some (int (pos 7));
        name = some (codes "fan");
        messages = [];
        enums = [];
        rpcs = get_it 1 (codes "start") ∷ get_it 2 (codes "stop") ∷ [];
      }
      ∷ record {
        id = some (int (pos 8));
        name = some (codes "led");
        messages = [];
        enums = [];
        rpcs = get_it 1 (codes "blink") ∷ [];
      }
      ∷ [];
}

pub two_services_accepted : (validate true two_services).errors ≡ []
unfolding validate check_normalized_names to_pascal_case upper_char str_mem normalized_service_names
    for_each definition_faults check_names is_identifier has_style validate_fields check_numbers
    check_ids validate_service name_or_na service_id_faults extend is_digit is_lower is_upper lower
    lower_char split starts_with str_eq upper alphanumeric class_to_end matches snake_char
    first_true kind_of outside_byte req_type res_type rpc_id_faults upper_type validate_rpc
    all_fields common_types enum_names given_names is_valid_type message_names oneof_fields
    option_eq service_types validate_field int_eq repeats scalar_eq name_faults package_faults
    service_names has_underscore capitalize upper_first identifier_char identifier_start
    validate_name
two_services_accepted = refl

-- a fan with a request and a notification
abbrev pub fan_rpcs : List Rpc
fan_rpcs =
    get_it 1 (codes "start")
    ∷ record (get_it 2 (codes "alarm")) {
      rpc_type = some (codes "notification");
      event = some (codes "types.Empty");
    }
    ∷ []

abbrev pub fan : Service
fan = record {
  id = some (int (pos 7));
  name = some (codes "fan");
  messages = [];
  enums = [];
  rpcs = fan_rpcs;
}

abbrev pub fan_spec : Spec
fan_spec = record {
  package_name = none;
  messages = empty_message ∷ [];
  enums = [];
  services = fan ∷ [];
}

pub fan_accepted : (validate true fan_spec).errors ≡ []
unfolding validate check_normalized_names to_pascal_case upper_char str_mem normalized_service_names
    for_each definition_faults check_names is_identifier has_style validate_fields check_numbers
    check_ids validate_service name_or_na service_id_faults extend is_digit is_lower is_upper lower
    lower_char split starts_with str_eq upper alphanumeric class_to_end matches snake_char
    first_true kind_of outside_byte req_type res_type rpc_id_faults upper_type validate_rpc
    all_fields common_types enum_names given_names is_valid_type message_names oneof_fields
    option_eq service_types validate_field int_eq repeats scalar_eq name_faults package_faults
    service_names has_underscore capitalize upper_first identifier_char identifier_start
    validate_name
fan_accepted = refl

two_services_ids : combined_ids two_services.services ≡ 1793 ∷ 1794 ∷ 2049 ∷ []
unfolding combined_ids service_rpc_ids numbers rpc_ids combined_id
two_services_ids = refl

combined_ids-Distinct_example :
    Distinct (combined_ids two_services.services)
    × All IsRequestId (combined_ids two_services.services)
combined_ids-Distinct_example = combined_ids-Distinct true two_services two_services_accepted
