-- ===== src/Proto/Generate/Examples.antt =====
-- A run for a fan, on top of common types.
use windrpc.Base.{Apart, ◌≡◌, refl, true, some, none, []}
use windrpc.Base.Text.{
  codes, upper_char, str_mem, extend, is_digit, is_lower, is_upper, lower, lower_char, split,
  starts_with, str_eq, upper,
}
use windrpc.Validator.Unique.{
  check_normalized_names, check_names, check_numbers, check_ids, int_eq, repeats, scalar_eq,
}
use windrpc.Converter.{to_pascal_case, has_underscore, capitalize, upper_first}
use windrpc.Validator.Types.{
  validate_fields, all_fields, common_types, enum_names, given_names, is_valid_type, message_names,
  oneof_fields, option_eq, service_types, validate_field,
}
use windrpc.Validator.Enums.{name_or_na}
use windrpc.Validator.Rpcs.{
  service_id_faults, first_true, kind_of, outside_byte, req_type, res_type, rpc_id_faults,
  upper_type, validate_rpc,
}
use windrpc.Validator.Fault.{for_each}
use windrpc.Validator.Names.{
  validate_name, identifier_start, identifier_char, is_identifier, has_style, alphanumeric,
  class_to_end, matches, snake_char,
}
use windrpc.Validator.Whole.{
  validate, normalized_service_names, definition_faults, validate_service, name_faults,
  package_faults, service_names,
}
use windrpc.Spec.{Spec, merge_specs, normalize_rpc, res_val, req_val}
use windrpc.Validator.Examples.{two_services}
use windrpc.Proto.Options.{Config, generate_options_files}
use windrpc.Proto.Generate.{loaded, generate, output_path_of, shown_package, resolved_spec}
use windrpc.Proto.Generate.Opened.{opened}
use windrpc.Proto.Generate.Files.{Writes, proto_files}
use windrpc.Base.Result.{ok, ◌>>=◌}
use windrpc.Proto.Generate.Paths.{generate-Writes}

abbrev core : Spec
core = record { package_name = none; messages = two_services.messages; enums = []; services = [] }

abbrev user : Spec
user = record {
  package_name = some (codes "demo");
  messages = [];
  enums = [];
  services = two_services.services;
}

abbrev no_config : Config
no_config = record {
  default_string_max_size = none;
  default_bytes_max_size = none;
  default_array_max_count = none;
}

abbrev merged : Spec
merged = merge_specs core user

merged_accepted : (validate true merged).errors ≡ []
unfolding validate check_normalized_names to_pascal_case upper_char str_mem normalized_service_names
    for_each definition_faults check_names is_identifier has_style validate_fields check_numbers
    check_ids validate_service name_or_na service_id_faults extend is_digit is_lower is_upper lower
    lower_char split starts_with str_eq upper alphanumeric class_to_end matches snake_char
    first_true kind_of outside_byte req_type res_type rpc_id_faults upper_type validate_rpc
    all_fields common_types enum_names given_names is_valid_type message_names oneof_fields
    option_eq service_types validate_field int_eq repeats scalar_eq name_faults package_faults
    service_names has_underscore capitalize upper_first identifier_char identifier_start
    validate_name merge_specs normalize_rpc res_val req_val
merged_accepted = refl

generate-Writes_example :
    Writes (generate true no_config (codes "protos") (loaded core user)) (
      proto_files
        (output_path_of (codes "protos") merged)
        merged
        (shown_package merged.package_name)
      >>= λ files.
          generate_options_files no_config
            (shown_package merged.package_name)
            (resolved_spec merged (shown_package merged.package_name))
          >>= λ lines. ok files)
    × Apart (opened (generate true no_config (codes "protos") (loaded core user)).events)
generate-Writes_example = generate-Writes true no_config (codes "protos") core user merged_accepted
