-- ===== src/Server/Structs/Examples.antt =====
-- The buffers of a fan, and a request whose type is a number.
use windrpc.Base.{◌≡◌, refl, ◌⊎◌, not, ◌||◌, true, false, none, some, List, [], ◌∷◌}
use windrpc.Base.Text.{Str, codes, str_eq, str_mem, upper}
use windrpc.Base.Result.{Result, ok, raise, ok_value}
use windrpc.Spec.{Rpc, combined_id}
use windrpc.Spec.Required.{required, required_id}
use windrpc.Validator.Examples.{fan, fan_spec, fan_accepted, get_it}
use windrpc.Server.RpcTypes.{
  RpcTypes, is_void, get_rpc_types, command_part, or_empty, result_part, type_of, is_number_or_bool,
  is_empty, has_dot,
}
use windrpc.Server.Dispatch.{HandlerEntry, entry_of, has_response_type}
use windrpc.Server.Runtime.{Tables, decode_request}
use windrpc.Server.Runtime.RoundTrip.{raw_buffer}
use windrpc.Server.Runtime.Examples.{echo}
use windrpc.Server.Structs.{flat_tables, flat_buffers, struct_name}
use windrpc.Server.Structs.Named.{HasBuffer, flat_struct-HasBuffer}
use windrpc.Server.Structs.Scalars.{decode_request-is_number_or_bool}

abbrev no_tables : Tables
no_tables = record { dispatch_table = []; req_structs = []; res_structs = [] }

abbrev fan_tables : Tables
fan_tables = ok_value no_tables (flat_tables (codes "demo") fan_spec)

fan_generated : flat_tables (codes "demo") fan_spec ≡ ok fan_tables
unfolding flat_tables ok_value required required_id get_rpc_types command_part or_empty result_part
    type_of upper str_eq str_mem has_response_type is_void struct_name
fan_generated = refl

abbrev fan_buffers : List (Str × Str)
fan_buffers = ok_value [] (flat_buffers (codes "demo") fan_spec)

fan_declared : flat_buffers (codes "demo") fan_spec ≡ ok fan_buffers
unfolding flat_buffers ok_value required required_id get_rpc_types command_part or_empty result_part
    type_of upper str_eq str_mem is_void struct_name
fan_declared = refl

abbrev alarm : Rpc
alarm = record (get_it 2 (codes "alarm")) {
  rpc_type = some (codes "notification");
  event = some (codes "types.Empty");
}

abbrev no_types : RpcTypes
no_types = record {
  rpc_type = [];
  cmd_type = [];
  res_type = [];
  is_submsg = false;
  res_fields = [];
  res_tag = [];
  cmd_raw_pkg = none;
  cmd_raw_msg = none;
  res_raw_pkg = none;
  res_raw_msg = none;
}

abbrev alarm_types : RpcTypes
alarm_types = ok_value no_types (get_rpc_types alarm (codes "fan") (codes "demo"))

alarm_typed : get_rpc_types alarm (codes "fan") (codes "demo") ≡ ok alarm_types
unfolding ok_value get_rpc_types command_part or_empty result_part type_of upper str_eq str_mem
    required
alarm_typed = refl

flat_struct-HasBuffer_example :
    ((is_void alarm_types.cmd_type ≡ true)
      ⊎ HasBuffer
          (combined_id 7 2)
          alarm_types.cmd_type
          (codes "req_fan_alarm")
          fan_buffers
          fan_tables.req_structs)
    × (((not (has_response_type alarm_types) || is_void alarm_types.res_type) ≡ true)
        ⊎ HasBuffer
            (combined_id 7 2)
            alarm_types.res_type
            (codes "res_fan_alarm")
            fan_buffers
            fan_tables.res_structs)
flat_struct-HasBuffer_example =
    flat_struct-HasBuffer true (codes "demo") fan_spec fan_tables fan_buffers [] [] fan
      (get_it 1 (codes "start") ∷ []) [] alarm (codes "fan") (codes "alarm") 7 2 alarm_types
      fan_accepted fan_generated fan_declared refl refl refl (unfold str_eq in refl) refl refl refl
      alarm_typed

abbrev set_speed : Rpc
set_speed = record (get_it 3 (codes "set_speed")) { command = some (codes "uint32") }

abbrev row_or_blank : Result HandlerEntry → HandlerEntry
row_or_blank (ok e) = e
row_or_blank (raise x) = record {
  rpc_id = 0;
  execute = [];
  has_response = true;
  req_fields = [];
  res_fields = [];
}

abbrev speed_row : HandlerEntry
speed_row = row_or_blank (entry_of (codes "demo") (codes "fan") 7 set_speed)

speed_generated : entry_of (codes "demo") (codes "fan") 7 set_speed ≡ ok speed_row
unfolding entry_of required required_id get_rpc_types command_part or_empty result_part type_of
    upper str_eq str_mem has_response_type is_empty is_number_or_bool has_dot
speed_generated = refl

speed_scalar : is_number_or_bool (codes "uint32") ≡ true
unfolding is_number_or_bool str_mem str_eq
speed_scalar = refl

speed_requested : str_eq (type_of set_speed) (codes "NOTIFICATION") ≡ false
unfolding type_of upper str_eq
speed_requested = refl

decode_request-is_number_or_bool_example :
    decode_request echo (raw_buffer 256) speed_row (some (codes "req_fan_set_speed")) (8 ∷ 30 ∷ [])
    ≡ some (some (echo.zeroed (codes "req_fan_set_speed")))
decode_request-is_number_or_bool_example =
    decode_request-is_number_or_bool echo (raw_buffer 256) (codes "demo") (codes "fan")
      (codes "uint32") 7 set_speed speed_row (codes "req_fan_set_speed") (8 ∷ 30 ∷ [])
      speed_generated refl speed_scalar speed_requested
