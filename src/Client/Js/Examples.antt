-- ===== src/Client/Js/Examples.antt =====
-- The JavaScript client of small specifications.
use windrpc.Base.{◌≡◌, ◌⊎◌, refl, true, false, none, some, List, [], ◌∷◌, map, arith, All, Apart}
use windrpc.Base.Text.{ne-str_eq, codes, str_eq, upper, lower, split, extend, str_mem, lower_char}
use windrpc.Base.Result.{ok, raise, key_error, ok_value}
use windrpc.Spec.{EnumDef, Member, Spec, combined_id, combine_ids, event_id, pos}
use windrpc.Spec.Required.{required, required_id}
use windrpc.Proto.Resolve.{last_part}
use windrpc.Proto.RpcIds.{generate_windrpc_proto}
use mathlib.Core.List.{flatten}
use windrpc.Converter.{capitalize}
use windrpc.Validator.Examples.{fan, fan_spec, fan_accepted, get_it}
use windrpc.Validator.Rpcs.{upper_type}
use windrpc.Validator.Unique.Distinct.{numbers}
use windrpc.Server.RpcTypes.{get_rpc_types, command_part, or_empty, result_part, type_of}
use windrpc.Server.Dispatch.{HandlerEntry, dispatch_table, find_flat_handler}
use windrpc.Server.Dispatch.Members.{LowNumbers}
use windrpc.Client.Tables.{Entry, js_rpc_ids, js_constant, csharp_rpc_ids}
use windrpc.Client.Tables.Agree.{prefixed, js_rpc_ids-csharp_rpc_ids}
use windrpc.Client.Js.{Methods, rpc_methods, to_pascal}
use windrpc.Client.Js.Frames.{constants, rpc_methods-find_flat_handler}
use windrpc.Client.Js.Schema.{build_protobufjs_root_json}
use windrpc.Client.Js.Values.{build_protobufjs_root_json-key_error}

abbrev fan_entries : List Entry
fan_entries = ok_value [] (generate_windrpc_proto fan_spec)

fan_proto : generate_windrpc_proto fan_spec ≡ ok fan_entries
unfolding generate_windrpc_proto ok_value required required_id combine_ids str_eq upper_type upper
fan_proto = refl

js_rpc_ids-csharp_rpc_ids_example :
    (t : List Entry) × (js_rpc_ids fan_spec ≡ ok t)
    × (csharp_rpc_ids fan_spec ≡ ok (map (prefixed (codes "RPC_")) t))
    × (fan_entries ≡ (codes "RPC_ID_UNKNOWN", 0) ∷ map (prefixed (codes "RPC_ID_")) t)
js_rpc_ids-csharp_rpc_ids_example = js_rpc_ids-csharp_rpc_ids fan_spec fan_entries fan_proto

abbrev fan_table : List HandlerEntry
fan_table = ok_value [] (dispatch_table (codes "demo") fan_spec)

fan_dispatch : dispatch_table (codes "demo") fan_spec ≡ ok fan_table
unfolding dispatch_table ok_value required str_eq required_id get_rpc_types command_part str_mem
    or_empty result_part type_of upper
fan_dispatch = refl

abbrev fan_js : List Entry
fan_js = ok_value [] (js_rpc_ids fan_spec)

fan_js_generated : js_rpc_ids fan_spec ≡ ok fan_js
unfolding js_rpc_ids ok_value required required_id str_eq upper_type upper
fan_js_generated = refl

abbrev alarm_methods : Methods
alarm_methods = record {
  build_name = codes "buildAlarmFrame";
  send_name = none;
  encoder = none;
  constant = codes "FAN_ALARM";
}

alarm_generated :
    rpc_methods (codes "fan") (record (get_it 2 (codes "alarm")) {
      rpc_type = some (codes "notification");
      event = some (codes "types.Empty");
    })
    ≡ ok alarm_methods
unfolding rpc_methods required to_pascal last_part str_eq upper lower str_mem capitalize split
    extend flatten lower_char
alarm_generated = refl

fan-Apart : Apart (constants fan_js)
unfolding js_rpc_ids ok_value required required_id str_eq upper_type upper
fan-Apart = ((ne-str_eq _ _ refl, (ne-str_eq _ _ refl, tt)), ((ne-str_eq _ _ refl, tt), (tt, tt)))

fan_low : All LowNumbers fan_spec.services
unfolding numbers
fan_low = ((omega arith, (omega arith, tt)), tt)

rpc_methods-find_flat_handler_example :
    ((str_eq (upper_type (some (codes "notification"))) (codes "NOTIFICATION") ≡ true)
      × (js_constant (codes "FAN_ALARM") fan_js ≡ some (event_id 7 2))
      × (find_flat_handler (event_id 7 2) fan_table ≡ none))
    ⊎ ((str_eq (upper_type (some (codes "notification"))) (codes "NOTIFICATION") ≡ false)
        × (js_constant (codes "FAN_ALARM") fan_js ≡ some (combined_id 7 2))
        × ((d : HandlerEntry) × (find_flat_handler (combined_id 7 2) fan_table ≡ some d)
            × (d.rpc_id ≡ combined_id 7 2)))
rpc_methods-find_flat_handler_example =
    rpc_methods-find_flat_handler true (codes "demo") fan_spec fan_table fan_js [] [] fan
      (get_it 1 (codes "start") ∷ []) []
      (record (get_it 2 (codes "alarm")) {
        rpc_type = some (codes "notification");
        event = some (codes "types.Empty");
      })
      (codes "fan") (codes "alarm") 7 2 alarm_methods fan_accepted fan_dispatch fan_js_generated
      fan-Apart fan_low (omega arith) refl refl refl (unfold str_eq in refl) refl refl refl
      alarm_generated

abbrev off : Member
off = record { name = some (codes "OFF"); value = some (pos 0) }

abbrev on : Member
on = record { name = some (codes "ON"); value = none }

abbrev mode : EnumDef
mode = record { name = some (codes "Mode"); prefix = none; members = off ∷ on ∷ [] }

abbrev mode_spec : Spec
mode_spec = record fan_spec { enums = mode ∷ [] }

build_protobufjs_root_json-key_error_example :
    build_protobufjs_root_json mode_spec ≡ raise key_error
build_protobufjs_root_json-key_error_example =
    build_protobufjs_root_json-key_error mode_spec [] [] mode b'M' (codes "ode") (off ∷ []) [] on
      refl refl refl refl
