-- ===== src/Server/Indexed/Examples.antt =====
-- The indexed dispatch of a fan with a request and a notification.
use windrpc.Base.{none, if◌then◌else◌, ◌≡◌, refl, some, List, [], ◌++◌, map}
use windrpc.Base.Text.{Str, codes, str_eq, str_mem, upper}
use windrpc.Base.Result.{ok, ok_value}
use windrpc.Spec.Required.{required}
use windrpc.Validator.Examples.{fan_spec}
use windrpc.Proto.Resolve.Imports.{Once}
use windrpc.Server.Enums.{command_name, is_notification}
use windrpc.Server.RpcTypes.{get_rpc_types, command_part, or_empty, result_part, type_of}
use windrpc.Server.Indexed.{
  IndexedEntry, idx_name, rpc_dispatch_table, service_cases, get_rpc_index, request_pointers,
  dispatch_entry, get_req_ptr, response_pointers, get_res_ptr,
}
use windrpc.Server.Indexed.Found.{get_rpc_index-dispatch_entry}

abbrev demo : Str
demo = codes "demo"

abbrev table : List IndexedEntry
table = ok_value [] (rpc_dispatch_table demo fan_spec.services)

table_generated : rpc_dispatch_table demo fan_spec.services ≡ ok table
unfolding rpc_dispatch_table ok_value required str_eq get_rpc_types command_part str_mem or_empty
    result_part type_of upper
table_generated = refl

abbrev cases : List (Str × List (Str × Str))
cases = ok_value [] (service_cases fan_spec.services)

cases_generated : service_cases fan_spec.services ≡ ok cases
unfolding service_cases ok_value required
cases_generated = refl

abbrev pointers : List (Str × Str × Str)
pointers = ok_value [] (request_pointers fan_spec.services)

pointers_generated : request_pointers fan_spec.services ≡ ok pointers
unfolding request_pointers ok_value required
pointers_generated = refl

abbrev results : List (Str × Str × Str)
results = ok_value [] (response_pointers fan_spec.services)

results_generated : response_pointers fan_spec.services ≡ ok results
unfolding response_pointers ok_value required type_of upper str_eq
results_generated = refl

different : Once (map (λ (e : IndexedEntry). e.index) table)
unfolding Once rpc_dispatch_table ok_value required str_eq get_rpc_types command_part str_mem
    or_empty result_part type_of upper command_name is_notification
different = (refl, (refl, tt))

alarm_found :
    get_rpc_index (codes "fan") (codes "subscribe_alarm") cases
    ≡ some (idx_name (codes "fan") (codes "subscribe_alarm"))
unfolding get_rpc_index service_cases ok_value required str_eq command_name is_notification type_of
    upper
alarm_found = refl

get_rpc_index-dispatch_entry_example :
    ((e : IndexedEntry) × (dispatch_entry (idx_name (codes "fan") (codes "subscribe_alarm")) table
        ≡ some e)
      × (e.execute ≡ codes "windrpc_on_" ++ codes "subscribe_alarm")
      × (get_res_ptr (idx_name (codes "fan") (codes "subscribe_alarm")) results ≡ (
          if e.has_response
          then some (
            idx_name (codes "fan") (codes "subscribe_alarm"),
            codes "fan",
            codes "subscribe_alarm",
          )
          else none)))
    × (get_req_ptr (idx_name (codes "fan") (codes "subscribe_alarm")) pointers
        ≡ some (
          idx_name (codes "fan") (codes "subscribe_alarm"),
          codes "fan",
          codes "subscribe_alarm",
        ))
get_rpc_index-dispatch_entry_example =
    get_rpc_index-dispatch_entry demo fan_spec.services table cases pointers results (codes "fan")
      (codes "subscribe_alarm") (idx_name (codes "fan") (codes "subscribe_alarm")) table_generated
      cases_generated pointers_generated results_generated different alarm_found
