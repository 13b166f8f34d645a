-- ===== src/Server/Examples.antt =====
-- The sizes of a small specification.
use windrpc.Base.{List, true, ◌≤◌, ◌≡◌, refl, none, some, [], ◌∷◌, arith, All, length}
use windrpc.Base.Text.{upper, Str, codes, str_eq, str_mem}
use windrpc.Base.Result.{ok, ok_value}
use windrpc.Spec.{Field, Message, Spec}
use windrpc.Client.Cobs.{cobs_encode}
use windrpc.Client.Frame.{pack_frame}
use windrpc.Validator.Unique.Distinct.{Distinct}
use windrpc.Validator.Examples.{two_services, two_services_accepted}
use windrpc.Spec.Required.{required, required_id}
use windrpc.Server.RpcTypes.{get_rpc_types, command_part, or_empty, result_part, type_of}
use windrpc.Server.Dispatch.{HandlerEntry, dispatch_table, find_flat_handler}
use windrpc.Server.Dispatch.Rows.{ids}
use windrpc.Server.Dispatch.Lookup.{find_flat_handler_lem}
use windrpc.Server.Sizing.{
  base_len, field_count, calculate_max_payload_size, calculate_stack_and_buffer_sizes,
}
use windrpc.Server.Sizing.Bounds.{frame-fits_buffer}

abbrev name_field : Field
name_field = record {
  name = some (codes "name");
  number = some 1;
  type_name = some (codes "string");
  property = none;
  nanopb = record { max_size = some 100; max_length = none; max_count = none };
}

abbrev device : Message
device = record { name = some (codes "Device"); fields = name_field ∷ []; oneofs = [] }

abbrev small_spec : Spec
small_spec = record { package_name = none; messages = device ∷ []; enums = []; services = [] }

small_payload : calculate_max_payload_size small_spec ≡ 102
unfolding calculate_max_payload_size base_len field_count str_mem str_eq
small_payload = refl

ping_packed : pack_frame 1537 1 (5 ∷ []) ≡ ok (1 ∷ 6 ∷ 1 ∷ 0 ∷ 1 ∷ 0 ∷ 5 ∷ [])
unfolding pack_frame
ping_packed = refl

frame-fits_buffer_example :
    length (cobs_encode (1 ∷ 6 ∷ 1 ∷ 0 ∷ 1 ∷ 0 ∷ 5 ∷ []))
    ≤ (calculate_stack_and_buffer_sizes small_spec).max_buffer_size
frame-fits_buffer_example =
    frame-fits_buffer small_spec 1537 1 (5 ∷ []) (1 ∷ 6 ∷ 1 ∷ 0 ∷ 1 ∷ 0 ∷ 5 ∷ []) ping_packed
      (omega (arith, small_payload)) (omega (arith, small_payload))

abbrev demo : Str
demo = codes "demo"

abbrev demo_table : List HandlerEntry
demo_table = ok_value [] (dispatch_table demo two_services)

demo_generated : dispatch_table demo two_services ≡ ok demo_table
unfolding dispatch_table ok_value required str_eq required_id get_rpc_types command_part str_mem
    or_empty result_part type_of upper
demo_generated = refl

find_flat_handler_lem_example :
    Distinct (ids demo_table) × All (λ d. find_flat_handler d.rpc_id demo_table ≡ some d) demo_table
find_flat_handler_lem_example =
    find_flat_handler_lem true demo two_services demo_table two_services_accepted demo_generated
