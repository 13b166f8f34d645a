-- ===== src/Server/Notify.antt =====
-- `_generate_notify_skeleton` and `_generate_notify_declarations`: the functions that send the events
-- of notifications, as data, and what such a function does in C.

pub mod Declared
pub mod Delivered
mod Examples
use windrpc.Base.{
  ℕ, zero, ◌+◌, ◌-◌, ◌%◌, ◌==◌, Bool, true, false, Option, none, some, List, [], ◌∷◌, ◌++◌, map,
  ltb, length, if◌then◌else◌,
}
use windrpc.Base.Text.{Str, codes, str_eq, split}
use windrpc.Base.Result.{Result, ok, ◌>>=◌}
use windrpc.Spec.{ℤ, pos, negsuc, Scalar, Rpc, Service, Spec, event_id}
use windrpc.Spec.Required.{required, required_id, id_or_zero}
use windrpc.Client.Cobs.{Bytes}
use windrpc.Server.RpcTypes.{has_dot, pair_of, types_fields, message_c_type}
use windrpc.Server.Enums.{is_notification}
use windrpc.Server.Dispatch.{service_type_fields}
use windrpc.Server.Runtime.{Platform, header}

-- `package_name.replace('/', '_').replace('-', '_')`
notify_prefix : Str → Str
notify_prefix = map (λ c. if c == b'/' then b'_' else if c == b'-' then b'_' else c)

or_result : Option Str → Option Str → Str
or_result (some t) result = t
or_result none (some t) = t
or_result none none = codes "types.Empty"

-- `rpc.get('event', rpc.get('result', 'types.Empty'))`
unfoldable pub event_type : Rpc → Str
unfolding or_result
event_type r = or_result r.event r.result

-- the package and the name of the event's type
unfoldable pub event_parts : Str → Rpc → Result (Str × Str)
unfolding event_type has_dot pair_of
event_parts svc_name r =
    if has_dot (event_type r)
    then pair_of (split b'.' (event_type r))
    else ok (svc_name, event_type r)

-- `windrpc_notify_{rpc_name}`: its name, the type of `data`, its fields and the event's identifier
pub record NotifyHelper : Type 0 where
  pub rpc_name : Str
  pub c_type : Str
  pub fields_macro : Str
  pub event_combined_id : ℕ

helper : Str → Str → ℕ → Str × Str → NotifyHelper
helper prefix rpc_name id parts = record {
  rpc_name = rpc_name;
  c_type = message_c_type parts.0 parts.1;
  fields_macro =
      if str_eq parts.0 (codes "types")
      then types_fields prefix parts.1
      else service_type_fields prefix parts.0 parts.1;
  event_combined_id = id;
}

-- the helper of an RPC, if it is a notification
unfoldable pub notify_helper : Str → Str → Option Scalar → Rpc → Result (List NotifyHelper)
unfolding helper event_parts
notify_helper prefix svc_name id r = required r.name >>= λ rpc_name. elim (is_notification r) [
  | false ↦ ok []
  | true ↦ required_id r.id >>= λ rpc_id. id_or_zero id >>= λ svc_id.
      event_parts svc_name r >>= λ parts.
      ok (helper prefix rpc_name (event_id svc_id rpc_id) parts ∷ [])
]

unfoldable pub rpc_helpers : Str → Str → Option Scalar → List Rpc → Result (List NotifyHelper)
unfolding notify_helper
rpc_helpers prefix svc_name id [] = ok []
rpc_helpers prefix svc_name id (r ∷ rpcs) = notify_helper prefix svc_name id r >>= λ first.
    rpc_helpers prefix svc_name id rpcs >>= λ more. ok (first ++ more)

unfoldable pub service_helpers : Str → List Service → Result (List NotifyHelper)
unfolding rpc_helpers
service_helpers prefix [] = ok []
service_helpers prefix (s ∷ services) = required s.name >>= λ svc_name.
    rpc_helpers prefix svc_name s.id s.rpcs >>= λ first.
    service_helpers prefix services >>= λ more. ok (first ++ more)

unfoldable pub generate_notify_skeleton : Str → Spec → Result (List NotifyHelper)
unfolding service_helpers notify_prefix
generate_notify_skeleton package_name spec =
    service_helpers (notify_prefix package_name) spec.services

-- the declaration of an RPC's helper: its name and the type of `data`
unfoldable pub rpc_declaration : Str → Rpc → Result (List (Str × Str))
unfolding event_parts
rpc_declaration svc_name r = required r.name >>= λ rpc_name. elim (is_notification r) [
  | false ↦ ok []
  | true ↦ event_parts svc_name r >>= λ parts. ok ((rpc_name, message_c_type parts.0 parts.1) ∷ [])
]

unfoldable pub rpc_declarations : Str → List Rpc → Result (List (Str × Str))
unfolding rpc_declaration
rpc_declarations svc_name [] = ok []
rpc_declarations svc_name (r ∷ rpcs) = rpc_declaration svc_name r >>= λ first.
    rpc_declarations svc_name rpcs >>= λ more. ok (first ++ more)

unfoldable pub service_declarations : List Service → Result (List (Str × Str))
unfolding rpc_declarations
service_declarations [] = ok []
service_declarations (s ∷ services) = required s.name >>= λ svc_name.
    rpc_declarations svc_name s.rpcs >>= λ first.
    service_declarations services >>= λ more. ok (first ++ more)

unfoldable pub generate_notify_declarations : Spec → Result (List (Str × Str))
unfolding service_declarations
generate_notify_declarations spec = service_declarations spec.services

-- what a helper returns, the value that it gives to `bytes_written`, if it does, and the frame that
-- it leaves in `tx_data`
pub record Notified : Type 0 where
  pub returned : ℤ
  pub bytes_written : Option ℕ
  pub tx_data : Bytes

refused : Notified
refused = record { returned = negsuc 0; bytes_written = none; tx_data = [] }

-- behind `pb_encode`
sent_event : ℕ → Option Bytes → Notified
unfolding header
sent_event event_id none = record { returned = negsuc 0; bytes_written = some 0; tx_data = [] }
sent_event event_id (some payload) = record {
  returned = pos 0;
  bytes_written = some ((6 + length payload % 65536) % 65536);
  tx_data = header event_id 0 (length payload) ++ payload;
}

-- `windrpc_notify_{rpc_name}(data, txn)`; `txn` is given by its `tx_size`, unless it is `NULL`, and
-- `tx_data` is there
unfoldable pub windrpc_notify :
    {Msg : Type 0} → Platform Msg → NotifyHelper → Option Msg → Option ℕ → Notified
unfolding refused sent_event
windrpc_notify p h none txn = refused
windrpc_notify p h (some m) none = refused
windrpc_notify p h (some m) (some tx_size) =
    if ltb tx_size 6
    then refused
    else sent_event (h.event_combined_id % 65536) (p.pb_encode h.fields_macro m (tx_size - 6))
