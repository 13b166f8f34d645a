-- ===== src/Validator/Rpcs.antt =====
-- The checks of a service's identifier and of its RPCs in `validate`.
use windrpc.Base.{
  Bool, true, false, not, ◌&&◌, ◌||◌, Option, none, some, List, [], ◌∷◌, ◌++◌, ltb, leb,
  if◌then◌else◌,
}
use windrpc.Base.Text.{Str, codes, str_eq, upper}
use windrpc.Spec.{ℤ, pos, negsuc, Scalar, int, text, Rpc, Spec}
use windrpc.Validator.Fault.{
  Faults, fault_if, rpc, id_not_integer, service_id_range, service_id_reserved, rpc_id_range,
  invalid_rpc_type, request_required, response_required, event_required, invalid_request,
  invalid_response, invalid_event,
}
use windrpc.Validator.Names.{validate_name}
use windrpc.Validator.Types.{is_valid_type}

-- `x < 1 or x > 255`
unfoldable pub outside_byte : ℤ → Bool
outside_byte (negsuc n) = true
outside_byte (pos n) = ltb n 1 || ltb 255 n

-- `1 <= x <= 6`
reserved : ℤ → Bool
reserved (negsuc n) = false
reserved (pos n) = leb 1 n && leb n 6

unfoldable pub service_id_faults : Str → Option Scalar → Faults
unfolding outside_byte reserved
service_id_faults name none = []
service_id_faults name (some (text t)) = id_not_integer t ∷ []
service_id_faults name (some (int z)) =
    if outside_byte z
    then service_id_range z ∷ []
    else fault_if (reserved z && not (str_eq name (codes "common"))) (service_id_reserved z)

unfoldable pub rpc_id_faults : Option Scalar → Faults
unfolding outside_byte
rpc_id_faults none = []
rpc_id_faults (some (text t)) = id_not_integer t ∷ []
rpc_id_faults (some (int z)) = fault_if (outside_byte z) (rpc_id_range z)

pub data RpcKind : Type 0 where
  request_only request_response notification : RpcKind

-- `type.upper()`, if it is in `VALID_RPC_TYPES`
unfoldable pub kind_of : Str → Option RpcKind
kind_of t =
    if str_eq t (codes "REQUEST_ONLY")
    then some request_only
    else if str_eq t (codes "REQUEST_RESPONSE")
    then some request_response
    else if str_eq t (codes "NOTIFICATION")
    then some notification
    else none

-- `op.get('type', '').upper()`
unfoldable pub upper_type : Option Str → Str
upper_type none = []
upper_type (some t) = upper t

-- `a or b or …`: no text and the empty one count as false
unfoldable pub first_true : List (Option Str) → Option Str
first_true [] = none
first_true (none ∷ keys) = first_true keys
first_true (some [] ∷ keys) = first_true keys
first_true (some (c ∷ s) ∷ keys) = some (c ∷ s)

unfoldable pub req_type : Rpc → Option Str
unfolding first_true
req_type r = first_true (r.request ∷ r.command ∷ r.params ∷ r.parameter ∷ r.input ∷ [])

unfoldable pub res_type : Rpc → Option Str
unfolding first_true
res_type r = first_true (r.response ∷ r.result ∷ r.returns ∷ r.return_ ∷ r.output ∷ [])

module _ (spec : Spec) (service_name : Str) where
  request_faults : Option Str → Faults
  request_faults none = request_required ∷ []
  request_faults (some t) =
      fault_if (not (is_valid_type spec (some service_name) (some t))) (invalid_request (some t))

  response_faults : Option Str → Faults
  response_faults none = response_required ∷ []
  response_faults (some t) =
      fault_if (not (is_valid_type spec (some service_name) (some t))) (invalid_response (some t))

  event_faults : Option Str → Faults
  event_faults none = event_required ∷ []
  event_faults (some t) =
      fault_if (not (is_valid_type spec (some service_name) (some t))) (invalid_event (some t))

  -- what each type of RPC needs
  kind_faults : Option RpcKind → Rpc → Faults
  kind_faults none r = invalid_rpc_type r.rpc_type ∷ []
  kind_faults (some request_only) r = request_faults (req_type r)
  kind_faults (some request_response) r =
      request_faults (req_type r) ++ response_faults (res_type r)
  kind_faults (some notification) r = event_faults r.event

  unfoldable pub validate_rpc : Rpc → Faults
  unfolding request_faults response_faults event_faults kind_faults
  validate_rpc r =
      validate_name r.name rpc
      ++ (rpc_id_faults r.id ++ kind_faults (kind_of (upper_type r.rpc_type)) r)
