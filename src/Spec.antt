-- ===== src/Spec.antt =====
-- The specification as the generators see it, and windrpc/utils/spec.py. A dict of the YAML file is
-- a record; a key that is missing, or is null, is `none` (or an empty list).
mod Examples
pub mod Ids
pub mod Merge
pub mod Required
use Prim.Native.Nat.{bit_or}
use windrpc.Base.{
  ℕ, ◌*◌, Bool, true, false, ◌&&◌, Option, none, some, List, [], ◌∷◌, ◌++◌, map, leb,
}
use windrpc.Base.Result.{Result, ok, raise, value_error, ◌>>=◌, ◌>>◌, guard}
use windrpc.Base.Text.{Str}

-- `negsuc n` is -(n + 1).
pub data ℤ : Type 0 where
  pos : ℕ → ℤ
  negsuc : ℕ → ℤ

-- a scalar where the program asks `isinstance(x, int)`
pub data Scalar : Type 0 where
  int : ℤ → Scalar
  text : Str → Scalar

-- the `nanopb` options of a field that the program computes with
pub record Nanopb : Type 0 where
  pub max_size : Option ℕ
  pub max_length : Option ℕ
  pub max_count : Option ℕ

pub record Field : Type 0 where
  pub name : Option Str
  pub number : Option ℕ
  pub type_name : Option Str
  pub property : Option Str
  pub nanopb : Nanopb

pub record Oneof : Type 0 where
  pub name : Option Str
  pub fields : List Field

pub record Message : Type 0 where
  pub name : Option Str
  pub fields : List Field
  pub oneofs : List Oneof

pub record Member : Type 0 where
  pub name : Option Str
  pub value : Option ℤ

pub record EnumDef : Type 0 where
  pub name : Option Str
  pub prefix : Option Str
  pub members : List Member

pub record Rpc : Type 0 where
  pub id : Option Scalar
  pub name : Option Str
  pub rpc_type : Option Str
  pub request : Option Str
  pub command : Option Str
  pub params : Option Str
  pub parameter : Option Str
  pub input : Option Str
  pub response : Option Str
  pub result : Option Str
  pub returns : Option Str
  pub return_ : Option Str
  pub output : Option Str
  pub event : Option Str

pub record Service : Type 0 where
  pub id : Option Scalar
  pub name : Option Str
  pub messages : List Message
  pub enums : List EnumDef
  pub rpcs : List Rpc

-- the dict of one YAML file, and the merged one
pub record Spec : Type 0 where
  pub package_name : Option Str
  pub messages : List Message
  pub enums : List EnumDef
  pub services : List Service

-- the first key of a row that has a value
unfoldable pub first_given {ℓ} : {A : Type ℓ} → List (Option A) → Option A
first_given [] = none
first_given (none ∷ keys) = first_given keys
first_given (some v ∷ keys) = some v

unfoldable pub req_val : Rpc → Option Str
unfolding first_given
req_val r = first_given (r.request ∷ r.command ∷ r.params ∷ r.parameter ∷ r.input ∷ [])

unfoldable pub res_val : Rpc → Option Str
unfolding first_given
res_val r = first_given (r.response ∷ r.result ∷ r.returns ∷ r.return_ ∷ r.output ∷ [])

-- `if req_val is not None: rpc['request'] = req_val; rpc['command'] = req_val`
set_request : Option Str → Rpc → Rpc
set_request none r = r
set_request (some v) r = record r { request = some v; command = some v }

set_response : Option Str → Rpc → Rpc
set_response none r = r
set_response (some v) r = record r { response = some v; result = some v }

unfoldable pub normalize_rpc : Rpc → Rpc
unfolding set_request set_response
normalize_rpc r = set_response (res_val r) (set_request (req_val r) r)

normalize_service : Service → Service
normalize_service s = record s { rpcs = map normalize_rpc s.rpcs }

-- `user_spec.get('package', core_spec.get('package'))`
merge_package : Option Str → Option Str → Option Str
merge_package core none = core
merge_package core (some p) = some p

unfoldable pub merge_specs : Spec → Spec → Spec
unfolding merge_package normalize_service
merge_specs core user = record {
  package_name = merge_package core.package_name user.package_name;
  messages = core.messages ++ user.messages;
  enums = core.enums ++ user.enums;
  services = map normalize_service (core.services ++ user.services);
}

-- `(service_id << 8) | rpc_id`
unfoldable pub combined_id : ℕ → ℕ → ℕ
combined_id service_id rpc_id = bit_or (service_id * 256) rpc_id

unfoldable pub combine_ids : ℕ → ℕ → Result ℕ
unfolding combined_id
combine_ids service_id rpc_id = do
  guard (leb 0 service_id && leb service_id 0xff && leb 0 rpc_id && leb rpc_id 0xff) value_error
  ok (combined_id service_id rpc_id)

-- `(svc_id << 8) | (rpc_id | 0x80)`: the identifier of a notification's events
unfoldable pub event_id : ℕ → ℕ → ℕ
event_id service_id rpc_id = bit_or (service_id * 256) (bit_or rpc_id 0x80)
