-- ===== src/Server/Dispatch.antt =====
-- `_generate_flat_dispatch_table`: the rows of `windrpc_dispatch_table`, as data, and the search that
-- the generated `windrpc_find_flat_handler` makes in them.
pub mod Lookup
pub mod Members
pub mod Rows
use windrpc.Base.{
  ℕ, Bool, true, false, ◌&&◌, ◌||◌, Option, none, some, List, [], ◌∷◌, ◌++◌, ◌==◌, if◌then◌else◌,
}
use windrpc.Base.Text.{Str, codes, str_eq}
use windrpc.Base.Result.{Result, ok, raise, ◌>>=◌}
use windrpc.Spec.{Rpc, Service, Spec, combined_id}
use windrpc.Spec.Required.{required, required_id}
use windrpc.Server.RpcTypes.{RpcTypes, package_prefix, types_fields, get_rpc_types}

-- `struct windrpc_handler_entry`
pub record HandlerEntry : Type 0 where
  pub rpc_id : ℕ
  pub execute : Str
  pub has_response : Bool
  pub req_fields : Str
  pub res_fields : Str

-- `{prefix}_windrpc_service_{pkg}_{msg}_fields`
unfoldable pub service_type_fields : Str → Str → Str → Str
service_type_fields prefix pkg msg =
    prefix ++ codes "_windrpc_service_" ++ pkg ++ codes "_" ++ msg ++ codes "_fields"

-- `if pkg and msg: …`
raw_fields : Str → Option Str → Option Str → Str
raw_fields prefix (some (c ∷ pkg)) (some (d ∷ msg)) =
    if str_eq (c ∷ pkg) (codes "types")
    then types_fields prefix (d ∷ msg)
    else service_type_fields prefix (c ∷ pkg) (d ∷ msg)
raw_fields prefix none msg = codes "NULL"
raw_fields prefix (some []) msg = codes "NULL"
raw_fields prefix (some (c ∷ pkg)) none = codes "NULL"
raw_fields prefix (some (c ∷ pkg)) (some []) = codes "NULL"

-- `info['rpc_type'] in ('REQUEST_RESPONSE', 'NOTIFICATION')`
unfoldable pub has_response_type : RpcTypes → Bool
has_response_type info =
    str_eq info.rpc_type (codes "REQUEST_RESPONSE") || str_eq info.rpc_type (codes "NOTIFICATION")

exec_name : RpcTypes → Str → Str
exec_name info name =
    if str_eq info.rpc_type (codes "NOTIFICATION")
    then codes "windrpc_on_subscribe_" ++ name
    else codes "windrpc_on_" ++ name

row : Str → ℕ → Str → RpcTypes → HandlerEntry
row prefix id name info = record {
  rpc_id = id;
  execute = exec_name info name;
  has_response = has_response_type info;
  req_fields = raw_fields prefix info.cmd_raw_pkg info.cmd_raw_msg;
  res_fields =
      if has_response_type info
      then raw_fields prefix info.res_raw_pkg info.res_raw_msg
      else codes "NULL";
}

unfoldable pub entry_of : Str → Str → ℕ → Rpc → Result HandlerEntry
unfolding row exec_name raw_fields service_type_fields
entry_of package_name svc_name svc_id r = required r.name >>= λ name. required_id r.id >>= λ rpc_id.
    get_rpc_types r svc_name package_name >>= λ info.
    ok (row (package_prefix package_name) (combined_id svc_id rpc_id) name info)

unfoldable pub entries_of : Str → Str → ℕ → List Rpc → Result (List HandlerEntry)
unfolding entry_of
entries_of package_name svc_name svc_id [] = ok []
entries_of package_name svc_name svc_id (r ∷ rpcs) =
    entry_of package_name svc_name svc_id r >>= λ entry.
    entries_of package_name svc_name svc_id rpcs >>= λ entries. ok (entry ∷ entries)

-- the rows of one service: none for `common`, which the core rows stand for
unfoldable pub service_rows : Str → Service → Str → Result (List HandlerEntry)
unfolding entries_of
service_rows package_name s svc_name =
    if str_eq svc_name (codes "common")
    then ok []
    else (required_id s.id >>= λ svc_id. entries_of package_name svc_name svc_id s.rpcs)

unfoldable pub services_rows : Str → List Service → Result (List HandlerEntry)
unfolding service_rows
services_rows package_name [] = ok []
services_rows package_name (s ∷ services) = required s.name >>= λ svc_name.
    service_rows package_name s svc_name >>= λ rows.
    services_rows package_name services >>= λ more. ok (rows ++ more)

unfoldable pub core_rows : Str → List HandlerEntry
core_rows prefix =
    record {
      rpc_id = 0x0601;
      execute = codes "windrpc_on_ping";
      has_response = true;
      req_fields = types_fields prefix (codes "Empty");
      res_fields = service_type_fields prefix (codes "common") (codes "PingResponse");
    }
    ∷ record {
      rpc_id = 0x0602;
      execute = codes "windrpc_on_get_device_info";
      has_response = true;
      req_fields = types_fields prefix (codes "Empty");
      res_fields = service_type_fields prefix (codes "common") (codes "DeviceInfo");
    }
    ∷ []

unfoldable pub dispatch_table : Str → Spec → Result (List HandlerEntry)
unfolding core_rows services_rows
dispatch_table package_name spec = services_rows package_name spec.services >>= λ rows.
    ok (core_rows (package_prefix package_name) ++ rows)

-- `windrpc_find_flat_handler`: the first row with the identifier
unfoldable pub find_flat_handler : ℕ → List HandlerEntry → Option HandlerEntry
find_flat_handler rpc_id [] = none
find_flat_handler rpc_id (entry ∷ table) =
    if entry.rpc_id == rpc_id then some entry else find_flat_handler rpc_id table
