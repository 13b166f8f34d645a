-- ===== src/Client/Constants.antt =====
-- The constants that `generate_python_client` writes: `rpc_map`.
use windrpc.Base.{ℕ, Option, none, some, List, [], ◌∷◌, ◌++◌, if◌then◌else◌}
use windrpc.Base.Text.{Str, codes, str_eq, upper}
use windrpc.Base.Result.{Result, ok, ◌>>=◌}
use windrpc.Spec.{Rpc, Service, Spec, combined_id, event_id}
use windrpc.Spec.Required.{id_or_zero}

pub record RpcInfo : Type 0 where
  pub id : ℕ
  pub service : Str
  pub rpc : Str
  pub rpc_type : Str
  pub command : Str
  pub result : Str

-- `d.get(key, default)`
get_or : Option Str → Str → Str
get_or none d = d
get_or (some t) d = t

-- `rpc_map[name] = info`: a name that is there keeps its place
unfoldable pub store : Str → RpcInfo → List (Str × RpcInfo) → List (Str × RpcInfo)
store name info [] = (name, info) ∷ []
store name info ((n, i) ∷ entries) =
    let rest = store name info entries in
    if str_eq n name then (name, info) ∷ entries else (n, i) ∷ rest

info_of : Str → ℕ → ℕ → Rpc → RpcInfo
info_of svc_name svc_id rpc_id r =
    let rpc_type = get_or r.rpc_type (codes "REQUEST_RESPONSE") in
    record {
      id =
          if str_eq rpc_type (codes "NOTIFICATION")
          then event_id svc_id rpc_id
          else combined_id svc_id rpc_id;
      service = svc_name;
      rpc = get_or r.name (codes "rpc");
      rpc_type = rpc_type;
      command = get_or r.command (codes "Empty");
      result = get_or r.result (codes "Empty");
    }

-- `RPC_{SERVICE}_{RPC}`
const_name : Str → Str → Str
const_name svc_name rpc_name = codes "RPC_" ++ upper svc_name ++ codes "_" ++ upper rpc_name

unfoldable pub store_rpcs :
    Str → ℕ → List Rpc → List (Str × RpcInfo) → Result (List (Str × RpcInfo))
unfolding info_of const_name id_or_zero get_or
store_rpcs svc_name svc_id [] rpc_map = ok rpc_map
store_rpcs svc_name svc_id (r ∷ rpcs) rpc_map = id_or_zero r.id >>= λ rpc_id.
    store_rpcs svc_name svc_id rpcs (
      store (const_name svc_name (get_or r.name (codes "rpc"))) (info_of svc_name svc_id rpc_id r)
        rpc_map)

unfoldable pub store_services : List Service → List (Str × RpcInfo) → Result (List (Str × RpcInfo))
unfolding store_rpcs id_or_zero get_or
store_services [] rpc_map = ok rpc_map
store_services (s ∷ services) rpc_map = id_or_zero s.id >>= λ svc_id.
    store_rpcs (get_or s.name (codes "service")) svc_id s.rpcs rpc_map >>= λ more.
    store_services services more

unfoldable pub python_rpc_map : Spec → Result (List (Str × RpcInfo))
unfolding store_services
python_rpc_map spec = store_services spec.services []
