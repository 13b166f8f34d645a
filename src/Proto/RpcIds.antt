-- ===== src/Proto/RpcIds.antt =====
-- `generate_windrpc_proto`: the entries of the enum `RpcId`, with the identifiers of requests,
-- subscriptions and events.
use windrpc.Base.{ℕ, Bool, true, false, List, [], ◌∷◌, ◌++◌}
use windrpc.Base.Text.{Str, codes, str_eq, upper}
use windrpc.Base.Result.{Result, ok, ◌>>=◌}
use windrpc.Spec.{Rpc, Service, Spec, combine_ids, event_id}
use windrpc.Spec.Required.{required, required_id}
use windrpc.Validator.Rpcs.{upper_type}

-- `RPC_ID_{SERVICE}_{RPC}`
entry_name : Str → Str → Str
entry_name svc_name rpc_name = codes "RPC_ID_" ++ upper svc_name ++ codes "_" ++ upper rpc_name

entries_for : Bool → Str → Str → ℕ → ℕ → ℕ → List (Str × ℕ)
entries_for true svc_name rpc_name svc_id rpc_id id =
    (entry_name svc_name (codes "subscribe_" ++ rpc_name), id)
    ∷ (entry_name svc_name rpc_name, event_id svc_id rpc_id)
    ∷ []
entries_for false svc_name rpc_name svc_id rpc_id id = (entry_name svc_name rpc_name, id) ∷ []

unfoldable pub rpc_id_entries : Str → ℕ → Rpc → Result (List (Str × ℕ))
unfolding entries_for entry_name
rpc_id_entries svc_name svc_id r = required r.name >>= λ rpc_name. required_id r.id >>= λ rpc_id.
    combine_ids svc_id rpc_id >>= λ id. ok (
      entries_for (str_eq (upper_type r.rpc_type) (codes "NOTIFICATION")) svc_name rpc_name svc_id
        rpc_id id)

unfoldable pub rpcs_id_entries : Str → ℕ → List Rpc → Result (List (Str × ℕ))
unfolding rpc_id_entries
rpcs_id_entries svc_name svc_id [] = ok []
rpcs_id_entries svc_name svc_id (r ∷ rpcs) = rpc_id_entries svc_name svc_id r >>= λ first.
    rpcs_id_entries svc_name svc_id rpcs >>= λ more. ok (first ++ more)

unfoldable pub services_id_entries : List Service → Result (List (Str × ℕ))
unfolding rpcs_id_entries
services_id_entries [] = ok []
services_id_entries (s ∷ services) = required s.name >>= λ svc_name. required_id s.id >>= λ svc_id.
    rpcs_id_entries svc_name svc_id s.rpcs >>= λ first.
    services_id_entries services >>= λ more. ok (first ++ more)

-- the entries of `enum RpcId`, `RPC_ID_UNKNOWN = 0` first
unfoldable pub generate_windrpc_proto : Spec → Result (List (Str × ℕ))
unfolding services_id_entries
generate_windrpc_proto spec =
    services_id_entries spec.services >>= λ entries. ok ((codes "RPC_ID_UNKNOWN", 0) ∷ entries)
