-- ===== src/Client/Tables.antt =====
-- The identifier constants that windrpc/client/js.py and windrpc/client/csharp.py write.
pub mod Agree
use windrpc.Base.{ℕ, Bool, true, false, Option, none, some, if◌then◌else◌, List, [], ◌∷◌, ◌++◌}
use windrpc.Base.Text.{Str, codes, str_eq, upper}
use windrpc.Base.Result.{Result, ok, ◌>>=◌}
use windrpc.Spec.{Rpc, Service, Spec, combined_id, event_id}
use windrpc.Spec.Required.{required, required_id}
use windrpc.Validator.Rpcs.{upper_type}

-- a constant of the generated code
abbrev pub Entry : Type 0
Entry = Str × ℕ

-- the loops over the services and their RPCs, which read the names and identifiers and append the
-- lines of one RPC each
unfoldable pub rpcs_lines :
    (Str → ℕ → Rpc → Result (List Entry)) → Str → ℕ → List Rpc → Result (List Entry)
rpcs_lines rpc_lines svc_name svc_id [] = ok []
rpcs_lines rpc_lines svc_name svc_id (r ∷ rpcs) = rpc_lines svc_name svc_id r >>= λ first.
    rpcs_lines rpc_lines svc_name svc_id rpcs >>= λ more. ok (first ++ more)

unfoldable pub services_lines :
    (Str → ℕ → Rpc → Result (List Entry)) → List Service → Result (List Entry)
unfolding rpcs_lines
services_lines rpc_lines [] = ok []
services_lines rpc_lines (s ∷ services) = required s.name >>= λ svc_name.
    required_id s.id >>= λ svc_id. rpcs_lines rpc_lines svc_name svc_id s.rpcs >>= λ first.
    services_lines rpc_lines services >>= λ more. ok (first ++ more)

-- `{svc_upper}_{rpc_upper}` and `{svc_upper}_SUBSCRIBE_{rpc_upper}`
js_lines : Bool → Str → Str → ℕ → ℕ → List Entry
js_lines true svc_upper rpc_upper svc_id rpc_id =
    (svc_upper ++ codes "_SUBSCRIBE_" ++ rpc_upper, combined_id svc_id rpc_id)
    ∷ (svc_upper ++ codes "_" ++ rpc_upper, event_id svc_id rpc_id)
    ∷ []
js_lines false svc_upper rpc_upper svc_id rpc_id =
    (svc_upper ++ codes "_" ++ rpc_upper, combined_id svc_id rpc_id) ∷ []

unfoldable pub js_rpc_lines : Str → ℕ → Rpc → Result (List Entry)
unfolding js_lines
js_rpc_lines svc_name svc_id r = required r.name >>= λ rpc_name. required_id r.id >>= λ rpc_id. ok (
    js_lines (str_eq (upper_type r.rpc_type) (codes "NOTIFICATION")) (upper svc_name)
      (upper rpc_name) svc_id rpc_id)

-- the properties of the object literal `RPC_ID` of the JavaScript client, as they are written
unfoldable pub js_rpc_ids : Spec → Result (List Entry)
unfolding services_lines js_rpc_lines
js_rpc_ids spec_data = services_lines js_rpc_lines spec_data.services

-- `RPC_ID.{constant}`: of properties with the same key, the object has the last
unfoldable pub js_constant : Str → List Entry → Option ℕ
js_constant constant [] = none
js_constant constant ((key, id) ∷ entries) = elim (js_constant constant entries) [
  | some later ↦ some later
  | none ↦ if str_eq constant key then some id else none
]

-- `RPC_{svc_upper}_{rpc_upper}` and `RPC_{svc_upper}_SUBSCRIBE_{rpc_upper}`
csharp_lines : Bool → Str → Str → ℕ → ℕ → List Entry
csharp_lines true svc_upper rpc_upper svc_id rpc_id =
    (codes "RPC_" ++ svc_upper ++ codes "_SUBSCRIBE_" ++ rpc_upper, combined_id svc_id rpc_id)
    ∷ (codes "RPC_" ++ svc_upper ++ codes "_" ++ rpc_upper, event_id svc_id rpc_id)
    ∷ []
csharp_lines false svc_upper rpc_upper svc_id rpc_id =
    (codes "RPC_" ++ svc_upper ++ codes "_" ++ rpc_upper, combined_id svc_id rpc_id) ∷ []

unfoldable pub csharp_rpc_lines : Str → ℕ → Rpc → Result (List Entry)
unfolding csharp_lines
csharp_rpc_lines svc_name svc_id r = required r.name >>= λ rpc_name. required_id r.id >>= λ rpc_id.
    ok (
      csharp_lines (str_eq (upper_type r.rpc_type) (codes "NOTIFICATION")) (upper svc_name)
        (upper rpc_name) svc_id rpc_id)

-- the constants of the C# client
unfoldable pub csharp_rpc_ids : Spec → Result (List Entry)
unfolding services_lines csharp_rpc_lines
csharp_rpc_ids spec_data = services_lines csharp_rpc_lines spec_data.services
