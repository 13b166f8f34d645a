-- ===== src/Server/Structs.antt =====
-- `_generate_flat_dispatch_table`: the static buffers of requests and responses, and the cases of
-- `windrpc_get_flat_req_struct` and `windrpc_get_flat_res_struct`.

mod Examples
pub mod Named
pub mod Own
pub mod Scalars
use windrpc.Base.{ℕ, Bool, true, false, not, ◌||◌, ◌&&◌, List, [], ◌∷◌, ◌++◌, if◌then◌else◌}
use windrpc.Base.Text.{Str, codes, str_eq}
use windrpc.Base.Result.{Result, ok, ◌>>=◌}
use windrpc.Spec.{Rpc, Service, Spec, combined_id}
use windrpc.Spec.Required.{required, required_id}
use windrpc.Server.RpcTypes.{is_void, RpcTypes, get_rpc_types}
use windrpc.Server.Dispatch.{has_response_type, dispatch_table}
use windrpc.Server.Runtime.{Tables}

-- `req_{svc_name}_{rpc_name}` and `res_{svc_name}_{rpc_name}`
unfoldable pub struct_name : Str → Str → Str → Str
struct_name side svc_name rpc_name = side ++ (svc_name ++ codes "_" ++ rpc_name)

-- the loop over the RPCs of a service
unfoldable pub each_rpc : {A : Type 0} → (Rpc → Result (List A)) → List Rpc → Result (List A)
each_rpc call [] = ok []
each_rpc call (r ∷ rpcs) = call r >>= λ first. each_rpc call rpcs >>= λ more. ok (first ++ more)

-- a service, unless it is `common`, which the core handles
unfoldable pub one_service :
    {A : Type 0} → (Str → ℕ → Rpc → Result (List A)) → Service → Str → Result (List A)
unfolding each_rpc
one_service call s svc_name =
    if str_eq svc_name (codes "common")
    then ok []
    else (required_id s.id >>= λ svc_id. each_rpc (call svc_name svc_id) s.rpcs)

-- the loop over the services
unfoldable pub each_service :
    {A : Type 0} → (Str → ℕ → Rpc → Result (List A)) → List Service → Result (List A)
unfolding one_service
each_service call [] = ok []
each_service call (s ∷ services) = required s.name >>= λ svc_name.
    one_service call s svc_name >>= λ first.
    each_service call services >>= λ more. ok (first ++ more)

-- a buffer: its C type and its name
unfoldable pub buffer_if : Bool → Str → Str → List (Str × Str)
buffer_if true c_type name = []
buffer_if false c_type name = (c_type, name) ∷ []

-- the buffers of an RPC; its name is read where there is one
unfoldable pub rpc_buffers : Str → Str → ℕ → Rpc → Result (List (Str × Str))
unfolding buffer_if is_void struct_name
rpc_buffers package_name svc_name svc_id r = get_rpc_types r svc_name package_name >>= λ info.
    if is_void info.cmd_type && is_void info.res_type
    then ok []
    else (required r.name >>= λ rpc_name. ok (
        buffer_if (is_void info.cmd_type) info.cmd_type
          (struct_name (codes "req_") svc_name rpc_name)
        ++ buffer_if (is_void info.res_type) info.res_type
            (struct_name (codes "res_") svc_name rpc_name)))

-- a case of one of the functions, unless it is skipped
unfoldable pub struct_case : Bool → Str → Str → ℕ → Rpc → Result (List (ℕ × Str))
unfolding struct_name
struct_case skipped side svc_name svc_id r =
    if skipped
    then ok []
    else (required r.name >>= λ rpc_name. required_id r.id >>= λ rpc_id.
        ok ((combined_id svc_id rpc_id, struct_name side svc_name rpc_name) ∷ []))

unfoldable pub req_case : Str → Str → ℕ → Rpc → Result (List (ℕ × Str))
unfolding struct_case is_void
req_case package_name svc_name svc_id r = get_rpc_types r svc_name package_name >>= λ info.
    struct_case (is_void info.cmd_type) (codes "req_") svc_name svc_id r

unfoldable pub res_case : Str → Str → ℕ → Rpc → Result (List (ℕ × Str))
unfolding struct_case is_void
res_case package_name svc_name svc_id r = get_rpc_types r svc_name package_name >>= λ info.
    struct_case (not (has_response_type info) || is_void info.res_type) (codes "res_") svc_name
      svc_id r

-- the static buffers, those of the core first
unfoldable pub flat_buffers : Str → Spec → Result (List (Str × Str))
unfolding each_service rpc_buffers
flat_buffers package_name spec =
    each_service (rpc_buffers package_name) spec.services >>= λ buffers. ok (
      (codes "rpc_types_Empty_t", codes "req_common_empty")
      ∷ (codes "rpc_common_PingResponse_t", codes "res_common_ping")
      ∷ (codes "rpc_common_DeviceInfo_t", codes "res_common_get_device_info")
      ∷ buffers)

-- the cases of `windrpc_get_flat_req_struct`
unfoldable pub req_structs : Str → Spec → Result (List (ℕ × Str))
unfolding each_service req_case
req_structs package_name spec = each_service (req_case package_name) spec.services >>= λ cases.
    ok ((0x0601, codes "req_common_empty") ∷ (0x0602, codes "req_common_empty") ∷ cases)

-- the cases of `windrpc_get_flat_res_struct`
unfoldable pub res_structs : Str → Spec → Result (List (ℕ × Str))
unfolding each_service res_case
res_structs package_name spec = each_service (res_case package_name) spec.services >>= λ cases.
    ok ((0x0601, codes "res_common_ping") ∷ (0x0602, codes "res_common_get_device_info") ∷ cases)

-- what the generated part of windrpc.c gives to its handler
unfoldable pub flat_tables : Str → Spec → Result Tables
unfolding dispatch_table req_structs res_structs
flat_tables package_name spec = dispatch_table package_name spec >>= λ rows.
    req_structs package_name spec >>= λ requests. res_structs package_name spec >>= λ responses.
    ok (record { dispatch_table = rows; req_structs = requests; res_structs = responses })
