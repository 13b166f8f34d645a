-- ===== src/Server/Indexed.antt =====
-- `_generate_dispatch_table` and `_generate_get_command_tag_and_index_funcs`: the table of the handlers
-- by index, and the generated functions that go from a request to the index and to its payload. The
-- name of a service, of a command or of an index stands for its number in C.
mod Answered
mod Examples
pub mod Found
mod Results
mod Rows
use windrpc.Base.{Bool, true, false, Option, none, some, List, [], ◌∷◌, ◌++◌, if◌then◌else◌, not}
use windrpc.Base.Text.{Str, codes, str_eq, upper}
use windrpc.Base.Result.{Result, ok, ◌>>=◌}
use windrpc.Spec.{Rpc, Service}
use windrpc.Spec.Required.{required}
use windrpc.Server.RpcTypes.{get_rpc_types, type_of}
use windrpc.Server.Enums.{command_name}

-- an element of `rpc_dispatch_table` with its index, and the types of its handler's declaration
pub record IndexedEntry : Type 0 where
  pub index : Str
  pub execute : Str
  pub has_response : Bool
  pub res_tag : Str
  pub cmd_type : Str
  pub res_type : Str

-- `WINDRPC_RPC_IDX_{SERVICE}_{RPC}`
unfoldable pub idx_name : Str → Str → Str
idx_name svc_name rpc_name =
    codes "WINDRPC_RPC_IDX_" ++ upper svc_name ++ codes "_" ++ upper rpc_name

unfoldable pub indexed_entry : Str → Str → Rpc → Result IndexedEntry
unfolding idx_name
indexed_entry package_name svc_name r = get_rpc_types r svc_name package_name >>= λ info.
    required r.name >>= λ name.
    (let rpc_name = command_name r name in
      ok (record {
        index = idx_name svc_name rpc_name;
        execute = codes "windrpc_on_" ++ rpc_name;
        has_response = not (str_eq info.rpc_type (codes "REQUEST_ONLY"));
        res_tag = info.res_tag;
        cmd_type = info.cmd_type;
        res_type = info.res_type;
      }))

unfoldable pub indexed_entries : Str → Str → List Rpc → Result (List IndexedEntry)
unfolding indexed_entry
indexed_entries package_name svc_name [] = ok []
indexed_entries package_name svc_name (r ∷ rpcs) =
    indexed_entry package_name svc_name r >>= λ first.
    indexed_entries package_name svc_name rpcs >>= λ more. ok (first ∷ more)

-- `rpc_dispatch_table`
unfoldable pub rpc_dispatch_table : Str → List Service → Result (List IndexedEntry)
unfolding indexed_entries
rpc_dispatch_table package_name [] = ok []
rpc_dispatch_table package_name (s ∷ services) = required s.name >>= λ svc_name.
    indexed_entries package_name svc_name s.rpcs >>= λ first.
    rpc_dispatch_table package_name services >>= λ more. ok (first ++ more)

-- the commands of a service with their indices
unfoldable pub rpc_cases : Str → List Rpc → Result (List (Str × Str))
unfolding idx_name
rpc_cases svc_name [] = ok []
rpc_cases svc_name (r ∷ rpcs) = required r.name >>= λ name. rpc_cases svc_name rpcs >>= λ more.
    ok ((command_name r name, idx_name svc_name (command_name r name)) ∷ more)

-- the cases of `windrpc_get_rpc_index`
unfoldable pub service_cases : List Service → Result (List (Str × List (Str × Str)))
unfolding rpc_cases
service_cases [] = ok []
service_cases (s ∷ services) = required s.name >>= λ svc_name.
    rpc_cases svc_name s.rpcs >>= λ cases.
    service_cases services >>= λ more. ok ((svc_name, cases) ∷ more)

unfoldable pub find_case : Str → List (Str × Str) → Option Str
find_case command [] = none
find_case command ((c, index) ∷ cases) =
    if str_eq c command then some index else find_case command cases

-- `windrpc_get_rpc_index`; nothing stands for `WINDRPC_RPC_IDX_UNKNOWN`
unfoldable pub get_rpc_index : Str → Str → List (Str × List (Str × Str)) → Option Str
unfolding find_case
get_rpc_index service command [] = none
get_rpc_index service command ((s, cases) ∷ rest) =
    if str_eq s service then find_case command cases else get_rpc_index service command rest

-- the cases of `windrpc_get_req_ptr`: an index, and the service and the command whose payload it is
unfoldable pub rpc_pointers : Str → List Rpc → Result (List (Str × Str × Str))
unfolding idx_name
rpc_pointers svc_name [] = ok []
rpc_pointers svc_name (r ∷ rpcs) = required r.name >>= λ name.
    rpc_pointers svc_name rpcs >>= λ more.
    ok ((idx_name svc_name (command_name r name), svc_name, command_name r name) ∷ more)

unfoldable pub request_pointers : List Service → Result (List (Str × Str × Str))
unfolding rpc_pointers
request_pointers [] = ok []
request_pointers (s ∷ services) = required s.name >>= λ svc_name.
    rpc_pointers svc_name s.rpcs >>= λ first.
    request_pointers services >>= λ more. ok (first ++ more)

-- the cases of `windrpc_get_res_ptr`: an RPC without response has none
unfoldable pub rpc_results : Str → List Rpc → Result (List (Str × Str × Str))
unfolding idx_name
rpc_results svc_name [] = ok []
rpc_results svc_name (r ∷ rpcs) = elim (str_eq (type_of r) (codes "REQUEST_ONLY")) [
  | true ↦ rpc_results svc_name rpcs
  | false ↦ required r.name >>= λ name. rpc_results svc_name rpcs >>= λ more.
      ok ((idx_name svc_name (command_name r name), svc_name, command_name r name) ∷ more)
]

unfoldable pub response_pointers : List Service → Result (List (Str × Str × Str))
unfolding rpc_results
response_pointers [] = ok []
response_pointers (s ∷ services) = required s.name >>= λ svc_name.
    rpc_results svc_name s.rpcs >>= λ first.
    response_pointers services >>= λ more. ok (first ++ more)

-- the first element with a given index
unfoldable pub at_index : {A : Type 0} → (A → Str) → Str → List A → Option A
at_index key index [] = none
at_index key index (x ∷ xs) = if str_eq (key x) index then some x else at_index key index xs

-- `windrpc_get_req_ptr`; nothing stands for `NULL`
unfoldable pub get_req_ptr : Str → List (Str × Str × Str) → Option (Str × Str × Str)
unfolding at_index
get_req_ptr index pointers = at_index (λ p. p.0) index pointers

-- `windrpc_get_res_ptr`; nothing stands for `NULL`
unfoldable pub get_res_ptr : Str → List (Str × Str × Str) → Option (Str × Str × Str)
unfolding at_index
get_res_ptr index pointers = at_index (λ p. p.0) index pointers

-- `rpc_dispatch_table[idx]`
unfoldable pub dispatch_entry : Str → List IndexedEntry → Option IndexedEntry
unfolding at_index
dispatch_entry index table = at_index (λ (e : IndexedEntry). e.index) index table
