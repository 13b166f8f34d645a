-- ===== src/Server/Enums.antt =====
-- `_get_service_commands`, `_generate_rpc_index_enum` and `_generate_rpc_event_enum`.
pub mod Counted
use windrpc.Base.{
  ℕ, suc, ◌+◌, ◌≡◌, refl, sym, ap, Bool, true, false, Option, none, some, List, [], ◌∷◌, ◌++◌, map,
  arith, length, get_elem?, if◌then◌else◌, Bool-cases, inl, inr,
}
use windrpc.Base.Text.{Str, codes, str_eq, upper}
use windrpc.Base.Result.{Result, ok, raise, ◌>>=◌}
use windrpc.Spec.{Rpc, Service, Spec}
use windrpc.Spec.Required.{required}
use windrpc.Server.RpcTypes.{type_of}

unfoldable pub is_notification : Rpc → Bool
is_notification r = str_eq (type_of r) (codes "NOTIFICATION")

-- `subscribe_{rpc_name}` of a notification, and `rpc_name` of any other RPC
unfoldable pub command_name : Rpc → Str → Str
unfolding is_notification
command_name r name = if is_notification r then codes "subscribe_" ++ name else name

-- a command and its `resp`
unfoldable pub command_of : Rpc → Result (Str × Str)
unfolding command_name
command_of r = required r.name >>= λ name. ok (
  command_name r name,
  if str_eq (type_of r) (codes "REQUEST_ONLY")
      then codes "WINDRPC_WITHOUT_RESP"
      else codes "WINDRPC_WITH_RESP",
)

commands_of : List Rpc → Result (List (Str × Str))
unfolding command_of
commands_of [] = ok []
commands_of (r ∷ rpcs) = command_of r >>= λ first. commands_of rpcs >>= λ more. ok (first ∷ more)

-- the commands of each service; `cmd_dict` holds them under the services' names, which are different
unfoldable pub service_commands : List Service → Result (List (Str × List (Str × Str)))
unfolding commands_of
service_commands [] = ok []
service_commands (s ∷ services) = required s.name >>= λ name. commands_of s.rpcs >>= λ commands.
    service_commands services >>= λ more. ok ((name, commands) ∷ more)

-- `WINDRPC_RPC_IDX_{SERVICE}_{RPC}`
index_names : Str → List Rpc → Result (List Str)
unfolding command_name
index_names svc_name [] = ok []
index_names svc_name (r ∷ rpcs) = required r.name >>= λ name. index_names svc_name rpcs >>= λ more.
    ok (
      (codes "WINDRPC_RPC_IDX_" ++ upper svc_name ++ codes "_" ++ upper (command_name r name))
      ∷ more)

-- the names before `WINDRPC_RPC_COUNT`, in the order of the enum
unfoldable pub rpc_index_enum : List Service → Result (List Str)
unfolding index_names
rpc_index_enum [] = ok []
rpc_index_enum (s ∷ services) = required s.name >>= λ svc_name.
    index_names svc_name s.rpcs >>= λ first. rpc_index_enum services >>= λ more. ok (first ++ more)

-- what the loops have: the events so far, and `events_found`
pub record Events : Type 0 where
  pub entries : List (Str × ℕ)
  pub events_found : ℕ

unfoldable pub add_event : Str → Events → Events
add_event name e = record {
  entries = e.entries ++ (codes "WINDRPC_EVENT_" ++ upper name, e.events_found) ∷ [];
  events_found = e.events_found + 1;
}

unfoldable pub add_rpcs : List Rpc → Events → Result Events
unfolding add_event is_notification
add_rpcs [] e = ok e
add_rpcs (r ∷ rpcs) e = elim (is_notification r) [
  | true ↦ required r.name >>= λ name. add_rpcs rpcs (add_event name e)
  | false ↦ add_rpcs rpcs e
]

unfoldable pub add_services : List Service → Events → Result Events
unfolding add_rpcs
add_services [] e = ok e
add_services (s ∷ services) e =
    required s.name >>= λ svc_name. add_rpcs s.rpcs e >>= λ more. add_services services more

-- `events_found` becomes `WINDRPC_EVENT_COUNT`
unfoldable pub rpc_event_enum : Spec → Result Events
unfolding add_services
rpc_event_enum spec = add_services spec.services (record { entries = []; events_found = 0 })
