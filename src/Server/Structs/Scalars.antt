-- ===== src/Server/Structs/Scalars.antt =====
-- A request whose type is one of the scalars that `_get_rpc_types` lists.
use mathlib.Core.Path.{subst}
use windrpc.Base.{◌≡◌, refl, sym, ap, ℕ, true, false, none, some, [], ◌∷◌, map}
use windrpc.Base.Text.{Str, codes, str_eq, str_eq_refl, str_mem, All-str_mem}
use windrpc.Base.Result.{ok, Returns, Returns-bind, Returns-any}
use windrpc.Client.Cobs.{Bytes}
use windrpc.Spec.{Rpc}
use windrpc.Spec.Required.{required, required_id}
use windrpc.Server.RpcTypes.{
  RpcTypes, Part, type_of, or_empty, is_empty, is_number_or_bool, has_dot, package_prefix,
  command_part, result_part, get_rpc_types,
}
use windrpc.Server.Dispatch.{HandlerEntry, entry_of}
use windrpc.Server.Runtime.{Platform, Buffer, decode_request}

scalar_bare : (t : Str) → is_number_or_bool t ≡ true → (is_empty t ≡ false) × (has_dot t ≡ false)
unfolding is_number_or_bool is_empty has_dot str_mem str_eq
scalar_bare t h =
    All-str_mem (λ s. (is_empty s ≡ false) × (has_dot s ≡ false)) t
      (map codes ("uint32" ∷ "int32" ∷ "bool" ∷ "uint64" ∷ "int64" ∷ "float" ∷ "double" ∷ []))
      (
        (refl, refl),
        (
          (refl, refl),
          ((refl, refl), ((refl, refl), ((refl, refl), ((refl, refl), ((refl, refl), tt))))),
        ),
      )
      h

scalar-command_part :
    (svc_name t : Str)
    → is_number_or_bool t ≡ true
    → Returns (λ (p : Part). p.raw_pkg ≡ none) (command_part svc_name t)
unfolding command_part
scalar-command_part svc_name t scalar =
    let (empty, dot) = scalar_bare t scalar in rw (empty, dot, scalar) refl

scalar-cmd_raw_pkg :
    (r : Rpc) (svc_name package_name t : Str)
    → r.command ≡ some t
    → is_number_or_bool t ≡ true
    → str_eq (type_of r) (codes "NOTIFICATION") ≡ false
    → Returns (λ (info : RpcTypes). info.cmd_raw_pkg ≡ none) (get_rpc_types r svc_name package_name)
unfolding get_rpc_types or_empty
scalar-cmd_raw_pkg r svc_name package_name t given scalar other =
    let e : or_empty r.command ≡ t = ap or_empty given in
    Returns-bind (λ (p : Part). p.raw_pkg ≡ none) (λ (info : RpcTypes). info.cmd_raw_pkg ≡ none)
      (command_part svc_name (or_empty r.command)) _
      (subst (λ c. Returns (λ (p : Part). p.raw_pkg ≡ none) (command_part svc_name c)) (sym e)
        (scalar-command_part svc_name t scalar))
      (λ cmd none_there.
        Returns-bind (λ a. Unit) (λ (info : RpcTypes). info.cmd_raw_pkg ≡ none)
          (result_part (package_prefix package_name) svc_name (type_of r) r) _ (Returns-any _)
          (λ res _. rw other none_there))

scalar-req_fields :
    (r : Rpc) (svc_name package_name t : Str) (k : ℕ)
    → r.command ≡ some t
    → is_number_or_bool t ≡ true
    → str_eq (type_of r) (codes "NOTIFICATION") ≡ false
    → Returns
        (λ (e : HandlerEntry). e.req_fields ≡ codes "NULL")
        (entry_of package_name svc_name k r)
unfolding entry_of
scalar-req_fields r svc_name package_name t k given scalar other =
    Returns-bind (λ a. Unit) _ (required r.name) _ (Returns-any _)
      (λ name _.
        Returns-bind (λ a. Unit) _ (required_id r.id) _ (Returns-any _)
          (λ id _.
            Returns-bind (λ (info : RpcTypes). info.cmd_raw_pkg ≡ none) _
              (get_rpc_types r svc_name package_name) _
              (scalar-cmd_raw_pkg r svc_name package_name t given scalar other)
              (λ info none_there. rw none_there refl)))

-- A request whose type is one of uint32, int32, bool, uint64, int64, float and double is not decoded:
-- its handler gets the cleared buffer, whatever the payload is, provided that the RPC is no notification.
pub decode_request-is_number_or_bool :
    {Msg : Type 0} (p : Platform Msg) (buffer : Buffer) (package_name svc_name t : Str) (k : ℕ)
    (r : Rpc) (e : HandlerEntry) (name : Str) (payload : Bytes)
    → entry_of package_name svc_name k r ≡ ok e
    → r.command ≡ some t
    → is_number_or_bool t ≡ true
    → str_eq (type_of r) (codes "NOTIFICATION") ≡ false
    → decode_request p buffer e (some name) payload ≡ some (some (p.zeroed name))
unfolding decode_request
decode_request-is_number_or_bool p buffer package_name svc_name t k r e name payload h given scalar
      other =
    let unread : e.req_fields ≡ codes "NULL" =
      subst (Returns (λ (d : HandlerEntry). d.req_fields ≡ codes "NULL")) h
        (scalar-req_fields r svc_name package_name t k given scalar other) in
    rw (unread, str_eq_refl (codes "NULL"))
