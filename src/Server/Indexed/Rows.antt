-- ===== src/Server/Indexed/Rows.antt =====
-- The rows of the dispatch table beside the cases of windrpc_get_req_ptr.
use windrpc.Base.{◌≡◌, refl, ap, sym, List, [], ◌∷◌, ◌++◌, map, map-append}
use windrpc.Base.Text.{Str, codes}
use windrpc.Base.Result.{ok, bind-ok, ok_value}
use windrpc.Spec.{Rpc, Service}
use windrpc.Spec.Required.{required}
use windrpc.Server.RpcTypes.{get_rpc_types}
use windrpc.Server.Enums.{command_name}
use windrpc.Server.Indexed.{
  IndexedEntry, idx_name, indexed_entry, indexed_entries, rpc_dispatch_table, rpc_pointers,
  request_pointers,
}

-- what an entry of the table and a pointer have of an RPC
abbrev pub handler_of : IndexedEntry → Str × Str
handler_of e = (e.index, e.execute)

abbrev pub named_by : Str × Str × Str → Str × Str
named_by p = (p.0, codes "windrpc_on_" ++ p.2)

entry-handler :
    (package_name svc_name : Str) (r : Rpc) (e : IndexedEntry) (name : Str)
    → indexed_entry package_name svc_name r ≡ ok e
    → required r.name ≡ ok name
    → handler_of e
      ≡ (idx_name svc_name (command_name r name), codes "windrpc_on_" ++ command_name r name)
unfolding indexed_entry ok_value
entry-handler package_name svc_name r e name h hn =
    let (info, hi, h1) = bind-ok (get_rpc_types r svc_name package_name) _ h in
    ap (λ x. handler_of (ok_value e x)) (sym (rw hn at h1))

pub entries-pointers :
    (package_name svc_name : Str) (rs : List Rpc) (table : List IndexedEntry)
    (ps : List (Str × Str × Str))
    → indexed_entries package_name svc_name rs ≡ ok table
    → rpc_pointers svc_name rs ≡ ok ps
    → map handler_of table ≡ map named_by ps
unfolding indexed_entries rpc_pointers ok_value
entries-pointers package_name svc_name [] table ps h k =
    rw (sym (ap (ok_value table) h), sym (ap (ok_value ps) k)) refl
entries-pointers package_name svc_name (r ∷ rs) table ps h k =
    let (first, hf, h1) = bind-ok (indexed_entry package_name svc_name r) _ h in
    let (more, hm, h2) = bind-ok (indexed_entries package_name svc_name rs) _ h1 in
    let (name, hn, k1) = bind-ok (required r.name) _ k in
    let (qs, hq, k2) = bind-ok (rpc_pointers svc_name rs) _ k1 in
    let one : handler_of first
        ≡ (idx_name svc_name (command_name r name), codes "windrpc_on_" ++ command_name r name) =
      entry-handler package_name svc_name r first name hf hn in
    rw
      (
        sym (ap (ok_value table) h2),
        sym (ap (ok_value ps) k2),
        one,
        entries-pointers package_name svc_name rs more qs hm hq,
      )
      refl

pub table-pointers :
    (package_name : Str) (ss : List Service) (table : List IndexedEntry)
    (ps : List (Str × Str × Str))
    → rpc_dispatch_table package_name ss ≡ ok table
    → request_pointers ss ≡ ok ps
    → map handler_of table ≡ map named_by ps
unfolding rpc_dispatch_table request_pointers ok_value
table-pointers package_name [] table ps h k =
    rw (sym (ap (ok_value table) h), sym (ap (ok_value ps) k)) refl
table-pointers package_name (s ∷ ss) table ps h k =
    let (name, hn, h1) = bind-ok (required s.name) _ h in
    let (first, hf, h2) = bind-ok (indexed_entries package_name name s.rpcs) _ h1 in
    let (more, hm, h3) = bind-ok (rpc_dispatch_table package_name ss) _ h2 in
    let (qs, hq, k1) = bind-ok (rpc_pointers name s.rpcs) _ (rw hn at k) in
    let (rest, hr, k2) = bind-ok (request_pointers ss) _ k1 in
    rw
      (
        sym (ap (ok_value table) h3),
        sym (ap (ok_value ps) k2),
        map-append handler_of first more,
        map-append named_by qs rest,
        entries-pointers package_name name s.rpcs first qs hf hq,
        table-pointers package_name ss more rest hm hr,
      )
      refl

pub indices :
    (table : List IndexedEntry) (ps : List (Str × Str × Str))
    → map handler_of table ≡ map named_by ps
    → map (λ (e : IndexedEntry). e.index) table ≡ map (λ (p : Str × Str × Str). p.0) ps
indices [] [] h = refl
indices [] (p ∷ ps) h = absurd (cc h)
indices (e ∷ table) [] h = absurd (cc h)
indices (e ∷ table) (p ∷ ps) h =
    let first : e.index ≡ p.0 = cc h in rw (first, indices table ps (cc h)) refl
