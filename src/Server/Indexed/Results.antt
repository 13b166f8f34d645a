-- ===== src/Server/Indexed/Results.antt =====
-- The cases of windrpc_get_res_ptr as the generator writes them, beside the dispatch table.
use mathlib.Core.Path.{subst}
use windrpc.Base.{
  ◌≡◌, refl, ap, ◌∙◌, sym, Bool, true, false, List, [], ◌∷◌, ◌++◌, map, Bool-cases, inl, inr,
  if◌then◌else◌, not,
}
use windrpc.Base.Text.{Str, codes, str_eq}
use windrpc.Base.Result.{Result, ok, bind-ok, ok_value, Returns, Returns-bind, Returns-any}
use windrpc.Spec.{Rpc, Service}
use windrpc.Spec.Required.{required}
use windrpc.Server.RpcTypes.{
  RpcTypes, get_rpc_types, command_part, result_part, or_empty, package_prefix, type_of,
}
use windrpc.Server.Enums.{command_name}
use windrpc.Server.Indexed.Rows.{entries-pointers, indices}
use windrpc.Server.Indexed.{
  IndexedEntry, idx_name, indexed_entry, indexed_entries, rpc_dispatch_table, rpc_pointers,
  request_pointers, rpc_results, response_pointers,
}
use windrpc.Server.Indexed.Answered.{answered, key_of, index_of}

chosen-rpc_type :
    (b : Bool) (t : Str) (call : Result RpcTypes) (info : RpcTypes)
    → Returns (λ (i : RpcTypes). i.rpc_type ≡ t) call
    → info.rpc_type ≡ t
    → Returns (λ (i : RpcTypes). i.rpc_type ≡ t) (if b then call else ok info)
chosen-rpc_type true t call info h k = h
chosen-rpc_type false t call info h k = k

rpc_type-get_rpc_types :
    (r : Rpc) (svc_name package_name : Str)
    → Returns
        (λ (info : RpcTypes). info.rpc_type ≡ type_of r)
        (get_rpc_types r svc_name package_name)
unfolding get_rpc_types
rpc_type-get_rpc_types r svc_name package_name =
    Returns-bind (λ a. Unit) _ (command_part svc_name (or_empty r.command)) _ (Returns-any _)
      (λ cmd _.
        Returns-bind (λ a. Unit) _
          (result_part (package_prefix package_name) svc_name (type_of r) r) _ (Returns-any _)
          (λ res _.
            chosen-rpc_type (str_eq (type_of r) (codes "NOTIFICATION")) (type_of r) _ _
              (Returns-bind (λ a. Unit) _ (required r.name) _ (Returns-any _) (λ name _. refl))
              refl))

entry-has_response :
    (package_name svc_name : Str) (r : Rpc) (e : IndexedEntry)
    → indexed_entry package_name svc_name r ≡ ok e
    → e.has_response ≡ not (str_eq (type_of r) (codes "REQUEST_ONLY"))
unfolding indexed_entry ok_value
entry-has_response package_name svc_name r e h =
    let (info, hi, h1) = bind-ok (get_rpc_types r svc_name package_name) _ h in
    let (name, hn, h2) = bind-ok (required r.name) _ h1 in
    let same : info.rpc_type ≡ type_of r =
      subst (Returns (λ (i : RpcTypes). i.rpc_type ≡ type_of r)) hi
        (rpc_type-get_rpc_types r svc_name package_name) in
    ap (λ x. (ok_value e x).has_response) (sym h2)
    ∙ ap (λ t. not (str_eq t (codes "REQUEST_ONLY"))) same

answered-append :
    (table more : List IndexedEntry) (ps qs : List (Str × Str × Str))
    → map index_of table ≡ map key_of ps
    → answered (table ++ more) (ps ++ qs) ≡ answered table ps ++ answered more qs
unfolding answered
answered-append [] more [] qs h = refl
answered-append [] more (p ∷ ps) qs h = absurd (cc h)
answered-append (e ∷ table) more [] qs h = absurd (cc h)
answered-append (e ∷ table) more (p ∷ ps) qs h =
    rw (answered-append table more ps qs (cc h)) (pull e.has_response)
  where
    pull :
        (b : Bool)
        → (if b
            then p ∷ (answered table ps ++ answered more qs)
            else (answered table ps ++ answered more qs))
          ≡ (if b then p ∷ answered table ps else answered table ps) ++ answered more qs
    pull true = refl
    pull false = refl

-- what the first RPC adds to the cases
first-rpc_results :
    (svc_name : Str) (r : Rpc) (rs : List Rpc) (name : Str) (qs : List (Str × Str × Str))
    → required r.name ≡ ok name
    → rpc_results svc_name (r ∷ rs) ≡ ok qs
    → (more : List (Str × Str × Str)) × (rpc_results svc_name rs ≡ ok more)
      × (qs ≡ (
          if not (str_eq (type_of r) (codes "REQUEST_ONLY"))
          then (idx_name svc_name (command_name r name), svc_name, command_name r name) ∷ more
          else more))
unfolding rpc_results ok_value
first-rpc_results svc_name r rs name qs hn l =
    elim (Bool-cases (str_eq (type_of r) (codes "REQUEST_ONLY"))) [
      | inl only ↦ (qs, (rw (only, rpc_results) at l), rw only refl)
      | inr other ↦
          let (more, hm, l1) =
            bind-ok (rpc_results svc_name rs) _ (rw (other, rpc_results, hn) at l) in
          (more, hm, rw other (sym (ap (ok_value qs) l1)))
    ]

entries-answered :
    (package_name svc_name : Str) (rs : List Rpc) (table : List IndexedEntry)
    (ps qs : List (Str × Str × Str))
    → indexed_entries package_name svc_name rs ≡ ok table
    → rpc_pointers svc_name rs ≡ ok ps
    → rpc_results svc_name rs ≡ ok qs
    → qs ≡ answered table ps
unfolding indexed_entries rpc_pointers rpc_results answered ok_value
entries-answered package_name svc_name [] table ps qs h k l =
    sym (ap (ok_value qs) l) ∙ ap (λ t. answered (ok_value table t) ps) h
entries-answered package_name svc_name (r ∷ rs) table ps qs h k l =
    let (first, hf, h1) = bind-ok (indexed_entry package_name svc_name r) _ h in
    let (more, hm, h2) = bind-ok (indexed_entries package_name svc_name rs) _ h1 in
    let (name, hn, k1) = bind-ok (required r.name) _ k in
    let (rest, hr, k2) = bind-ok (rpc_pointers svc_name rs) _ k1 in
    let (results, hs, e) = first-rpc_results svc_name r rs name qs hn l in
    rw
      (
        sym (ap (ok_value table) h2),
        sym (ap (ok_value ps) k2),
        e,
        entry-has_response package_name svc_name r first hf,
        entries-answered package_name svc_name rs more rest results hm hr hs,
      )
      refl

-- the cases of windrpc_get_res_ptr are those of windrpc_get_req_ptr without the RPCs of no response
pub table-answered :
    (package_name : Str) (ss : List Service) (table : List IndexedEntry)
    (ps qs : List (Str × Str × Str))
    → rpc_dispatch_table package_name ss ≡ ok table
    → request_pointers ss ≡ ok ps
    → response_pointers ss ≡ ok qs
    → qs ≡ answered table ps
unfolding rpc_dispatch_table request_pointers response_pointers answered ok_value
table-answered package_name [] table ps qs h k l =
    sym (ap (ok_value qs) l) ∙ ap (λ t. answered (ok_value table t) ps) h
table-answered package_name (s ∷ ss) table ps qs h k l =
    let (name, hn, h1) = bind-ok (required s.name) _ h in
    let (first, hf, h2) = bind-ok (indexed_entries package_name name s.rpcs) _ h1 in
    let (more, hm, h3) = bind-ok (rpc_dispatch_table package_name ss) _ h2 in
    let (own, ho, k1) = bind-ok (rpc_pointers name s.rpcs) _ (rw hn at k) in
    let (rest, hr, k2) = bind-ok (request_pointers ss) _ k1 in
    let (own_results, hs, l1) = bind-ok (rpc_results name s.rpcs) _ (rw hn at l) in
    let (rest_results, ht, l2) = bind-ok (response_pointers ss) _ l1 in
    let same = indices first own (entries-pointers package_name name s.rpcs first own hf ho) in
    rw
      (
        sym (ap (ok_value table) h3),
        sym (ap (ok_value ps) k2),
        sym (ap (ok_value qs) l2),
        answered-append first more own rest same,
        entries-answered package_name name s.rpcs first own own_results hf ho hs,
        table-answered package_name ss more rest rest_results hm hr ht,
      )
      refl
