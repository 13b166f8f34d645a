-- ===== src/Server/Indexed/Found.antt =====
-- A command's index leads to its own handler and to its own payload.
use mathlib.Core.Path.{subst}
use mathlib.Core.Bool.{true}
use windrpc.Base.{
  ◌≡◌, refl, ap, ◌∙◌, sym, Option, none, some, List, [], ◌∷◌, ◌++◌, map, arith, Bool-cases, inl,
  inr, map-append, if◌then◌else◌,
}
use windrpc.Base.Text.{Str, codes, str_eq, str_eq_refl, str_eq→eq, str_mem}
use windrpc.Base.Result.{ok, bind-ok, ok_value}
use windrpc.Spec.{Rpc, Service}
use windrpc.Spec.Required.{required}
use windrpc.Proto.Resolve.Imports.{Once}
use windrpc.Server.Enums.{command_name}
use windrpc.Server.Dispatch.Members.{With, With-append_left, With-append_right}
use windrpc.Server.Indexed.{
  IndexedEntry, idx_name, rpc_dispatch_table, rpc_cases, service_cases, find_case, get_rpc_index,
  rpc_pointers, request_pointers, at_index, get_req_ptr, dispatch_entry, response_pointers,
  get_res_ptr,
}
use windrpc.Server.Indexed.Rows.{handler_of, named_by, table-pointers, indices}
use windrpc.Server.Indexed.Results.{table-answered}
use windrpc.Server.Indexed.Answered.{answered-at_index, key_of, index_of}

-- an element of a list whose keys are different is found by its key
module _ {A : Type 0} (key : A → Str) (x : A) (after : List A) where
  key-str_mem : (before : List A) → str_mem (key x) (map key (before ++ x ∷ after)) ≡ true
  unfolding str_mem
  key-str_mem [] = ground (arith, str_eq_refl (key x))
  key-str_mem (b ∷ before) = ground (arith, key-str_mem before)

  at_index-With :
      (before : List A)
      → Once (map key (before ++ x ∷ after))
      → at_index key (key x) (before ++ x ∷ after) ≡ some x
  unfolding at_index Once
  at_index-With [] h = ground (arith, str_eq_refl (key x))
  at_index-With (b ∷ before) h = elim (Bool-cases (str_eq (key b) (key x))) [
    | inl same ↦
        let e : key b ≡ key x = str_eq→eq (key b) (key x) same in
        cc (rw e at h.0, key-str_mem before)
    | inr other ↦ rw other (at_index-With before h.1)
  ]

or_nothing : Str → Option Str → Str
or_nothing d none = d
or_nothing d (some t) = t

-- the case of a command has its pointer
case-pointer :
    (svc_name command index : Str) (rs : List Rpc) (cases : List (Str × Str))
    (ps : List (Str × Str × Str))
    → rpc_cases svc_name rs ≡ ok cases
    → rpc_pointers svc_name rs ≡ ok ps
    → find_case command cases ≡ some index
    → With {A = Str × Str × Str} (index, svc_name, command) ps
unfolding rpc_cases rpc_pointers ok_value find_case or_nothing
case-pointer svc_name command index [] cases ps h k found =
    cc (rw (sym (ap (ok_value cases) h)) at found)
case-pointer svc_name command index (r ∷ rs) cases ps h k found =
    let (name, hn, h1) = bind-ok (required r.name) _ h in
    let (more, hm, h2) = bind-ok (rpc_cases svc_name rs) _ h1 in
    let (qs, hq, k1) = bind-ok (rpc_pointers svc_name rs) _ (rw hn at k) in
    let cmd : Str = command_name r name in
    let own : find_case command ((cmd, idx_name svc_name cmd) ∷ more) ≡ some index =
      (rw (sym (ap (ok_value cases) h2)) at found) in
    rw (sym (ap (ok_value ps) k1)) (elim (Bool-cases (str_eq cmd command)) [
      | inl same ↦
          let e : cmd ≡ command = str_eq→eq cmd command same in
          let i : idx_name svc_name cmd ≡ index = ap (or_nothing index) (rw same at own) in
          rw (sym i, sym e) ([], qs, refl)
      | inr other ↦
          With-append_left (index, svc_name, command) ((idx_name svc_name cmd, svc_name, cmd) ∷ [])
            qs (case-pointer svc_name command index rs more qs hm hq (rw other at own))
    ])

index-pointer :
    (service command index : Str) (ss : List Service) (cases : List (Str × List (Str × Str)))
    (ps : List (Str × Str × Str))
    → service_cases ss ≡ ok cases
    → request_pointers ss ≡ ok ps
    → get_rpc_index service command cases ≡ some index
    → With {A = Str × Str × Str} (index, service, command) ps
unfolding service_cases request_pointers ok_value get_rpc_index
index-pointer service command index [] cases ps h k found =
    cc (rw (sym (ap (ok_value cases) h)) at found)
index-pointer service command index (s ∷ ss) cases ps h k found =
    let (name, hn, h1) = bind-ok (required s.name) _ h in
    let (own, ho, h2) = bind-ok (rpc_cases name s.rpcs) _ h1 in
    let (more, hm, h3) = bind-ok (service_cases ss) _ h2 in
    let (qs, hq, k1) = bind-ok (rpc_pointers name s.rpcs) _ (rw hn at k) in
    let (rest, hr, k2) = bind-ok (request_pointers ss) _ k1 in
    let here : get_rpc_index service command ((name, own) ∷ more) ≡ some index =
      (rw (sym (ap (ok_value cases) h3)) at found) in
    rw (sym (ap (ok_value ps) k2)) (elim (Bool-cases (str_eq name service)) [
      | inl same ↦
          let e : name ≡ service = str_eq→eq name service same in
          With-append_right (index, service, command) qs rest
            (rw (sym e) (case-pointer name command index s.rpcs own qs ho hq (rw same at here)))
      | inr other ↦
          With-append_left (index, service, command) qs rest
            (index-pointer service command index ss more rest hm hr (rw other at here))
    ])

-- an element that a list of keys has
entry-With :
    (table : List IndexedEntry) (before after : List (Str × Str)) (k : Str × Str)
    → map handler_of table ≡ before ++ k ∷ after
    → (e : IndexedEntry) × (handler_of e ≡ k) × With e table
entry-With [] [] after k h = absurd (cc h)
entry-With [] (b ∷ before) after k h = absurd (cc h)
entry-With (e ∷ table) [] after k h = (e, cc h, ([], table, refl))
entry-With (e ∷ table) (b ∷ before) after k h =
    let (d, hd, w) = entry-With table before after k (cc h) in
    (d, hd, With-append_left d (e ∷ []) table w)

-- Where all indices are different, the index that is found for a service and a command leads to the
-- handler `windrpc_on_{command}` in the dispatch table, to the payload of that service's command, and
-- to the result of the same name just if the handler has a response; otherwise to no result.
pub get_rpc_index-dispatch_entry :
    (package_name : Str) (ss : List Service) (table : List IndexedEntry)
    (cases : List (Str × List (Str × Str))) (ps qs : List (Str × Str × Str))
    (service command index : Str)
    → rpc_dispatch_table package_name ss ≡ ok table
    → service_cases ss ≡ ok cases
    → request_pointers ss ≡ ok ps
    → response_pointers ss ≡ ok qs
    → Once (map (λ (e : IndexedEntry). e.index) table)
    → get_rpc_index service command cases ≡ some index
    → ((e : IndexedEntry) × (dispatch_entry index table ≡ some e)
        × (e.execute ≡ codes "windrpc_on_" ++ command)
        × (get_res_ptr index qs
            ≡ (if e.has_response then some (index, service, command) else none)))
      × (get_req_ptr index ps ≡ some (index, service, command))
unfolding dispatch_entry get_req_ptr get_res_ptr
get_rpc_index-dispatch_entry package_name ss table cases ps qs service command index ht hc hp hq
      once found =
    let same : map handler_of table ≡ map named_by ps =
      table-pointers package_name ss table ps ht hp in
    let keys : map index_of table ≡ map key_of ps = indices table ps same in
    let (before, after, e) = index-pointer service command index ss cases ps hc hp found in
    let (d, hd, (front, back, te)) =
      entry-With table (map named_by before) (map named_by after)
        (index, codes "windrpc_on_" ++ command)
        (same
          ∙ ap (λ l. map named_by l) e
          ∙ map-append named_by before ((index, service, command) ∷ after)) in
    let at_row : at_index index_of index table ≡ some d =
      subst (λ i. at_index index_of i table ≡ some d) (ap (λ k. k.0) hd)
        (rw te (at_index-With index_of d back front (rw te at once))) in
    let at_pointer : at_index key_of index ps ≡ some (index, service, command) =
      rw e (at_index-With key_of (index, service, command) after before (rw (keys, e) at once)) in
    let at_result : at_index key_of index qs
        ≡ (if d.has_response then some (index, service, command) else none) =
      rw (table-answered package_name ss table ps qs ht hp hq) (
        answered-at_index index table ps d (index, service, command) keys once at_row at_pointer) in
    ((d, at_row, ap (λ k. k.1) hd, at_result), at_pointer)
