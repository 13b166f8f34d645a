-- ===== src/Server/Structs/Own.antt =====
-- Every request and every response has a buffer of its own.
use mathlib.Core.Path.{subst}
use windrpc.Base.{
  ℕ, ◌≡◌, refl, sym, ap, ◌∙◌, Bool, true, false, not, ◌||◌, some, List, [], ◌∷◌, ◌++◌, map,
  map-append, arith, All, Bool-cases, inl, inr,
}
use windrpc.Base.Text.{Str, codes, str_eq}
use windrpc.Base.Result.{Result, ok, ok_value, bind-ok}
use windrpc.Spec.{Rpc, Service, Spec, combined_id}
use windrpc.Spec.Required.{required, required_id}
use windrpc.Validator.Unique.Distinct.{Fresh, Distinct}
use windrpc.Validator.Whole.{validate}
use windrpc.Server.RpcTypes.{is_void, get_rpc_types, package_prefix}
use windrpc.Server.Dispatch.{
  HandlerEntry, entry_of, entries_of, service_rows, services_rows, dispatch_table,
  has_response_type, core_rows,
}
use windrpc.Server.Dispatch.Rows.{ids, ids-append, entry-id}
use windrpc.Server.Dispatch.Lookup.{find_flat_handler_lem}
use windrpc.Server.Runtime.{Tables, flat_struct}
use windrpc.Server.Structs.{
  each_rpc, one_service, each_service, struct_case, req_case, res_case, req_structs, res_structs,
  flat_tables,
}

-- some of the numbers of a list, in its order
data Sublist : List ℕ → List ℕ → Type 0 where
  nil : Sublist [] []
  keep : (n : ℕ) (xs ys : List ℕ) → Sublist xs ys → Sublist (n ∷ xs) (n ∷ ys)
  skip : (n : ℕ) (xs ys : List ℕ) → Sublist xs ys → Sublist xs (n ∷ ys)

Sublist-append :
    (xs ys us vs : List ℕ) → Sublist xs ys → Sublist us vs → Sublist (xs ++ us) (ys ++ vs)
Sublist-append _ _ us vs nil t = t
Sublist-append _ _ us vs (keep n xs ys s) t = keep n _ _ (Sublist-append xs ys us vs s t)
Sublist-append _ _ us vs (skip n xs ys s) t = skip n _ _ (Sublist-append xs ys us vs s t)

Fresh-Sublist : (m : ℕ) (xs ys : List ℕ) → Sublist xs ys → Fresh m ys → Fresh m xs
Fresh-Sublist m _ _ nil f = tt
Fresh-Sublist m _ _ (keep n xs ys s) f = (f.0, Fresh-Sublist m xs ys s f.1)
Fresh-Sublist m _ _ (skip n xs ys s) f = Fresh-Sublist m xs ys s f.1

Distinct-Sublist : (xs ys : List ℕ) → Sublist xs ys → Distinct ys → Distinct xs
Distinct-Sublist _ _ nil d = tt
Distinct-Sublist _ _ (keep n xs ys s) d =
    (Fresh-Sublist n xs ys s d.0, Distinct-Sublist xs ys s d.1)
Distinct-Sublist _ _ (skip n xs ys s) d = Distinct-Sublist xs ys s d.1

abbrev keys : List (ℕ × Str) → List ℕ
keys = map (λ (c : ℕ × Str). c.0)

-- the cases of a function that has at most one for an RPC, with that RPC's identifier
module _ (package_name : Str) (call : Str → ℕ → Rpc → Result (List (ℕ × Str)))
    (one : (svc_name : Str) (k : ℕ) (r : Rpc) (cs : List (ℕ × Str)) (e : HandlerEntry)
      → call svc_name k r ≡ ok cs
      → entry_of package_name svc_name k r ≡ ok e
      → Sublist (keys cs) (e.rpc_id ∷ [])) where
  rpcs-Sublist :
      (svc_name : Str) (k : ℕ) (rs : List Rpc) (cs : List (ℕ × Str)) (es : List HandlerEntry)
      → each_rpc (call svc_name k) rs ≡ ok cs
      → entries_of package_name svc_name k rs ≡ ok es
      → Sublist (keys cs) (ids es)
  unfolding each_rpc entries_of ok_value
  rpcs-Sublist svc_name k [] cs es h g = rw (sym (ap (ok_value cs) h), sym (ap (ok_value es) g)) nil
  rpcs-Sublist svc_name k (r ∷ rs) cs es h g =
      let (first, hf, h1) = bind-ok (call svc_name k r) _ h in
      let (more, hm, h2) = bind-ok (each_rpc (call svc_name k) rs) _ h1 in
      let (e, he, g1) = bind-ok (entry_of package_name svc_name k r) _ g in
      let (es', hes, g2) = bind-ok (entries_of package_name svc_name k rs) _ g1 in
      rw
        (
          sym (ap (ok_value cs) h2),
          sym (ap (ok_value es) g2),
          map-append (λ (c : ℕ × Str). c.0) first more,
        )
        (Sublist-append (keys first) (e.rpc_id ∷ []) (keys more) (ids es')
          (one svc_name k r first e hf he) (rpcs-Sublist svc_name k rs more es' hm hes))

  service-Sublist :
      (s : Service) (svc_name : Str) (cs : List (ℕ × Str)) (es : List HandlerEntry)
      → one_service call s svc_name ≡ ok cs
      → service_rows package_name s svc_name ≡ ok es
      → Sublist (keys cs) (ids es)
  unfolding one_service service_rows ok_value
  service-Sublist s svc_name cs es h g = elim (Bool-cases (str_eq svc_name (codes "common"))) [
    | inl common ↦
        rw (sym (ap (ok_value cs) (rw common at h)), sym (ap (ok_value es) (rw common at g))) nil
    | inr other ↦
        let (k, hk, h1) = bind-ok (required_id s.id) _ (rw other at h) in
        let (k', hk', g1) = bind-ok (required_id s.id) _ (rw other at g) in
        let same : k' ≡ k = ap (ok_value k) (sym hk' ∙ hk) in
        rpcs-Sublist svc_name k s.rpcs cs es h1 (rw same at g1)
  ]

  services-Sublist :
      (ss : List Service) (cs : List (ℕ × Str)) (es : List HandlerEntry)
      → each_service call ss ≡ ok cs
      → services_rows package_name ss ≡ ok es
      → Sublist (keys cs) (ids es)
  unfolding each_service services_rows ok_value
  services-Sublist [] cs es h g = rw (sym (ap (ok_value cs) h), sym (ap (ok_value es) g)) nil
  services-Sublist (s ∷ ss) cs es h g =
      let (name, hn, h1) = bind-ok (required s.name) _ h in
      let (first, hf, h2) = bind-ok (one_service call s name) _ h1 in
      let (more, hm, h3) = bind-ok (each_service call ss) _ h2 in
      let (own, ho, g1) = bind-ok (service_rows package_name s name) _ (rw hn at g) in
      let (rest, hr, g2) = bind-ok (services_rows package_name ss) _ g1 in
      rw
        (
          sym (ap (ok_value cs) h3),
          sym (ap (ok_value es) g2),
          map-append (λ (c : ℕ × Str). c.0) first more,
          ids-append own rest,
        )
        (Sublist-append (keys first) (ids own) (keys more) (ids rest)
          (service-Sublist s name first own hf ho) (services-Sublist ss more rest hm hr))

struct_case-Sublist :
    (skipped : Bool) (side svc_name : Str) (k : ℕ) (r : Rpc) (cs : List (ℕ × Str))
    (package_name : Str) (e : HandlerEntry)
    → struct_case skipped side svc_name k r ≡ ok cs
    → entry_of package_name svc_name k r ≡ ok e
    → Sublist (keys cs) (e.rpc_id ∷ [])
unfolding struct_case ok_value
struct_case-Sublist true side svc_name k r cs package_name e h g =
    rw (sym (ap (ok_value cs) h)) (skip e.rpc_id [] [] nil)
struct_case-Sublist false side svc_name k r cs package_name e h g =
    let (name, hn, h1) = bind-ok (required r.name) _ h in
    let (n, hi, h2) = bind-ok (required_id r.id) _ h1 in
    let (m, own, same) = entry-id package_name svc_name k r e g in
    let number : required_id r.id ≡ ok m = rw own (unfold required_id in refl) in
    let e_id : e.rpc_id ≡ combined_id k n =
      same ∙ ap (λ i. combined_id k (ok_value n i)) (sym number ∙ hi) in
    rw (sym (ap (ok_value cs) h2), e_id) (keep (combined_id k n) [] [] nil)

req_case-Sublist :
    (package_name svc_name : Str) (k : ℕ) (r : Rpc) (cs : List (ℕ × Str)) (e : HandlerEntry)
    → req_case package_name svc_name k r ≡ ok cs
    → entry_of package_name svc_name k r ≡ ok e
    → Sublist (keys cs) (e.rpc_id ∷ [])
unfolding req_case
req_case-Sublist package_name svc_name k r cs e h g =
    let (info, hi, h1) = bind-ok (get_rpc_types r svc_name package_name) _ h in
    struct_case-Sublist (is_void info.cmd_type) (codes "req_") svc_name k r cs package_name e h1 g

res_case-Sublist :
    (package_name svc_name : Str) (k : ℕ) (r : Rpc) (cs : List (ℕ × Str)) (e : HandlerEntry)
    → res_case package_name svc_name k r ≡ ok cs
    → entry_of package_name svc_name k r ≡ ok e
    → Sublist (keys cs) (e.rpc_id ∷ [])
unfolding res_case
res_case-Sublist package_name svc_name k r cs e h g =
    let (info, hi, h1) = bind-ok (get_rpc_types r svc_name package_name) _ h in
    struct_case-Sublist (not (has_response_type info) || is_void info.res_type) (codes "res_")
      svc_name k r cs package_name e h1 g

cases_behind :
    (c : ℕ × Str) (cases cs : List (ℕ × Str))
    → Fresh c.0 (keys cs)
    → All (λ d. flat_struct d.0 cases ≡ some d.1) cs
    → All (λ d. flat_struct d.0 (c ∷ cases) ≡ some d.1) cs
unfolding flat_struct
cases_behind c cases [] f h = tt
cases_behind c cases (d ∷ cs) f h = (ground (arith, f.0, h.0), cases_behind c cases cs f.1 h.1)

every_case_found :
    (cases : List (ℕ × Str))
    → Distinct (keys cases)
    → All (λ d. flat_struct d.0 cases ≡ some d.1) cases
every_case_found [] d = tt
every_case_found (c ∷ cases) d = (
  unfold flat_struct in ground arith,
  cases_behind c cases cases d.0 (every_case_found cases d.1),
)

module _ (strict : Bool) (package_name : Str) (spec : Spec) (rows : List HandlerEntry)
    (valid : (validate strict spec).errors ≡ [])
    (table : dispatch_table package_name spec ≡ ok rows) where
  -- the cases of the core and those of the services
  cases-found :
      (call : Str → ℕ → Rpc → Result (List (ℕ × Str))) (ping info : Str) (cs : List (ℕ × Str))
      → ((svc_name : Str) (k : ℕ) (r : Rpc) (ds : List (ℕ × Str)) (e : HandlerEntry)
          → call svc_name k r ≡ ok ds
          → entry_of package_name svc_name k r ≡ ok e
          → Sublist (keys ds) (e.rpc_id ∷ []))
      → each_service call spec.services ≡ ok cs
      → All
          (λ d. flat_struct d.0 ((0x0601, ping) ∷ (0x0602, info) ∷ cs) ≡ some d.1)
          ((0x0601, ping) ∷ (0x0602, info) ∷ cs)
  unfolding dispatch_table core_rows ok_value
  cases-found call ping info cs one h =
      let (own, ho, t1) = bind-ok (services_rows package_name spec.services) _ table in
      let distinct : Distinct (ids rows) =
        (find_flat_handler_lem strict package_name spec rows valid table).0 in
      let same : ids (core_rows (package_prefix package_name) ++ own) ≡ ids rows =
        ap (λ x. ids (ok_value rows x)) t1 in
      let apart : Distinct (ids (core_rows (package_prefix package_name) ++ own)) =
        subst Distinct (sym same) distinct in
      every_case_found ((0x0601, ping) ∷ (0x0602, info) ∷ cs) (
        Distinct-Sublist (0x0601 ∷ 0x0602 ∷ keys cs) (0x0601 ∷ 0x0602 ∷ ids own)
          (keep 0x0601 _ _
            (keep 0x0602 _ _ (services-Sublist package_name call one spec.services cs own h ho)))
          apart)

-- In the tables that are generated from a specification without errors, the identifier of every case for a
-- request, and for a response, leads to the buffer of that case.
pub flat_tables-found :
    (strict : Bool) (package_name : Str) (spec : Spec) (t : Tables)
    → (validate strict spec).errors ≡ []
    → flat_tables package_name spec ≡ ok t
    → All (λ d. flat_struct d.0 t.req_structs ≡ some d.1) t.req_structs
      × All (λ d. flat_struct d.0 t.res_structs ≡ some d.1) t.res_structs
unfolding flat_tables req_structs res_structs ok_value
flat_tables-found strict package_name spec t valid h =
    let (rows, table, h1) = bind-ok (dispatch_table package_name spec) _ h in
    let (requests, hr, h2) = bind-ok (req_structs package_name spec) _ h1 in
    let (responses, hs, h3) = bind-ok (res_structs package_name spec) _ h2 in
    let (qs, hq, r1) = bind-ok (each_service (req_case package_name) spec.services) _ hr in
    let (ps, hp, s1) = bind-ok (each_service (res_case package_name) spec.services) _ hs in
    rw (sym (ap (ok_value t) h3), sym (ap (ok_value requests) r1), sym (ap (ok_value responses) s1))
      (
        cases-found strict package_name spec rows valid table (req_case package_name)
            (codes "req_common_empty") (codes "req_common_empty") qs (req_case-Sublist package_name)
            hq,
        cases-found strict package_name spec rows valid table (res_case package_name)
            (codes "res_common_ping") (codes "res_common_get_device_info") ps
            (res_case-Sublist package_name) hp,
      )
