-- ===== src/Server/Dispatch/Rows.antt =====
-- The identifiers of the rows of the dispatch table.
use windrpc.Base.{
  ℕ, ◌≡◌, refl, sym, ap, Bool, false, Option, none, some, List, [], ◌∷◌, ◌++◌, map, if◌then◌else◌,
  Bool-cases, inl, inr,
}
use windrpc.Base.Text.{Str, codes, str_eq}
use windrpc.Base.Result.{ok, bind-ok, ok_value}
use windrpc.Spec.{Scalar, int, text, pos, negsuc, Rpc, Service, combined_id}
use windrpc.Spec.Required.{required, required_id}
use windrpc.Validator.Unique.Distinct.{numbers}
use windrpc.Validator.Whole.RequestIds.{rpc_ids, service_rpc_ids, combined_ids}
use windrpc.Server.RpcTypes.{get_rpc_types}
use windrpc.Server.Dispatch.{HandlerEntry, entry_of, entries_of, service_rows, services_rows}

abbrev pub ids : List HandlerEntry → List ℕ
ids = map (λ (e : HandlerEntry). e.rpc_id)

required_id-ok : (id : Option Scalar) (k : ℕ) → required_id id ≡ ok k → id ≡ some (int (pos k))
unfolding required_id
required_id-ok none k h = cc
required_id-ok (some (text t)) k h = cc
required_id-ok (some (int (negsuc n))) k h = cc
required_id-ok (some (int (pos n))) k h = cc

pub entry-id :
    (package_name svc_name : Str) (s : ℕ) (r : Rpc) (e : HandlerEntry)
    → entry_of package_name svc_name s r ≡ ok e
    → (k : ℕ) × (r.id ≡ some (int (pos k))) × (e.rpc_id ≡ combined_id s k)
unfolding entry_of ok_value
entry-id package_name svc_name s r e h =
    let (name, _, h1) = bind-ok (required r.name) _ h in
    let (k, hk, h2) = bind-ok (required_id r.id) _ h1 in
    let (info, _, h3) = bind-ok (get_rpc_types r svc_name package_name) _ h2 in
    (k, required_id-ok r.id k hk, ap (λ x. (ok_value e x).rpc_id) (sym h3))

entries-ids :
    (package_name svc_name : Str) (s : ℕ) (rpcs : List Rpc) (es : List HandlerEntry)
    → entries_of package_name svc_name s rpcs ≡ ok es
    → ids es ≡ rpc_ids s (numbers (map (λ (r : Rpc). r.id) rpcs))
unfolding entries_of numbers rpc_ids ok_value
entries-ids package_name svc_name s [] es h = rw (sym (ap (ok_value es) h)) refl
entries-ids package_name svc_name s (r ∷ rpcs) es h =
    let (e, he, h1) = bind-ok (entry_of package_name svc_name s r) _ h in
    let (es', hes, h2) = bind-ok (entries_of package_name svc_name s rpcs) _ h1 in
    let (k, hk, same) = entry-id package_name svc_name s r e he in
    let split : es ≡ e ∷ es' = ap (ok_value es) (sym h2) in
    let rest : ids es' ≡ rpc_ids s (numbers (map (λ (r : Rpc). r.id) rpcs)) =
      entries-ids package_name svc_name s rpcs es' hes in
    rw (split, hk, same, rest) refl

unfoldable pub is_common : Option Str → Bool
is_common none = false
is_common (some name) = str_eq name (codes "common")

-- the services that the loop does not skip
unfoldable pub handled : List Service → List Service
unfolding is_common
handled [] = []
handled (s ∷ services) = let rest = handled services in if is_common s.name then rest else s ∷ rest

-- the rows of a service that is not `common`
service_rows-ids :
    (package_name svc_name : Str) (s : Service) (rows : List HandlerEntry)
    → str_eq svc_name (codes "common") ≡ false
    → service_rows package_name s svc_name ≡ ok rows
    → ids rows ≡ service_rpc_ids (numbers (s.id ∷ [])) s.rpcs
unfolding service_rows service_rpc_ids numbers
service_rows-ids package_name svc_name s rows other h =
    let (k, hk, h1) = bind-ok (required_id s.id) _ (rw other at h) in
    rw (required_id-ok s.id k hk) (entries-ids package_name svc_name k s.rpcs rows h1)

required-ok : (name : Option Str) (n : Str) → required name ≡ ok n → name ≡ some n
unfolding required ok_value
required-ok none n h = cc
required-ok (some m) n h = ap (λ x. some (ok_value n x)) h

pub ids-append : (xs ys : List HandlerEntry) → ids (xs ++ ys) ≡ ids xs ++ ids ys
ids-append [] ys = refl
ids-append (x ∷ xs) ys = ap (λ l. x.rpc_id ∷ l) (ids-append xs ys)

handled_step :
    (package_name name : Str) (s : Service) (services : List Service) (own : List HandlerEntry)
    → s.name ≡ some name
    → service_rows package_name s name ≡ ok own
    → combined_ids (handled (s ∷ services)) ≡ ids own ++ combined_ids (handled services)
unfolding handled combined_ids service_rows ok_value
handled_step package_name name s services own hn ho =
    elim (Bool-cases (str_eq name (codes "common"))) [
      | inl common ↦
          let own_nil : own ≡ [] = ap (ok_value own) (sym (rw common at ho)) in
          rw (hn, common, own_nil) refl
      | inr other ↦ rw (hn, other, service_rows-ids package_name name s own other ho) refl
    ]

-- The rows that are generated for the services have the identifiers of the RPCs of the services that
-- are not called `common`.
pub services_rows-ids :
    (package_name : Str) (services : List Service) (rows : List HandlerEntry)
    → services_rows package_name services ≡ ok rows
    → ids rows ≡ combined_ids (handled services)
unfolding services_rows combined_ids handled ok_value
services_rows-ids package_name [] rows h = rw (sym (ap (ok_value rows) h)) refl
services_rows-ids package_name (s ∷ services) rows h =
    let (name, hn, h1) = bind-ok (required s.name) _ h in
    let (own, ho, h2) = bind-ok (service_rows package_name s name) _ h1 in
    let (more, hm, h3) = bind-ok (services_rows package_name services) _ h2 in
    let split : rows ≡ own ++ more = ap (ok_value rows) (sym h3) in
    let rest : ids more ≡ combined_ids (handled services) =
      services_rows-ids package_name services more hm in
    rw
      (
        handled_step package_name name s services own (required-ok s.name name hn) ho,
        split,
        ids-append own more,
        rest,
      )
      refl
