-- ===== src/Server/Notify/Declared.antt =====
-- The declarations of the helpers.
use windrpc.Base.{◌≡◌, sym, ap, Option, List, [], ◌∷◌, map, map-append, Bool-cases, inl, inr}
use windrpc.Base.Text.{Str}
use windrpc.Base.Result.{ok, ok_value, bind-ok}
use windrpc.Spec.{Scalar, Rpc, Service, Spec}
use windrpc.Spec.Required.{required, required_id, id_or_zero}
use windrpc.Server.Enums.{is_notification}
use windrpc.Server.Notify.{
  NotifyHelper, event_parts, notify_helper, rpc_helpers, service_helpers, generate_notify_skeleton,
  rpc_declaration, rpc_declarations, service_declarations, generate_notify_declarations,
  notify_prefix,
}

abbrev pub declared : NotifyHelper → Str × Str
declared h = (h.rpc_name, h.c_type)

notify_helper-declared :
    (prefix svc_name : Str) (id : Option Scalar) (r : Rpc) (hs : List NotifyHelper)
    → notify_helper prefix svc_name id r ≡ ok hs
    → rpc_declaration svc_name r ≡ ok (map declared hs)
unfolding notify_helper rpc_declaration ok_value
notify_helper-declared prefix svc_name id r hs h =
    let (name, hn, h1) = bind-ok (required r.name) _ h in
    elim (Bool-cases (is_notification r)) [
      | inr other ↦ rw (hn, other) (ap (λ x. ok (map declared (ok_value hs x))) (rw other at h1))
      | inl event ↦
          let h2 = rw event at h1 in
          let (rpc_id, hr, h3) = bind-ok (required_id r.id) _ h2 in
          let (svc_id, hi, h4) = bind-ok (id_or_zero id) _ h3 in
          let (parts, hp, h5) = bind-ok (event_parts svc_name r) _ h4 in
          rw (hn, event, hp) (ap (λ x. ok (map declared (ok_value hs x))) h5)
    ]

rpc_helpers-declared :
    (prefix svc_name : Str) (id : Option Scalar) (rs : List Rpc) (hs : List NotifyHelper)
    → rpc_helpers prefix svc_name id rs ≡ ok hs
    → rpc_declarations svc_name rs ≡ ok (map declared hs)
unfolding rpc_helpers rpc_declarations ok_value
rpc_helpers-declared prefix svc_name id [] hs h = ap (λ x. ok (map declared (ok_value hs x))) h
rpc_helpers-declared prefix svc_name id (r ∷ rs) hs h =
    let (first, hf, h1) = bind-ok (notify_helper prefix svc_name id r) _ h in
    let (more, hm, h2) = bind-ok (rpc_helpers prefix svc_name id rs) _ h1 in
    rw
      (
        notify_helper-declared prefix svc_name id r first hf,
        rpc_helpers-declared prefix svc_name id rs more hm,
        sym (map-append declared first more),
      )
      (ap (λ x. ok (map declared (ok_value hs x))) h2)

service_helpers-declared :
    (prefix : Str) (ss : List Service) (hs : List NotifyHelper)
    → service_helpers prefix ss ≡ ok hs
    → service_declarations ss ≡ ok (map declared hs)
unfolding service_helpers service_declarations ok_value
service_helpers-declared prefix [] hs h = ap (λ x. ok (map declared (ok_value hs x))) h
service_helpers-declared prefix (s ∷ ss) hs h =
    let (name, hn, h1) = bind-ok (required s.name) _ h in
    let (first, hf, h2) = bind-ok (rpc_helpers prefix name s.id s.rpcs) _ h1 in
    let (more, hm, h3) = bind-ok (service_helpers prefix ss) _ h2 in
    rw
      (
        hn,
        rpc_helpers-declared prefix name s.id s.rpcs first hf,
        service_helpers-declared prefix ss more hm,
        sym (map-append declared first more),
      )
      (ap (λ x. ok (map declared (ok_value hs x))) h3)

-- Where the helpers are generated, so are their declarations: one for each helper, with its name and
-- the type of its argument, in the same order.
pub generate_notify_skeleton-declarations :
    (package_name : Str) (spec : Spec) (hs : List NotifyHelper)
    → generate_notify_skeleton package_name spec ≡ ok hs
    → generate_notify_declarations spec ≡ ok (map declared hs)
unfolding generate_notify_skeleton generate_notify_declarations
generate_notify_skeleton-declarations package_name spec hs h =
    service_helpers-declared (notify_prefix package_name) spec.services hs h
