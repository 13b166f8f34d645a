-- ===== src/Server/Enums/Counted.antt =====
-- The numbers of the events.
use windrpc.Base.{
  map-append, ℕ, zero, suc, ◌+◌, ◌≡◌, refl, sym, ap, List, [], ◌∷◌, ◌++◌, map, arith, length,
  length-append, Bool-cases, inl, inr,
}
use windrpc.Base.Text.{Str}
use windrpc.Base.Result.{ok, bind-ok, ok_value}
use windrpc.Spec.{Rpc, Service, Spec}
use windrpc.Spec.Required.{required}
use windrpc.Server.Enums.{
  Events, add_event, add_rpcs, add_services, rpc_event_enum, is_notification,
}

-- the numbers below `n`, in order
pub below : ℕ → List ℕ
below zero = []
below (suc n) = below n ++ n ∷ []

abbrev IsCounted : Events → Type 0
IsCounted e =
    (map (λ (p : Str × ℕ). p.1) e.entries ≡ below e.events_found)
    × (length e.entries ≡ e.events_found)

below_next : (n : ℕ) → below (n + 1) ≡ below n ++ n ∷ []
below_next n = rw one (unfold below in refl)
  where
    one : n + 1 ≡ suc n
    one = omega arith

add_event-IsCounted : (name : Str) (e : Events) → IsCounted e → IsCounted (add_event name e)
unfolding add_event
add_event-IsCounted name e h = (
  rw (map-append (λ (p : Str × ℕ). p.1) e.entries, h.0, below_next e.events_found) refl,
  rw (length-append e.entries, h.1) refl,
)

add_rpcs-IsCounted :
    (rpcs : List Rpc) (e d : Events) → IsCounted e → add_rpcs rpcs e ≡ ok d → IsCounted d
unfolding add_rpcs ok_value
add_rpcs-IsCounted [] e d h k = rw (sym (ap (ok_value d) k)) h
add_rpcs-IsCounted (r ∷ rpcs) e d h k = elim (Bool-cases (is_notification r)) [
  | inl event ↦
      let (name, _, more) =
        bind-ok (required r.name) (λ name. add_rpcs rpcs (add_event name e))
          (rw (event, add_rpcs) at k) in
      add_rpcs-IsCounted rpcs (add_event name e) d (add_event-IsCounted name e h) more
  | inr other ↦ add_rpcs-IsCounted rpcs e d h (rw (other, add_rpcs) at k)
]

add_services-IsCounted :
    (services : List Service) (e d : Events)
    → IsCounted e
    → add_services services e ≡ ok d
    → IsCounted d
unfolding add_services ok_value
add_services-IsCounted [] e d h k = rw (sym (ap (ok_value d) k)) h
add_services-IsCounted (s ∷ services) e d h k =
    let (name, _, k1) = bind-ok (required s.name) _ k in
    let (c, hc, k2) = bind-ok (add_rpcs s.rpcs e) _ k1 in
    add_services-IsCounted services c d (add_rpcs-IsCounted s.rpcs e c h hc) k2

-- The events are numbered from zero without a gap, in the order of the enum, and the count behind them
-- is their number.
pub rpc_event_enum_lem :
    (spec : Spec) (e : Events)
    → rpc_event_enum spec ≡ ok e
    → (map (λ (p : Str × ℕ). p.1) e.entries ≡ below e.events_found)
      × (length e.entries ≡ e.events_found)
unfolding rpc_event_enum
rpc_event_enum_lem spec e h =
    add_services-IsCounted spec.services (record { entries = []; events_found = 0 }) e
      (unfold below in refl, refl) h
