-- ===== src/Client/Session/Reach/Outcomes.antt =====
-- What a request has got, it keeps.
use windrpc.Base.{
  ℕ, zero, suc, ◌<◌, ◌≡◌, ◌≢◌, refl, Bool, some, List, [], ◌∷◌, arith, length, get_elem?, inl, inr,
  Option-cases,
}
use windrpc.Base.Dict.{get}
use windrpc.Base.Result.{Result}
use windrpc.Client.Cobs.{Bytes}
use windrpc.Client.Frame.{WindRpcFrame}
use windrpc.Client.Session.{WindRpcClient, Future, waiting, resolved, failed, cancelled, complete}
use windrpc.Client.Session.Laws.{settle_done, get_elem?-append_left}
use windrpc.Client.Session.Receive.Effects.{datagram_keeps, bytes_keep}
use windrpc.Client.Session.Request.{send_request, await_future, expire, cancel}
use windrpc.Client.Session.Calls.{send_cases}
use windrpc.Client.Session.Reach.{
  Step, send, datagram, stream, timeout, cancellation, Reach, here, next, IsValid, Reach-IsValid,
}

pub some_future : (fs : List Future) (i : ℕ) (f : Future) → get_elem? fs i ≡ some f → i < length fs
some_future [] i f h = cc
some_future (g ∷ fs) zero f h = omega arith
some_future (g ∷ fs) (suc i) f h = omega (arith, some_future fs i f h)

module _ (i : ℕ) (f : Future) (done : f ≢ waiting) where
  abbrev pub Holds : WindRpcClient → Type 0
  Holds c = get_elem? c.futures i ≡ some f

  pub complete-Holds : (s : ℕ) (o : Future) (c : WindRpcClient) → Holds c → Holds (complete s o c)
  complete-Holds s o c h = elim (Option-cases (get s c.pending_requests)) [
    | inl unknown ↦ unfold complete in rw unknown h
    | inr (entry, known) ↦ unfold complete in rw known (settle_done entry.0 i o f c.futures h done)
  ]

  pub expire-Holds : (s fut : ℕ) (c : WindRpcClient) → Holds c → Holds (expire s fut c).0
  expire-Holds s fut c h = elim (Option-cases (await_future fut c)) [
    | inl waits ↦ unfold expire in rw waits (settle_done fut i cancelled f c.futures h done)
    | inr (result, e) ↦ unfold expire in rw e h
  ]

  pub send-Holds :
      (raises : Bytes → Bool) (cobs : Bool) (now rpc_id : ℕ) (payload : Bytes) (c : WindRpcClient)
      → Holds c
      → Holds (send_request raises cobs now rpc_id payload c).client
  send-Holds raises cobs now rpc_id payload c h =
      elim (send_cases raises cobs now rpc_id payload c) [
        | inl (_, _, _, _, _, futures) ↦
            rw
              (
                futures,
                get_elem?-append_left c.futures (waiting ∷ []) i (some_future c.futures i f h),
              )
              h
        | inr (_, _, _, _, futures) ↦ rw futures h
      ]

  Step-Holds : {c d : WindRpcClient} → Step c d → IsValid c → Holds c → Holds d
  Step-Holds (send raises cobs now rpc_id payload c) v h =
      send-Holds raises cobs now rpc_id payload c h
  Step-Holds (datagram cb data' c) v h =
      datagram_keeps Holds (λ s. complete-Holds s failed)
        (λ s frame. complete-Holds s (resolved frame)) cb data' c h
  Step-Holds (stream cb chunk c) v h =
      bytes_keep Holds (λ s. complete-Holds s failed) (λ s frame. complete-Holds s (resolved frame))
        cb (λ b k q. q) chunk c v.buffer h
  Step-Holds (timeout s fut c) v h = expire-Holds s fut c h
  Step-Holds (cancellation fut c) v h =
      unfold cancel in settle_done fut i cancelled f c.futures h done

  Reach-Holds : {c d : WindRpcClient} → IsValid c → Reach c d → Holds c → Holds d
  Reach-Holds v here h = h
  Reach-Holds v (next r st) h = Step-Holds st (Reach-IsValid v r) (Reach-Holds v r h)

done_future :
    (i : ℕ) (c : WindRpcClient) (result : Result WindRpcFrame)
    → await_future i c ≡ some result
    → (f : Future) × (get_elem? c.futures i ≡ some f) × (f ≢ waiting)
unfolding await_future
done_future i c result h = elim (Option-cases (get_elem? c.futures i)) [
  | inl e ↦ absurd (cc (rw e at h))
  | inr (f, e) ↦ (f, e, λ w. cc (rw (e, w) at h))
]

same_future :
    (i : ℕ) (c d : WindRpcClient)
    → get_elem? c.futures i ≡ get_elem? d.futures i
    → await_future i c ≡ await_future i d
unfolding await_future
same_future i c d h = rw h

-- From a valid client on, a request that has its response, or has failed or been cancelled, keeps
-- that outcome through any sequence of operations.
pub await_future-Reach :
    (i : ℕ) (result : Result WindRpcFrame) {c d : WindRpcClient}
    → IsValid c
    → Reach c d
    → await_future i c ≡ some result
    → await_future i d ≡ some result
await_future-Reach i result {c} {d} v r h =
    let (f, e, done) = done_future i c result h in
    rw (← same_future i c d (rw (e, Reach-Holds i f done v r e) refl)) h
