-- ===== src/Client/Session/Reach/Tracked.antt =====
-- A request that is pending or has its outcome, through each operation of the client.
use windrpc.Base.{
  ℕ, ◌≡◌, ◌≢◌, ◌⊎◌, inl, inr, Bool, some, List, [], ◌∷◌, arith, ◌==◌, ==_iff, length, get_elem?,
  Bool-cases, Option-cases, ◌∙◌,
}
use windrpc.Base.Dict.{get, pop, get-pop, get-put}
use windrpc.Client.Cobs.{Bytes}
use windrpc.Client.Frame.{WindRpcFrame}
use windrpc.Client.Session.{
  WindRpcClient, Future, waiting, resolved, failed, cancelled, settle, complete,
}
use windrpc.Client.Session.Laws.{
  settle_self, settle_ne, settle_done, get_elem?-append_left, get-complete, futures-complete,
  complete_unknown,
}
use windrpc.Client.Session.Request.{send_request, await_future, expire, cancel}
use windrpc.Client.Session.Calls.{send_cases}
use windrpc.Client.Session.Reach.Outcomes.{some_future, expire-Holds, complete-Holds, send-Holds}

pub cancelled-ne-waiting : cancelled ≢ waiting
cancelled-ne-waiting e = cc

pub failed-ne-waiting : failed ≢ waiting
failed-ne-waiting e = cc

pub resolved-ne-waiting : (frame : WindRpcFrame) → resolved frame ≢ waiting
resolved-ne-waiting frame e = cc

module _ (s fut now : ℕ) where
  abbrev pub Waits : WindRpcClient → Type 0
  Waits c = (get s c.pending_requests ≡ some (fut, now)) × (get_elem? c.futures fut ≡ some waiting)

  abbrev pub HasOutcome : WindRpcClient → Type 0
  HasOutcome c = (f : Future) × (f ≢ waiting) × (get_elem? c.futures fut ≡ some f)

  -- the request is pending, or has its outcome
  abbrev pub Tracked : WindRpcClient → Type 0
  Tracked c = Waits c ⊎ HasOutcome c

  settle-Tracked :
      (i : ℕ) (o : Future) (fs : List Future)
      → o ≢ waiting
      → get_elem? fs fut ≡ some waiting
      → (get_elem? (settle i o fs) fut ≡ some waiting) ⊎ (get_elem? (settle i o fs) fut ≡ some o)
  settle-Tracked i o fs ne w = elim (Bool-cases (i == fut)) [
    | inl e ↦ inr (rw ((==_iff i fut).0 e) (settle_self fut o fs w))
    | inr n ↦ inl (settle_ne i fut o fs (ground arith) ∙ w)
  ]

  pub complete-Tracked :
      (s' : ℕ) (o : Future) (c : WindRpcClient)
      → o ≢ waiting
      → Tracked c
      → Tracked (complete s' o c)
  complete-Tracked s' o c ne (inr (f, done, e)) = inr (f, done, complete-Holds fut f done s' o c e)
  complete-Tracked s' o c ne (inl (known, w)) = elim (Bool-cases (s' == s)) [
    | inl same ↦ inr (
      o,
      ne,
      rw ((==_iff s' s).0 same, futures-complete s o c fut now known)
          (settle_self fut o c.futures w),
    )
    | inr other ↦
        let still : get s (complete s' o c).pending_requests ≡ some (fut, now) =
          rw (get-complete s' o c s, other) known in
        elim (Option-cases (get s' c.pending_requests)) [
          | inl unknown ↦ rw (complete_unknown s' o c unknown) (inl (known, w))
          | inr ((i, t), entry) ↦ elim (settle-Tracked i o c.futures ne w) [
            | inl waits ↦ inl (still, rw (futures-complete s' o c i t entry) waits)
            | inr done ↦ inr (o, ne, rw (futures-complete s' o c i t entry) done)
          ]
        ]
  ]

  expired :
      (s' fut' : ℕ) (c : WindRpcClient)
      → (s' ≡ s → fut' ≡ fut)
      → get s c.pending_requests ≡ some (fut, now)
      → get_elem? c.futures fut ≡ some waiting
      → Tracked (record c {
        pending_requests = pop s' c.pending_requests;
        futures = settle fut' cancelled c.futures;
      })
  expired s' fut' c own known w = elim (Bool-cases (s' == s)) [
    | inl same ↦ inr (
      cancelled,
      cancelled-ne-waiting,
      rw (own ((==_iff s' s).0 same)) (settle_self fut cancelled c.futures w),
    )
    | inr other ↦ elim (settle-Tracked fut' cancelled c.futures cancelled-ne-waiting w) [
      | inl waits ↦ inl (rw (get-pop s' s c.pending_requests, other) known, waits)
      | inr done ↦ inr (cancelled, cancelled-ne-waiting, done)
    ]
  ]

  pub expire-Tracked :
      (s' fut' : ℕ) (c : WindRpcClient)
      → (s' ≡ s → fut' ≡ fut)
      → Tracked c
      → Tracked (expire s' fut' c).0
  expire-Tracked s' fut' c own (inr (f, done, e)) =
      inr (f, done, expire-Holds fut f done s' fut' c e)
  expire-Tracked s' fut' c own (inl (known, w)) = elim (Option-cases (await_future fut' c)) [
    | inr (result, e) ↦ unfold expire in rw e (inl (known, w))
    | inl waits ↦ unfold expire in rw waits (expired s' fut' c own known w)
  ]

  pub send-Tracked :
      (raises : Bytes → Bool) (cobs : Bool) (t rpc_id : ℕ) (payload : Bytes) (c : WindRpcClient)
      → c.next_seq_id ≢ s
      → Tracked c
      → Tracked (send_request raises cobs t rpc_id payload c).client
  send-Tracked raises cobs t rpc_id payload c ne (inr (f, done, e)) =
      inr (f, done, send-Holds fut f done raises cobs t rpc_id payload c e)
  send-Tracked raises cobs t rpc_id payload c ne (inl (known, w)) =
      inl (elim (send_cases raises cobs t rpc_id payload c) [
        | inl (_, _, _, _, pending, futures) ↦ (
          rw pending
              (ground (arith, get-put c.next_seq_id s (length c.futures, t) c.pending_requests)),
          rw futures (
              get_elem?-append_left c.futures (waiting ∷ []) fut
                (some_future c.futures fut waiting w)
              ∙ w),
        )
        | inr (_, _, _, pending, futures) ↦ (rw pending known, rw futures w)
      ])

  pub cancel-Tracked : (i : ℕ) (c : WindRpcClient) → Tracked c → Tracked (cancel i c)
  unfolding cancel
  cancel-Tracked i c (inr (f, done, e)) =
      inr (f, done, settle_done i fut cancelled f c.futures e done)
  cancel-Tracked i c (inl (known, w)) =
      elim (settle-Tracked i cancelled c.futures cancelled-ne-waiting w) [
        | inl waits ↦ inl (known, waits)
        | inr done ↦ inr (cancelled, cancelled-ne-waiting, done)
      ]
