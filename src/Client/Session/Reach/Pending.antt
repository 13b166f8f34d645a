-- ===== src/Client/Session/Reach/Pending.antt =====
-- A request stays pending until it has an outcome, whatever else the client does.
use windrpc.Base.{
  ℕ, suc, ◌+◌, ◌%◌, ◌≤◌, ◌<◌, ◌≡◌, ◌≢◌, refl, inl, inr, Bool, none, some, arith, Option-cases, ◌∙◌,
}
use windrpc.Base.Result.{ok}
use windrpc.Client.Cobs.{Bytes}
use windrpc.Client.Frame.{pack_frame}
use windrpc.Client.Session.{WindRpcClient, Future, waiting, resolved, failed, cancelled, complete}
use windrpc.Client.Session.Laws.{next_seq_id-complete}
use windrpc.Client.Session.Receive.{Callback, receive_raw_datagram}
use windrpc.Client.Session.Receive.Effects.{datagram_keeps, bytes_keep}
use windrpc.Client.Session.Request.{send_request, await_future, expire, cancel}
use windrpc.Client.Session.Answers.{LowId, response_answers}
use windrpc.Client.Session.Calls.{send_rest, send_registers, started_cases}
use windrpc.Client.Session.Reach.{
  send, datagram, stream, timeout, cancellation, Reach, here, next, IsValid, Reach-IsValid,
  Step-IsValid,
}
use windrpc.Client.Session.Reach.Tracked.{
  failed-ne-waiting, resolved-ne-waiting, Waits, Tracked, complete-Tracked, expire-Tracked,
  send-Tracked, cancel-Tracked,
}

-- how many requests a run sends
unfoldable pub sends : {c d : WindRpcClient} → Reach c d → ℕ
sends here = 0
sends (next r (send raises cobs now rpc_id payload c)) = suc (sends r)
sends (next r (datagram cb data' c)) = sends r
sends (next r (stream cb chunk c)) = sends r
sends (next r (timeout s fut c)) = sends r
sends (next r (cancellation fut c)) = sends r

-- a call that times out knows its own number and future: none but the call that waits for `fut`
-- gives up the number `s`
unfoldable pub OwnTimeouts : (s fut : ℕ) {c d : WindRpcClient} → Reach c d → Type 0
OwnTimeouts s fut here = Unit
OwnTimeouts s fut (next r (send raises cobs now rpc_id payload c)) = OwnTimeouts s fut r
OwnTimeouts s fut (next r (datagram cb data' c)) = OwnTimeouts s fut r
OwnTimeouts s fut (next r (stream cb chunk c)) = OwnTimeouts s fut r
OwnTimeouts s fut (next r (timeout s' fut' c)) = (s' ≡ s → fut' ≡ fut) × OwnTimeouts s fut r
OwnTimeouts s fut (next r (cancellation fut' c)) = OwnTimeouts s fut r

module _ (s fut now : ℕ) where
  -- `n` requests after the one that has the number `s`
  abbrev Follows : ℕ → WindRpcClient → Type 0
  Follows n c = (c.next_seq_id ≡ (s + n) % 65535 + 1) × Tracked s fut now c

  complete-Follows :
      (n s' : ℕ) (o : Future) (c : WindRpcClient)
      → o ≢ waiting
      → Follows n c
      → Follows n (complete s' o c)
  complete-Follows n s' o c ne h =
      (next_seq_id-complete s' o c ∙ h.0, complete-Tracked s fut now s' o c ne h.1)

  expire-next : (s' fut' : ℕ) (c : WindRpcClient) → (expire s' fut' c).0.next_seq_id ≡ c.next_seq_id
  expire-next s' fut' c = elim (Option-cases (await_future fut' c)) [
    | inl waits ↦ unfold expire in rw waits refl
    | inr (result, e) ↦ unfold expire in rw e refl
  ]

  cancel-next : (i : ℕ) (c : WindRpcClient) → (cancel i c).next_seq_id ≡ c.next_seq_id
  unfolding cancel
  cancel-next i c = refl

  Reach-Follows :
      {c d : WindRpcClient} (r : Reach c d)
      → 1 ≤ s
      → s ≤ 65535
      → IsValid c
      → Follows 0 c
      → sends r < 65535
      → OwnTimeouts s fut r
      → Follows (sends r) d
  unfolding sends OwnTimeouts
  Reach-Follows here lo hi v h few own = h
  Reach-Follows (next r (send raises cobs t rpc_id payload c)) lo hi v h few own =
      let before : Follows (sends r) c = Reach-Follows r lo hi v h (omega arith) own in
      (
        omega (arith, (send_rest raises cobs t rpc_id payload c).0, before.0),
        send-Tracked s fut now raises cobs t rpc_id payload c
            (λ e. absurd (omega (arith, before.0))) before.1,
      )
  Reach-Follows (next r (datagram cb data' c)) lo hi v h few own =
      datagram_keeps (Follows (sends r))
        (λ s' c. complete-Follows (sends r) s' failed c failed-ne-waiting)
        (λ s' frame c. complete-Follows (sends r) s' (resolved frame) c (resolved-ne-waiting frame))
        cb data' c (Reach-Follows r lo hi v h few own)
  Reach-Follows (next r (stream cb chunk c)) lo hi v h few own =
      bytes_keep (Follows (sends r))
        (λ s' c. complete-Follows (sends r) s' failed c failed-ne-waiting)
        (λ s' frame c. complete-Follows (sends r) s' (resolved frame) c (resolved-ne-waiting frame))
        cb (λ b k q. q) chunk c (Reach-IsValid v r).buffer (Reach-Follows r lo hi v h few own)
  Reach-Follows (next r (timeout s' fut' c)) lo hi v h few own =
      let before : Follows (sends r) c = Reach-Follows r lo hi v h few own.1 in
      (expire-next s' fut' c ∙ before.0, expire-Tracked s fut now s' fut' c own.0 before.1)
  Reach-Follows (next r (cancellation i c)) lo hi v h few own =
      let before : Follows (sends r) c = Reach-Follows r lo hi v h few own in
      (cancel-next i c ∙ before.0, cancel-Tracked s fut now i c before.1)

  await_future-Waits :
      (c : WindRpcClient) → await_future fut c ≡ none → Tracked s fut now c → Waits s fut now c
  unfolding await_future
  await_future-Waits c none_yet (inl h) = h
  await_future-Waits c none_yet (inr (waiting, done, e)) = absurd (done refl)
  await_future-Waits c none_yet (inr (resolved frame, done, e)) = cc (rw e at none_yet)
  await_future-Waits c none_yet (inr (failed, done, e)) = cc (rw e at none_yet)
  await_future-Waits c none_yet (inr (cancelled, done, e)) = cc (rw e at none_yet)

-- A request that is under way is resolved by its response (a frame with its sequence number whose
-- identifier is not zero and has bit 7 clear) whenever it comes: behind any sequence of operations
-- that starts in a valid client, sends less than 65535 further requests, has no other call give up
-- this number, and has left the request without an outcome.
pub send_request-Reach :
    (raises : Bytes → Bool) (cobs : Bool) (now rpc_id : ℕ) (payload : Bytes) (c : WindRpcClient)
    (s fut : ℕ) {d : WindRpcClient}
    → IsValid c
    → (send_request raises cobs now rpc_id payload c).returned ≡ ok (s, fut)
    → (r : Reach (send_request raises cobs now rpc_id payload c).client d) → sends r < 65535
    → OwnTimeouts s fut r
    → await_future fut d ≡ none
    → (cb : Callback) (id : ℕ) (answer packet : Bytes) → pack_frame id s answer ≡ ok packet
    → id ≢ 0
    → LowId id
    → await_future fut (receive_raw_datagram cb packet d).client
      ≡ some (ok (record { rpc_id = id; seq_id = s; payload = answer }))
send_request-Reach raises cobs now rpc_id payload c s fut {d} v started r few own waits cb id answer
      packet e nz low =
    let cases = started_cases raises cobs now rpc_id payload c s fut started in
    let same : s ≡ c.next_seq_id = cases.3 in
    let lo : 1 ≤ s = rw same v.low in
    let hi : s ≤ 65535 = rw same v.high in
    let start : Follows s fut now 0 (send_request raises cobs now rpc_id payload c).client = (
      omega (arith, (send_rest raises cobs now rpc_id payload c).0),
      inl (send_registers raises cobs now rpc_id payload c s fut started),
    ) in
    let first : IsValid (send_request raises cobs now rpc_id payload c).client =
      Step-IsValid (send raises cobs now rpc_id payload c) v in
    let end : Waits s fut now d =
      await_future-Waits s fut now d waits
        (Reach-Follows s fut now r lo hi first start few own).1 in
    ground (arith, response_answers cb id s answer packet e d fut now end.0 end.1 nz low s fut)
