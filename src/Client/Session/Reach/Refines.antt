-- ===== src/Client/Session/Reach/Refines.antt =====
-- The client does what the table of calls may do, and no more.
use Prim.Native.Nat.{bit_and}
use windrpc.Base.{
  ℕ, ◌≡◌, refl, ap, ◌∙◌, Option, none, some, List, [], ◌∷◌, arith, Bool, ◌==◌, ltb, if◌then◌else◌,
  length, length-append, Option-cases, Bool-cases, inl, inr,
}
use windrpc.Base.Dict.{get, pop, get-pop, get-put}
use windrpc.Base.Result.{Result, ok, raise, runtime_error, cancelled_error}
use windrpc.Client.Cobs.{Bytes}
use windrpc.Client.Frame.{WindRpcFrame, unpack_frame}
use windrpc.Client.Session.{
  WindRpcClient, Future, waiting, resolved, failed, cancelled, settle, complete,
}
use windrpc.Client.Session.Laws.{get-complete, futures-complete, complete_unknown, length-settle}
use windrpc.Client.Session.Receive.{
  Callback, notify, dispatch_frame, dispatch_unpacked, receive_raw_datagram, receive_bytes,
}
use windrpc.Client.Session.Receive.Buffer.{with_buffer}
use windrpc.Client.Session.Receive.Effects.{stream_keeps}
use windrpc.Client.Session.Receive.Stream.{NoZero}
use windrpc.Client.Session.Request.{send_request, await_future, outcome, expire, cancel}
use windrpc.Client.Session.Calls.{send_cases, send_rest}
use windrpc.Client.Session.Reach.{
  Step, send, datagram, stream, timeout, cancellation, Reach, here, next, IsValid, Reach-IsValid,
}
use windrpc.Client.Session.Reach.Abstract.{
  Calls, Operation, sends, arrives, streams, gives_up, drops, Move, issued_call, not_packed,
  arrived, streamed, gave_up, too_late, dropped, Moves, none_yet, then_move, conclude, forget,
  issue, skip_number, answer, take_frame, take_frames,
}
use windrpc.Client.Session.Reach.View.{view, view-eq, settle-conclude, outcome_new}

next-complete :
    (s : ℕ) (o : Future) (c : WindRpcClient) → (complete s o c).next_seq_id ≡ c.next_seq_id
unfolding complete
next-complete s o c = elim (Option-cases (get s c.pending_requests)) [
  | inl unknown ↦ rw unknown refl
  | inr (entry, known) ↦ rw known refl
]

view-complete :
    (s : ℕ) (o : Future) (result : Result WindRpcFrame) (c : WindRpcClient)
    → outcome (some o) ≡ some result
    → view (complete s o c) ≡ answer s result (view c)
unfolding answer
view-complete s o result c e = elim (Option-cases (get s c.pending_requests)) [
  | inl unknown ↦
      let free : (view c).call_of s ≡ none = unfold view in rw unknown refl in
      rw (complete_unknown s o c unknown, free) refl
  | inr ((fut, time), known) ↦
      let taken : (view c).call_of s ≡ some fut = unfold view in rw known refl in
      rw taken (
        view-eq (complete s o c) (forget s (conclude fut result (view c)))
          (unfold view in next-complete s o c)
          (λ j. unfold view in rw (get-complete s o c j) (ground arith))
          (λ i.
            settle-conclude fut i o result c (complete s o c) e
              (futures-complete s o c fut time known))
          (unfold view in
            rw (futures-complete s o c fut time known, length-settle fut o c.futures) refl))
]

frame_or : Result WindRpcFrame → Option WindRpcFrame
frame_or (ok frame) = some frame
frame_or (raise e) = none

-- the frame of a datagram; a short one has none
unfoldable pub frame_in : Bytes → Option WindRpcFrame
unfolding frame_or
frame_in data' = if ltb (length data') 6 then none else frame_or (unpack_frame data')

view-notify :
    (cb : Callback) (frame : WindRpcFrame) (c : WindRpcClient)
    → view (notify cb frame c).client ≡ view c
unfolding notify
view-notify none frame c = refl
view-notify (some raises) frame c = refl

view-unpacked :
    (cb : Callback) (u : Result WindRpcFrame) (c : WindRpcClient)
    → view (dispatch_unpacked cb u c).client ≡ take_frame (frame_or u) (view c)
unfolding dispatch_unpacked dispatch_frame take_frame frame_or
view-unpacked cb (raise e) c = refl
view-unpacked cb (ok frame) c = elim (Bool-cases (frame.rpc_id == 0)) [
  | inl z ↦
      rw z (view-complete frame.seq_id failed (raise runtime_error) c (unfold outcome in refl))
  | inr nz ↦ elim (Bool-cases (bit_and frame.rpc_id 128 == 0)) [
    | inl low ↦
        rw (nz, low)
          (view-complete frame.seq_id (resolved frame) (ok frame) c (unfold outcome in refl))
    | inr high ↦ rw (nz, high) (view-notify cb frame c)
  ]
]

view-datagram :
    (cb : Callback) (data' : Bytes) (c : WindRpcClient)
    → view (receive_raw_datagram cb data' c).client ≡ take_frame (frame_in data') (view c)
unfolding receive_raw_datagram frame_in take_frame
view-datagram cb data' c = elim (Bool-cases (ltb (length data') 6)) [
  | inl short ↦ rw short refl
  | inr long ↦ rw long (view-unpacked cb (unpack_frame data') c)
]

-- the table that a client shows, when frames have arrived
abbrev Streamed : Calls → WindRpcClient → Type 0
Streamed a d = (frames : List (Option WindRpcFrame)) × (view d ≡ take_frames frames a)

datagram-Streamed :
    (a : Calls) (cb : Callback) (data' : Bytes) (c : WindRpcClient)
    → Streamed a c
    → Streamed a (receive_raw_datagram cb data' c).client
unfolding take_frames
datagram-Streamed a cb data' c (frames, h) =
    (frame_in data' ∷ frames, view-datagram cb data' c ∙ ap (take_frame (frame_in data')) h)

view-buffer : (buffer : Bytes) (c : WindRpcClient) → view (with_buffer buffer c) ≡ view c
unfolding view await_future
view-buffer buffer c = refl

stream-Streamed :
    (cb : Callback) (chunk : Bytes) (c : WindRpcClient)
    → NoZero c.rx_buffer
    → Streamed (view c) (receive_bytes cb chunk c).0
stream-Streamed cb chunk c z =
    stream_keeps (Streamed (view c)) cb (datagram-Streamed (view c) cb)
      (λ buffer d h. (h.0, view-buffer buffer d ∙ h.1)) chunk c z ([], unfold take_frames in refl)

send-Move :
    (raises : Bytes → Bool) (cobs : Bool) (now rpc_id : ℕ) (payload : Bytes) (c : WindRpcClient)
    → Move (view c) (view (send_request raises cobs now rpc_id payload c).client) sends
send-Move raises cobs now rpc_id payload c =
    let number = (send_rest raises cobs now rpc_id payload c).0 in
    elim (send_cases raises cobs now rpc_id payload c) [
      | inl (_, _, _, _, pending, futures) ↦ issued_call (
          view-eq (send_request raises cobs now rpc_id payload c).client (issue (view c))
            (unfold view in number)
            (λ j.
              unfold view in
              rw pending (
                ground (arith, get-put c.next_seq_id j (length c.futures, now) c.pending_requests)))
            (λ i. unfold view await_future in rw futures (outcome_new c.futures i))
            (unfold view in rw futures (omega (arith, length-append c.futures (waiting ∷ [])))))
      | inr (_, _, _, pending, futures) ↦ not_packed (
          view-eq (send_request raises cobs now rpc_id payload c).client (skip_number (view c))
            (unfold view in number) (λ j. unfold view in rw pending refl)
            (λ i. unfold view await_future in rw futures refl) (unfold view in rw futures refl))
    ]

expired-eq :
    (s fut : ℕ) (c : WindRpcClient)
    → view (record c {
      pending_requests = pop s c.pending_requests;
      futures = settle fut cancelled c.futures;
    })
      ≡ forget s (conclude fut (raise cancelled_error) (view c))
expired-eq s fut c =
    let d : WindRpcClient = record c {
      pending_requests = pop s c.pending_requests;
      futures = settle fut cancelled c.futures;
    } in
    view-eq d (forget s (conclude fut (raise cancelled_error) (view c))) (unfold view in refl)
      (λ j. unfold view in (ground (arith, get-pop s j c.pending_requests)))
      (λ i.
        settle-conclude fut i cancelled (raise cancelled_error) c d (unfold outcome in refl) refl)
      (unfold view in length-settle fut cancelled c.futures)

expire-Move :
    (s fut : ℕ) (c : WindRpcClient) → Move (view c) (view (expire s fut c).0) (gives_up s fut)
expire-Move s fut c = elim (Option-cases (await_future fut c)) [
  | inl waits ↦
      unfold expire in rw waits (gave_up s fut (unfold view in waits) (expired-eq s fut c))
  | inr (result, e) ↦ unfold expire in rw e (too_late s fut result (unfold view in e) refl)
]

cancel-Move : (fut : ℕ) (c : WindRpcClient) → Move (view c) (view (cancel fut c)) (drops fut)
cancel-Move fut c = dropped fut (
    view-eq (cancel fut c) (conclude fut (raise cancelled_error) (view c))
      (unfold view cancel in refl) (λ j. unfold view cancel in refl)
      (λ i.
        settle-conclude fut i cancelled (raise cancelled_error) c (cancel fut c)
          (unfold outcome in refl) (unfold cancel in refl))
      (unfold view cancel in length-settle fut cancelled c.futures))

-- what a step is for the table of calls
unfoldable pub operation : {c d : WindRpcClient} → Step c d → Operation
unfolding frame_in
operation (send raises cobs now rpc_id payload c) = sends
operation (datagram cb data' c) = arrives (frame_in data')
operation (stream cb chunk c) = streams
operation (timeout s fut c) = gives_up s fut
operation (cancellation fut c) = drops fut

unfoldable pub operations : {c d : WindRpcClient} → Reach c d → List Operation
unfolding operation
operations here = []
operations (next r st) = operation st ∷ operations r

Step-Move :
    {c d : WindRpcClient} → (st : Step c d) → IsValid c → Move (view c) (view d) (operation st)
unfolding operation
Step-Move (send raises cobs now rpc_id payload c) v = send-Move raises cobs now rpc_id payload c
Step-Move (datagram cb data' c) v = arrived (frame_in data') (view-datagram cb data' c)
Step-Move (stream cb chunk c) v =
    let (frames, h) = stream-Streamed cb chunk c v.buffer in streamed frames h
Step-Move (timeout s fut c) v = expire-Move s fut c
Step-Move (cancellation fut c) v = cancel-Move fut c

-- Every run of a client from a valid state is a run of the table of calls that it shows, operation by
-- operation: a request is issued under the next number, or only uses that number up; a datagram does
-- what its frame does to the call of its number, and a chunk of a stream what some frames do; a call
-- whose time is up loses the number that it waits with and is cancelled if it has no outcome yet; and a
-- caller that is cancelled leaves the numbers as they are.
pub Reach-Moves :
    {c d : WindRpcClient} → IsValid c → (r : Reach c d) → Moves (view c) (operations r) (view d)
unfolding operations
Reach-Moves v here = none_yet
Reach-Moves v (next r st) =
    then_move (operation st) (Reach-Moves v r) (Step-Move st (Reach-IsValid v r))
