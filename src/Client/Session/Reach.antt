-- ===== src/Client/Session/Reach.antt =====
-- The client through any sequence of its operations, as an event loop may order them.
pub mod Abstract
mod Examples
pub mod Outcomes
pub mod Pending
pub mod Refines
pub mod Tracked
pub mod View
use windrpc.Base.{
  ℕ, zero, suc, ◌+◌, ◌%◌, ◌≤◌, ◌<◌, ◌≡◌, ◌≢◌, refl, sym, Bool, true, false, Option, none, some,
  List, [], ◌∷◌, ◌++◌, arith, ◌==◌, if◌then◌else◌, length, length-append, get_elem?, Bool-cases,
  inl, inr, Option-cases,
}
use windrpc.Base.Dict.{Dict, get, pop, put, Entries, pop-Entries, put-Entries}
use windrpc.Base.Result.{Result, ok, raise}
use windrpc.Client.Cobs.{Bytes}
use windrpc.Client.Frame.{WindRpcFrame}
use windrpc.Client.Session.{
  WindRpcClient, Future, waiting, resolved, failed, cancelled, init, settle, complete,
}
use windrpc.Client.Session.Laws.{
  length-settle, rx_buffer-complete, settle_done, get_elem?-append_left,
}
use windrpc.Client.Session.Receive.{Callback, receive_raw_datagram, receive_bytes}
use windrpc.Client.Session.Receive.Buffer.{with_buffer}
use windrpc.Client.Session.Receive.Stream.{NoZero, receive_bytes-NoZero}
use windrpc.Client.Session.Receive.Effects.{datagram_keeps, bytes_keep}
use windrpc.Client.Session.Request.{send_request, await_future, expire, cancel}
use windrpc.Client.Session.Calls.{send_cases, send_rest}

-- A call of a method, or what the event loop does to a request that waits.
pub data Step : WindRpcClient → WindRpcClient → Type 0 where
  send :
      (raises : Bytes → Bool) (cobs : Bool) (now rpc_id : ℕ) (payload : Bytes) (c : WindRpcClient)
      → Step c (send_request raises cobs now rpc_id payload c).client
  datagram :
      (cb : Callback) (data' : Bytes) (c : WindRpcClient)
      → Step c (receive_raw_datagram cb data' c).client
  stream : (cb : Callback) (chunk : Bytes) (c : WindRpcClient) → Step c (receive_bytes cb chunk c).0
  timeout : (seq_id fut : ℕ) (c : WindRpcClient) → Step c (expire seq_id fut c).0
  cancellation : (fut : ℕ) (c : WindRpcClient) → Step c (cancel fut c)

pub data Reach (c : WindRpcClient) : WindRpcClient → Type 0 where
  here : Reach c c
  next : {d e : WindRpcClient} → Reach c d → Step d e → Reach c e

abbrev pub IsEntry : ℕ → ℕ → ℕ × ℕ → Type 0
IsEntry count seq_id entry = (1 ≤ seq_id) × (seq_id ≤ 65535) × (entry.0 < count)

-- The next number can be sent, no delimiter waits in the buffer, and each pending request has a
-- number that can be sent and a future that exists.
pub record IsValid (c : WindRpcClient) : Type 0 where
  pub low : 1 ≤ c.next_seq_id
  pub high : c.next_seq_id ≤ 65535
  pub buffer : NoZero c.rx_buffer
  pub pending : Entries (IsEntry (length c.futures)) c.pending_requests

-- the part of `IsValid` that does not look at the buffer
abbrev Sound : WindRpcClient → Type 0
Sound c =
    (1 ≤ c.next_seq_id)
    × (c.next_seq_id ≤ 65535)
    × Entries (IsEntry (length c.futures)) c.pending_requests

more_futures : (n m : ℕ) (d : Dict (ℕ × ℕ)) → n ≤ m → Entries (IsEntry n) d → Entries (IsEntry m) d
more_futures n m [] le h = tt
more_futures n m ((s, e) ∷ d) le (h, hd) = (omega arith, more_futures n m d le hd)

complete-Sound : (s : ℕ) (o : Future) (c : WindRpcClient) → Sound c → Sound (complete s o c)
complete-Sound s o c h = elim (Option-cases (get s c.pending_requests)) [
  | inl unknown ↦ unfold complete in rw unknown h
  | inr (entry, known) ↦
      unfold complete in
      rw (known, length-settle entry.0 o c.futures)
        (h.0, h.1, pop-Entries (IsEntry (length c.futures)) s c.pending_requests h.2)
]

send-Sound :
    (raises : Bytes → Bool) (cobs : Bool) (now rpc_id : ℕ) (payload : Bytes) (c : WindRpcClient)
    → Sound c
    → Sound (send_request raises cobs now rpc_id payload c).client
send-Sound raises cobs now rpc_id payload c h =
    let rest : (call'.next_seq_id ≡ c.next_seq_id % 65535 + 1) × (call'.rx_buffer ≡ c.rx_buffer) =
      send_rest raises cobs now rpc_id payload c in
    elim (send_cases raises cobs now rpc_id payload c) [
      | inl (packet, e, sent, returned, pending, futures) ↦
          rw (rest.0, pending, futures)
            (
              omega arith,
              omega arith,
              put-Entries (IsEntry (length (c.futures ++ waiting ∷ []))) c.next_seq_id
                  (length c.futures, now) c.pending_requests
                  (h.0, h.1, omega (arith, length-append c.futures (waiting ∷ [])))
                  (more_futures (length c.futures) (length (c.futures ++ waiting ∷ []))
                    c.pending_requests (omega (arith, length-append c.futures (waiting ∷ []))) h.2),
            )
      | inr (e, sent, returned, pending, futures) ↦
          rw (rest.0, pending, futures) (omega arith, omega arith, h.2)
    ]
  where
    call' : WindRpcClient
    call' = (send_request raises cobs now rpc_id payload c).client

expire-Sound : (s fut : ℕ) (c : WindRpcClient) → Sound c → Sound (expire s fut c).0
expire-Sound s fut c h = elim (Option-cases (await_future fut c)) [
  | inl waits ↦
      unfold expire in
      rw (waits, length-settle fut cancelled c.futures)
        (h.0, h.1, pop-Entries (IsEntry (length c.futures)) s c.pending_requests h.2)
  | inr (result, done) ↦ unfold expire in rw done h
]

sound : {c : WindRpcClient} → IsValid c → Sound c
sound v = (v.low, v.high, v.pending)

from_Sound : {c : WindRpcClient} → Sound c → NoZero c.rx_buffer → IsValid c
from_Sound h b = record { low = h.0; high = h.1; buffer = b; pending = h.2 }

expire-buffer : (s fut : ℕ) (c : WindRpcClient) → (expire s fut c).0.rx_buffer ≡ c.rx_buffer
expire-buffer s fut c = elim (Option-cases (await_future fut c)) [
  | inl waits ↦ unfold expire in rw waits
  | inr (result, done) ↦ unfold expire in rw done
]

complete-NoZero :
    (s : ℕ) (o : Future) (c : WindRpcClient)
    → NoZero c.rx_buffer
    → NoZero (complete s o c).rx_buffer
complete-NoZero s o c h = rw rx_buffer-complete h

pub Step-IsValid : {c d : WindRpcClient} → Step c d → IsValid c → IsValid d
Step-IsValid (send raises cobs now rpc_id payload c) v =
    from_Sound (send-Sound raises cobs now rpc_id payload c (sound v))
      (rw (send_rest raises cobs now rpc_id payload c).1 v.buffer)
Step-IsValid (datagram cb data' c) v =
    from_Sound
      (datagram_keeps Sound (λ s. complete-Sound s failed)
        (λ s frame. complete-Sound s (resolved frame)) cb data' c (sound v))
      (datagram_keeps (λ k. NoZero k.rx_buffer) (λ s. complete-NoZero s failed)
        (λ s frame. complete-NoZero s (resolved frame)) cb data' c v.buffer)
Step-IsValid (stream cb chunk c) v =
    from_Sound
      (bytes_keep Sound (λ s. complete-Sound s failed)
        (λ s frame. complete-Sound s (resolved frame)) cb (λ b k h. h) chunk c v.buffer (sound v))
      (receive_bytes-NoZero cb chunk c v.buffer)
Step-IsValid (timeout s fut c) v =
    from_Sound (expire-Sound s fut c (sound v)) (rw (expire-buffer s fut c) v.buffer)
Step-IsValid (cancellation fut c) v =
    unfold cancel in from_Sound (rw (length-settle fut cancelled c.futures) (sound v)) v.buffer

-- A valid client is valid behind any sequence of operations.
pub Reach-IsValid : {c d : WindRpcClient} → IsValid c → Reach c d → IsValid d
Reach-IsValid v here = v
Reach-IsValid v (next r st) = Step-IsValid st (Reach-IsValid v r)

pub init-IsValid : IsValid init
init-IsValid = omega arith
