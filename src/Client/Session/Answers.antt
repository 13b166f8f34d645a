-- ===== src/Client/Session/Answers.antt =====
-- How requests and the datagrams that answer them meet.
use Prim.Native.Nat.{bit_and}
use windrpc.Base.{
  ℕ, ◌/◌, ◌%◌, ◌≡◌, ◌≢◌, refl, Bool, true, false, none, some, [], ◌∷◌, arith, ltb, ◌==◌, ==_iff,
  if◌then◌else◌, length, get_elem?, append-nil, Bool-cases, inl, inr,
}
use windrpc.Base.Bits.{bit_and-128}
use windrpc.Base.Dict.{get}
use windrpc.Base.Result.{ok, raise, runtime_error}
use windrpc.Client.Cobs.{Bytes}
use windrpc.Client.Frame.{WindRpcFrame, pack_frame, unpack_frame}
use windrpc.Client.Frame.RoundTrip.{unpack_frame-pack_frame, pack_frame-eq-ok}
use windrpc.Client.Session.{WindRpcClient, Future, waiting, resolved, failed, complete}
use windrpc.Client.Session.Laws.{
  settle_self, settle_ne, get-complete, futures-complete, complete_unknown,
}
use windrpc.Client.Session.Receive.{Callback, notify, receive_raw_datagram}
use windrpc.Client.Session.Request.{await_future}

-- `rpc_id & 0x80` is zero
abbrev pub LowId : ℕ → Type 0
LowId rpc_id = rpc_id / 128 % 2 ≡ 0

abbrev pub given : Callback → Bool
given none = false
given (some raises) = true

abbrev frame_of : ℕ → ℕ → Bytes → WindRpcFrame
frame_of r s payload = record { rpc_id = r; seq_id = s; payload = payload }

notify_lem :
    (cb : Callback) (frame : WindRpcFrame) (c : WindRpcClient)
    → ((notify cb frame c).client ≡ c)
      × ((notify cb frame c).notified ≡ (if given cb then frame ∷ [] else []))
unfolding notify
notify_lem none frame c = (refl, refl)
notify_lem (some raises) frame c = (refl, refl)

module _ (cb : Callback) (r s : ℕ) (payload packet : Bytes)
    (packed : pack_frame r s payload ≡ ok packet) (c : WindRpcClient) where
  long_packet : ltb (length packet) 6 ≡ false
  long_packet = ground (arith, pack_frame-eq-ok r s payload packed)

  unpacked : unpack_frame packet ≡ ok (frame_of r s payload)
  unpacked = rw append-nil at (unpack_frame-pack_frame r s payload [] packet packed)

  -- a response: `rpc_id` is neither zero nor that of an event
  pub datagram_response :
      r ≢ 0
      → LowId r
      → receive_raw_datagram cb packet c ≡ record {
        client = complete s (resolved (frame_of r s payload)) c;
        notified = [];
        returned = ok (some (frame_of r s payload));
      }
  datagram_response nz low =
      let id : (r == 0) ≡ false = ground arith in
      let bit : bit_and r 128 ≡ 0 = omega (arith, bit_and-128 r) in
      unfold receive_raw_datagram in rw (long_packet, unpacked, id, bit)

  -- a system error
  pub datagram_system_error :
      r ≡ 0
      → receive_raw_datagram cb packet c ≡ record {
        client = complete s failed c;
        notified = [];
        returned = ok (some (frame_of r s payload));
      }
  datagram_system_error z =
      let id : (r == 0) ≡ true = ground arith in
      unfold receive_raw_datagram in rw (long_packet, unpacked, id)

  -- A frame with bit 7 set in its identifier leaves the client as it is, whatever is pending, and
  -- goes to `on_notification` if there is one.
  pub datagram_event :
      r / 128 % 2 ≡ 1
      → ((receive_raw_datagram cb packet c).client ≡ c)
        × ((receive_raw_datagram cb packet c).notified
            ≡ (if given cb then frame_of r s payload ∷ [] else []))
  datagram_event high =
      let id : (r == 0) ≡ false = ground arith in
      let bit : bit_and r 128 ≡ 128 = omega (arith, bit_and-128 r) in
      unfold receive_raw_datagram in
      rw (long_packet, unpacked, id, bit) (notify_lem cb (frame_of r s payload) c)

  module _ (fut time : ℕ) (known : get s c.pending_requests ≡ some (fut, time))
      (waits : get_elem? c.futures fut ≡ some waiting) where
    settled :
        (o : Future) (j i : ℕ)
        → (get_elem? (complete s o c).futures i
            ≡ (if fut == i then some o else get_elem? c.futures i))
          × (get j (complete s o c).pending_requests
              ≡ (if s == j then none else get j c.pending_requests))
    settled o j i = (
      rw (futures-complete s o c fut time known)
          (ground (arith, settle_self fut o c.futures waits, settle_ne fut i o c.futures)),
      get-complete s o c j,
    )

    -- A response, whose identifier is not zero and has bit 7 clear, to a pending request whose
    -- future still waits gives that future the frame, and the request is no longer pending; every
    -- other request and future stays, and nothing is notified.
    pub response_answers :
        r ≢ 0
        → LowId r
        → (j i : ℕ)
        → (await_future i (receive_raw_datagram cb packet c).client
            ≡ (if fut == i then some (ok (frame_of r s payload)) else await_future i c))
          × (get j (receive_raw_datagram cb packet c).client.pending_requests
              ≡ (if s == j then none else get j c.pending_requests))
          × ((receive_raw_datagram cb packet c).notified ≡ [])
    response_answers nz low j i =
        unfold await_future in
        rw (datagram_response nz low)
          (ground (arith, settled (resolved (frame_of r s payload)) j i))

    -- A frame of identifier zero makes the pending request with its sequence number, whose future
    -- still waits, raise `RuntimeError`, and it is no longer pending; every other request and
    -- future stays, and nothing is notified.
    pub system_error_answers :
        r ≡ 0
        → (j i : ℕ)
        → (await_future i (receive_raw_datagram cb packet c).client
            ≡ (if fut == i then some (raise runtime_error) else await_future i c))
          × (get j (receive_raw_datagram cb packet c).client.pending_requests
              ≡ (if s == j then none else get j c.pending_requests))
          × ((receive_raw_datagram cb packet c).notified ≡ [])
    system_error_answers z j i =
        unfold await_future in rw (datagram_system_error z) (ground (arith, settled failed j i))

  -- A frame with bit 7 clear in its identifier (a response or a system error) and a sequence
  -- number that is not pending leaves the client as it is.
  pub unknown_response :
      r / 128 % 2 ≡ 0
      → get s c.pending_requests ≡ none
      → (receive_raw_datagram cb packet c).client ≡ c
  unknown_response low unknown = elim (Bool-cases (r == 0)) [
    | inl z ↦ rw (datagram_system_error ((==_iff r 0).0 z)) (complete_unknown s failed c unknown)
    | inr nz ↦ rw (datagram_response (ground arith) low) (complete_unknown s _ c unknown)
  ]
