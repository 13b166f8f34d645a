-- ===== src/Client/Session/Calls.antt =====
-- What a call of `send_request_async` puts on the wire and registers, and what its timeout leaves.
use windrpc.Base.{
  ℕ, ◌+◌, ◌/◌, ◌%◌, ◌≡◌, ◌≢◌, refl, Bool, true, false, none, some, [], ◌∷◌, ◌++◌, arith,
  if◌then◌else◌, length, get_elem?, append-nil, ◌⊎◌, inl, inr,
}
use windrpc.Base.Dict.{get, put, get-pop, get-put}
use windrpc.Base.Result.{
  Result, ok, raise, struct_error, timeout_error, cancelled_error, callback_error, ◌>>=◌,
}
use windrpc.Client.Cobs.{Bytes, cobs_encode, cobs_decode}
use windrpc.Client.Cobs.RoundTrip.{cobs_decode-cobs_encode}
use windrpc.Client.Frame.{WindRpcFrame, pack_frame, unpack_frame}
use windrpc.Client.Frame.RoundTrip.{unpack_frame-pack_frame, pack_frame_lem}
use windrpc.Client.Session.{WindRpcClient, waiting, cancelled}
use windrpc.Client.Session.Laws.{settle_self, get_elem?-append_last}
use windrpc.Client.Session.Receive.{Callback, receive_raw_datagram}
use windrpc.Client.Session.Request.{Sent, send_request, await_future, expire}
use windrpc.Client.Session.Answers.{LowId, response_answers, unknown_response}

-- how a peer reads what a transport carries: a COBS frame without its stream, or a datagram
abbrev pub read_packet : Bool → Bytes → Result WindRpcFrame
read_packet cobs_encode_frame wire =
    if cobs_encode_frame then (cobs_decode wire >>= unpack_frame) else unpack_frame wire

module _ (raises : Bytes → Bool) (cobs : Bool) (now rpc_id : ℕ) (payload : Bytes)
    (c : WindRpcClient) where
  abbrev pub call : Sent
  call = send_request raises cobs now rpc_id payload c

  abbrev pub wire : Bytes → Bytes
  wire packet = if cobs then cobs_encode packet else packet

  pub send_cases :
      ((packet : Bytes) × (pack_frame rpc_id c.next_seq_id payload ≡ ok packet)
        × (call.sent ≡ wire packet ∷ [])
        × (call.returned ≡ (
            if raises (wire packet)
            then raise callback_error
            else ok (c.next_seq_id, length c.futures)))
        × (call.client.pending_requests
            ≡ put c.next_seq_id (length c.futures, now) c.pending_requests)
        × (call.client.futures ≡ c.futures ++ waiting ∷ []))
      ⊎ ((pack_frame rpc_id c.next_seq_id payload ≡ raise struct_error)
          × (call.sent ≡ [])
          × (call.returned ≡ raise struct_error)
          × (call.client.pending_requests ≡ c.pending_requests)
          × (call.client.futures ≡ c.futures))
  unfolding send_request
  send_cases = elim (pack_frame_lem rpc_id c.next_seq_id payload) [
    | inl (a, b, n, (packet, e, size)) ↦ inl (packet, e, rw e, rw e, rw e, rw e)
    | inr (bad, e) ↦ inr (e, rw e, rw e, rw e, rw e)
  ]

  pub send_rest :
      (call.client.next_seq_id ≡ c.next_seq_id % 65535 + 1) × (call.client.rx_buffer ≡ c.rx_buffer)
  unfolding send_request
  send_rest = elim (pack_frame_lem rpc_id c.next_seq_id payload) [
    | inl (_, _, _, (packet, e, _)) ↦ rw e (refl, refl)
    | inr (_, e) ↦ rw e (refl, refl)
  ]

  read_wire : (packet : Bytes) → read_packet cobs (wire packet) ≡ unpack_frame packet
  read_wire packet = by_mode cobs
    where
      by_mode :
          (mode : Bool)
          → read_packet mode (if mode then cobs_encode packet else packet) ≡ unpack_frame packet
      by_mode true = rw (cobs_decode-cobs_encode packet)
      by_mode false = refl

  module _ (s fut : ℕ) (started : call.returned ≡ ok (s, fut)) where
    pub started_cases :
        (packet : Bytes) × (pack_frame rpc_id s payload ≡ ok packet)
        × (call.sent ≡ wire packet ∷ [])
        × (s ≡ c.next_seq_id)
        × (fut ≡ length c.futures)
        × (call.client.pending_requests ≡ put s (fut, now) c.pending_requests)
        × (call.client.futures ≡ c.futures ++ waiting ∷ [])
    started_cases = elim send_cases [
      | inl (packet, e, sent, returned, pending, futures) ↦
          let same : (s ≡ c.next_seq_id) × (fut ≡ length c.futures) = ground arith in
          (packet, rw (same.0) e, sent, same.0, same.1, rw (same.0, same.1) pending, futures)
      | inr (e, sent, returned, pending, futures) ↦ absurd (cc)
    ]

    -- A request that is under way has made one call of the transport, with bytes from which its
    -- peer reads the identifier, the sequence number and the payload of the request.
    pub send_request-wire :
        (data' : Bytes) × (call.sent ≡ data' ∷ [])
        × (read_packet cobs data' ≡ ok (record { rpc_id = rpc_id; seq_id = s; payload = payload }))
    send_request-wire =
        let (packet, e, sent, _, _, _, _) = started_cases in
        (
          wire packet,
          sent,
          rw (read_wire packet)
              (rw append-nil at (unpack_frame-pack_frame rpc_id s payload [] packet e)),
        )

    pub send_registers :
        (get s call.client.pending_requests ≡ some (fut, now))
        × (get_elem? call.client.futures fut ≡ some waiting)
    send_registers =
        let (_, _, _, _, last, pending, futures) = started_cases in
        (
          rw pending (ground (arith, get-put s s (fut, now) c.pending_requests)),
          rw (futures, last) (get_elem?-append_last c.futures waiting),
        )

    -- A response, whose identifier is not zero and has bit 7 clear, with the sequence number of a
    -- request that is under way resolves that request with its payload.
    pub send_request-response :
        (cb : Callback) (r : ℕ) (answer packet : Bytes)
        → pack_frame r s answer ≡ ok packet
        → r ≢ 0
        → LowId r
        → await_future fut (receive_raw_datagram cb packet call.client).client
          ≡ some (ok (record { rpc_id = r; seq_id = s; payload = answer }))
    send_request-response cb r answer packet e nz low = ground (
      arith,
      response_answers cb r s answer packet e call.client fut now send_registers.0 send_registers.1
          nz low s fut,
    )

-- A request whose time is up while its future waits raises `TimeoutError` and is no longer
-- pending; a frame with its sequence number and bit 7 clear in its identifier then changes
-- nothing.
pub late_response :
    (cb : Callback) (r s fut : ℕ) (answer packet : Bytes) (c : WindRpcClient)
    → get_elem? c.futures fut ≡ some waiting
    → pack_frame r s answer ≡ ok packet
    → r / 128 % 2 ≡ 0
    → ((expire s fut c).1 ≡ raise timeout_error)
      × (await_future fut (expire s fut c).0 ≡ some (raise cancelled_error))
      × (get s (expire s fut c).0.pending_requests ≡ none)
      × ((receive_raw_datagram cb packet (expire s fut c).0).client ≡ (expire s fut c).0)
late_response cb r s fut answer packet c waits e low =
    let gone : get s (expire s fut c).0.pending_requests ≡ none =
      unfold expire in rw waits (ground (arith, get-pop s s c.pending_requests)) in
    (
      unfold expire in rw waits,
      unfold expire await_future in rw (waits, settle_self fut cancelled c.futures waits),
      gone,
      unknown_response cb r s answer packet e (expire s fut c).0 low gone,
    )
