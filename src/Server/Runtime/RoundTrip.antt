-- ===== src/Server/Runtime/RoundTrip.antt =====
-- A request of the Python client that the C server handles.
use windrpc.Base.{
  ℕ, ◌%◌, ◌-◌, ◌≤◌, ◌<◌, ◌≡◌, ◌≢◌, refl, ap, Bool, true, false, Option, some, [], ◌∷◌, arith, ltb,
  if◌then◌else◌, length, take_all, drop_all,
}
use windrpc.Base.Result.{Result, ok, raise, runtime_error}
use windrpc.Spec.{ℤ, pos, negsuc}
use windrpc.Client.Cobs.{Bytes}
use windrpc.Client.Frame.{WindRpcFrame, pack_frame}
use windrpc.Client.Frame.RoundTrip.{pack_frame-eq-ok}
use windrpc.Client.Session.{WindRpcClient}
use windrpc.Client.Session.Receive.{Callback, receive_raw_datagram}
use windrpc.Client.Session.Request.{send_request, await_future}
use windrpc.Client.Session.Answers.{LowId, system_error_answers}
use windrpc.Client.Session.Calls.{started_cases, send_registers, send_request-response}
use windrpc.Server.Runtime.{
  Platform, encode_status, Tables, Buffer, Handled, windrpc_handle, copied, no_room,
  windrpc_process_packet,
}
use windrpc.Server.Runtime.Answers.{
  StreamsFit, Answers, Succeeds, Fails, windrpc_handle-Succeeds, windrpc_handle-Fails,
}

copied-Answers :
    (room rpc_id seq_id : ℕ) (payload : Bytes) (h : Handled) (max_resp_len : ℕ)
    → Answers room rpc_id seq_id payload h
    → room ≤ max_resp_len
    → copied max_resp_len h ≡ (pos 0, h.tx_data)
unfolding copied
copied-Answers room rpc_id seq_id payload h max_resp_len a le =
    let some_sent : ltb 0 h.bytes_written ≡ true = ground (arith, a.size, a.some_bytes) in
    let all : (if ltb h.bytes_written max_resp_len then h.bytes_written else max_resp_len)
        ≡ length h.tx_data =
      ground (arith, a.size, a.fits) in
    rw (some_sent, all, take_all h.tx_data, a.returned)

packet-ge :
    (rpc_id seq_id : ℕ) (payload packet : Bytes)
    → pack_frame rpc_id seq_id payload ≡ ok packet
    → ltb (length packet) 6 ≡ false
packet-ge rpc_id seq_id payload packet h = ground (arith, pack_frame-eq-ok rpc_id seq_id payload h)

packet-lt :
    (rpc_id seq_id : ℕ) (payload packet : Bytes)
    → pack_frame rpc_id seq_id payload ≡ ok packet
    → length payload < 65530
    → length packet < 65536
packet-lt rpc_id seq_id payload packet h short =
    ground (arith, pack_frame-eq-ok rpc_id seq_id payload h)

-- `tx_raw_buf`
abbrev pub raw_buffer : ℕ → Buffer
raw_buffer max_buffer_size = record { tx_given = true; tx_size = max_buffer_size }

module _ {Msg : Type 0} (p : Platform Msg) (fit : StreamsFit p) (max_buffer_size : ℕ)
    (large : 6 ≤ max_buffer_size) (small : max_buffer_size < 65536) (tables : Tables)
    (max_resp_len : ℕ) (copies : max_buffer_size ≤ max_resp_len) (beyond : Bytes) where
  -- the response of the server to a packet
  abbrev pub reply : Bytes → Bytes
  reply packet = (windrpc_process_packet p max_buffer_size tables max_resp_len packet beyond).1

  room : no_room (raw_buffer max_buffer_size) ≡ false
  unfolding no_room
  room = ground arith

  process_lem :
      (packet : Bytes)
      → length packet < 65536
      → windrpc_process_packet p max_buffer_size tables max_resp_len packet beyond ≡ (
          if ltb (length packet) 6
          then (negsuc 0, [])
          else copied max_resp_len
              (windrpc_handle p (raw_buffer max_buffer_size) tables packet beyond))
  unfolding windrpc_process_packet
  process_lem packet fits =
      let whole : length packet % 65536 ≡ length packet = omega arith in
      rw (whole, take_all packet, drop_all packet) refl

  reply_of :
      (rpc_id seq_id : ℕ) (payload packet : Bytes) (r : ℕ) (answer : Bytes)
      → pack_frame rpc_id seq_id payload ≡ ok packet
      → length payload < 65530
      → Answers max_buffer_size r seq_id answer
          (windrpc_handle p (raw_buffer max_buffer_size) tables packet beyond)
      → reply packet ≡ (windrpc_handle p (raw_buffer max_buffer_size) tables packet beyond).tx_data
  reply_of rpc_id seq_id payload packet r answer packed short a =
      let h : Handled = windrpc_handle p (raw_buffer max_buffer_size) tables packet beyond in
      let sent : windrpc_process_packet p max_buffer_size tables max_resp_len packet beyond
          ≡ (pos 0, h.tx_data) =
        rw
          (
            process_lem packet (packet-lt rpc_id seq_id payload packet packed short),
            packet-ge rpc_id seq_id payload packet packed,
          )
          (copied-Answers max_buffer_size r seq_id answer h max_resp_len a copies) in
      ap (λ (x : ℤ × Bytes). x.1) sent

  module _ (raises : Bytes → Bool) (now rpc_id : ℕ) (payload : Bytes) (c : WindRpcClient)
      (cb : Callback) (s fut : ℕ)
      (started : (send_request raises false now rpc_id payload c).returned ≡ ok (s, fut)) where
    abbrev pub waiting_client : WindRpcClient
    waiting_client = (send_request raises false now rpc_id payload c).client

    -- what the caller gets when a reply has come
    abbrev pub caller_gets : Bytes → Option (Result WindRpcFrame)
    caller_gets packet =
        await_future fut (receive_raw_datagram cb (reply packet) waiting_client).client

    -- A request that goes out as a datagram, with an identifier that is not 0 and has bit 7 clear and a
    -- payload of less than 65530 bytes, is resolved with the response of its handler when the server
    -- has carried it out and its reply is received next. The server's buffer for the response
    -- here has at least 6 and less than 65536 bytes, the place that the response is copied to has room
    -- for as much, and nanopb writes no more than there is room for.
    pub send_request-windrpc_process_packet :
        (answer : Bytes)
        → Succeeds p (raw_buffer max_buffer_size) tables rpc_id payload answer
        → rpc_id ≢ 0
        → LowId rpc_id
        → length payload < 65530
        → (packet : Bytes) × ((send_request raises false now rpc_id payload c).sent ≡ packet ∷ [])
          × (caller_gets packet
              ≡ some (ok (record { rpc_id = rpc_id; seq_id = s; payload = answer })))
    send_request-windrpc_process_packet answer done nz low short =
        let (packet, packed, sent, _, _, _, _) =
          started_cases raises false now rpc_id payload c s fut started in
        let a : Answers max_buffer_size rpc_id s answer
            (windrpc_handle p (raw_buffer max_buffer_size) tables packet beyond) =
          windrpc_handle-Succeeds p fit (raw_buffer max_buffer_size) room small tables rpc_id s
            payload packet beyond packed answer done in
        (
          packet,
          sent,
          rw (reply_of rpc_id s payload packet rpc_id answer packed short a) (
              send_request-response raises false now rpc_id payload c s fut started cb rpc_id answer
                (windrpc_handle p (raw_buffer max_buffer_size) tables packet beyond).tx_data a.frame
                nz low),
        )

    -- A request that goes out as a datagram, with a payload of less than 65530 bytes, raises
    -- `RuntimeError` for the caller when it fails on the server, because of its identifier, its
    -- payload, its handler or its response, and the reply is received next. The server's buffer for the response
    -- here has at least 6 and less than 65536 bytes, the place that the response is copied to has room
    -- for as much, and nanopb writes no more than there is room for.
    pub send_request-Fails :
        Fails p (raw_buffer max_buffer_size) tables rpc_id payload
        → length payload < 65530
        → (packet : Bytes) × ((send_request raises false now rpc_id payload c).sent ≡ packet ∷ [])
          × (caller_gets packet ≡ some (raise runtime_error))
    send_request-Fails failed short =
        let (packet, packed, sent, _, _, _, _) =
          started_cases raises false now rpc_id payload c s fut started in
        let (code, text, a) =
          windrpc_handle-Fails p fit (raw_buffer max_buffer_size) room small tables rpc_id s payload
            packet beyond packed failed in
        let status : Bytes = encode_status p (max_buffer_size - 6) code text in
        let (pending, waits) = send_registers raises false now rpc_id payload c s fut started in
        (
          packet,
          sent,
          rw (reply_of rpc_id s payload packet 0 status packed short a) (
              ground (
                arith,
                system_error_answers cb 0 s status
                    (windrpc_handle p (raw_buffer max_buffer_size) tables packet beyond).tx_data
                    a.frame waiting_client fut now pending waits refl s fut,
              )),
        )
