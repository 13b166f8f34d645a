-- ===== src/Server/Runtime/Answers.antt =====
-- What the server sends for a frame.
use windrpc.Base.{
  ℕ, ◌+◌, ◌-◌, ◌*◌, ◌/◌, ◌%◌, ◌≤◌, ◌<◌, ◌≡◌, refl, ap, true, false, Option, none, some, [], ◌∷◌,
  arith, ltb, length, take, inl, inr, Bool-cases,
}
use windrpc.Base.Text.{Str, codes, str_eq}
use windrpc.Base.Result.{ok}
use windrpc.Spec.{ℤ, pos}
use windrpc.Validator.Unique.{int_eq}
use windrpc.Client.Cobs.{Bytes}
use windrpc.Client.Frame.{pack_frame}
use windrpc.Client.Frame.RoundTrip.{pack_frame-eq-ok, take-length-append}
use windrpc.Server.Dispatch.{HandlerEntry, find_flat_handler}
use windrpc.Server.Runtime.{
  Context, Executed, Platform, WireType, varint, string, encode_message, encode_status, Tables,
  Buffer, Handled, written, no_room, send_flat_error_response, send_encoded, encode_response,
  respond, decode_request, run_handler, handle_found, windrpc_handle, flat_struct, is_given,
  empty_context, not_found, message_or, windrpc_strerror,
}

bytes_or : Option Bytes → Bytes
bytes_or none = []
bytes_or (some b) = b

-- nanopb writes no more than there is room for
pub record StreamsFit {Msg : Type 0} (p : Platform Msg) : Type 0 where
  pub encoded :
      (fields : Str) (m : Msg) (room : ℕ) (payload : Bytes)
      → p.pb_encode fields m room ≡ some payload
      → length payload ≤ room
  pub tag :
      (room : ℕ) (stream : Bytes) (wire_type : WireType) (number : ℕ)
      → length stream ≤ room
      → length (p.pb_encode_tag room stream wire_type number) ≤ room
  pub svarint :
      (room : ℕ) (stream : Bytes) (value : ℤ)
      → length stream ≤ room
      → length (p.pb_encode_svarint room stream value) ≤ room
  pub string :
      (room : ℕ) (stream : Bytes) (text : Str)
      → length stream ≤ room
      → length (p.pb_encode_string room stream text) ≤ room

encode_message-le :
    {Msg : Type 0} (p : Platform Msg) (room : ℕ) (text : Str) (stream : Bytes)
    → StreamsFit p
    → length stream ≤ room
    → length (encode_message p room text stream) ≤ room
unfolding encode_message
encode_message-le p room [] stream fit h = h
encode_message-le p room (c ∷ text) stream fit h =
    fit.string room (p.pb_encode_tag room stream string 2) (take (p.message_size - 1) (c ∷ text))
      (fit.tag room stream string 2 h)

encode_status-le :
    {Msg : Type 0} (p : Platform Msg) (room : ℕ) (code : ℤ) (text : Str)
    → StreamsFit p
    → length (encode_status p room code text) ≤ room
unfolding encode_status
encode_status-le p room code text fit =
    encode_message-le p room text (p.pb_encode_svarint room (p.pb_encode_tag room [] varint 1) code)
      fit
      (fit.svarint room (p.pb_encode_tag room [] varint 1) code
        (fit.tag room [] varint 1 (omega arith)))

-- a frame of a given identifier and number is what is in a buffer of the given size
pub record Answers (room rpc_id seq_id : ℕ) (payload : Bytes) (h : Handled) : Type 0 where
  pub frame : pack_frame rpc_id seq_id payload ≡ ok h.tx_data
  pub size : h.bytes_written ≡ length h.tx_data
  pub some_bytes : 6 ≤ length h.tx_data
  pub fits : length h.tx_data ≤ room
  pub returned : h.returned ≡ pos 0

written-Answers :
    (room rpc_id seq_id : ℕ) (payload : Bytes) (ctx : Context)
    → room < 65536
    → rpc_id < 65536
    → seq_id < 65536
    → length payload + 6 ≤ room
    → Answers room rpc_id seq_id payload (written rpc_id seq_id payload ctx)
written-Answers room rpc_id seq_id payload ctx hn hr hs hp = record {
  frame = unfold written pack_frame in ground arith;
  size = unfold written in ground arith;
  some_bytes = unfold written in omega arith;
  fits = unfold written in omega arith;
  returned = unfold written in refl;
}

-- what the server does with a request behind its row
module _ {Msg : Type 0} (p : Platform Msg) (buffer : Buffer) (tables : Tables) (rpc_id : ℕ)
    (payload : Bytes) where
  -- the outcome of decoding the payload for a row
  abbrev pub request_of : HandlerEntry → Option (Option Msg)
  request_of handler =
      decode_request p buffer handler (flat_struct rpc_id tables.req_structs) payload

  -- what the row's handler does with a request
  abbrev pub executed : HandlerEntry → Option Msg → Executed Msg
  executed handler request =
      p.execute handler.execute request (is_given (flat_struct rpc_id tables.res_structs))
        empty_context

  -- the outcome of encoding its response
  abbrev pub response_of : HandlerEntry → Option Msg → Option Bytes
  response_of handler request =
      encode_response p buffer handler (flat_struct rpc_id tables.res_structs)
        (executed handler request).response

  -- the request is carried out, and its response is `answer`
  pub record Succeeds (answer : Bytes) : Type 0 where
    pub handler : HandlerEntry
    pub request : Option Msg
    pub found : find_flat_handler rpc_id tables.dispatch_table ≡ some handler
    pub decodes : request_of handler ≡ some request
    pub returned : int_eq (executed handler request).returned (pos 0) ≡ true
    pub has_response : handler.has_response ≡ true
    pub encodes : response_of handler request ≡ some answer

  -- the ways in which a request fails
  pub data Fails : Type 0 where
    unknown_rpc : find_flat_handler rpc_id tables.dispatch_table ≡ none → Fails
    bad_payload :
        (handler : HandlerEntry)
        → find_flat_handler rpc_id tables.dispatch_table ≡ some handler
        → request_of handler ≡ none
        → Fails
    handler_failed :
        (handler : HandlerEntry) (request : Option Msg)
        → find_flat_handler rpc_id tables.dispatch_table ≡ some handler
        → request_of handler ≡ some request
        → int_eq (executed handler request).returned (pos 0) ≡ false
        → Fails
    not_encoded :
        (handler : HandlerEntry) (request : Option Msg)
        → find_flat_handler rpc_id tables.dispatch_table ≡ some handler
        → request_of handler ≡ some request
        → int_eq (executed handler request).returned (pos 0) ≡ true
        → handler.has_response ≡ true
        → response_of handler request ≡ none
        → Fails

module _ {Msg : Type 0} (p : Platform Msg) (fit : StreamsFit p) (buffer : Buffer)
    (room : no_room buffer ≡ false) (small : buffer.tx_size < 65536) where
  large : 6 ≤ buffer.tx_size
  unfolding no_room
  large = ground arith

  error-Answers :
      (seq_id : ℕ) (code : ℤ) (text : Str) (ctx : Context)
      → seq_id < 65536
      → Answers buffer.tx_size 0 seq_id
          (encode_status p (buffer.tx_size - 6) code text)
          (send_flat_error_response p buffer seq_id code text ctx)
  unfolding send_flat_error_response
  error-Answers seq_id code text ctx h = rw room (
      written-Answers buffer.tx_size 0 seq_id (encode_status p (buffer.tx_size - 6) code text) ctx
        small (omega arith) h
        (omega (arith, large, encode_status-le p (buffer.tx_size - 6) code text fit)))

  -- what the server does with a frame goes by its identifier, its number and its payload
  module _ (tables : Tables) (rpc_id seq_id : ℕ) (payload packet beyond : Bytes)
      (packed : pack_frame rpc_id seq_id payload ≡ ok packet) where
    handle-found :
        windrpc_handle p buffer tables packet beyond
        ≡ handle_found p buffer tables rpc_id seq_id payload
            (find_flat_handler rpc_id tables.dispatch_table)
    unfolding windrpc_handle
    handle-found =
        let (hr, hs, hp, e) = pack_frame-eq-ok rpc_id seq_id payload packed in
        let r : rpc_id % 256 + 256 * (rpc_id / 256) ≡ rpc_id = omega arith in
        let s : seq_id % 256 + 256 * (seq_id / 256) ≡ seq_id = omega arith in
        let n : length payload % 256 + 256 * (length payload / 256) ≡ length payload =
          omega arith in
        let long_packet : ltb
              (length (
                rpc_id % 256
                ∷ rpc_id / 256
                ∷ seq_id % 256
                ∷ seq_id / 256
                ∷ length payload % 256
                ∷ length payload / 256
                ∷ payload))
              6
            ≡ false =
          ground arith in
        rw e (rw (long_packet, r, s, n, take-length-append payload beyond))

    encode_response-le :
        (handler : HandlerEntry) (ptr : Option Str) (m : Msg) (answer : Bytes)
        → encode_response p buffer handler ptr m ≡ some answer
        → length answer + 6 ≤ buffer.tx_size
    unfolding encode_response bytes_or
    encode_response-le handler none m answer h =
        omega (arith, large, ap (λ o. length (bytes_or o)) h)
    encode_response-le handler (some name) m answer h =
        elim (Bool-cases (str_eq handler.res_fields (codes "NULL"))) [
          | inl null ↦ omega (arith, large, ap (λ o. length (bytes_or o)) (rw null at h))
          | inr other ↦ omega (
            arith,
            large,
            fit.encoded handler.res_fields m (buffer.tx_size - 6) answer (rw other at h),
          )
        ]

    -- A request that is carried out is answered with its response.
    pub windrpc_handle-Succeeds :
        (answer : Bytes)
        → Succeeds p buffer tables rpc_id payload answer
        → Answers buffer.tx_size rpc_id seq_id answer (windrpc_handle p buffer tables packet beyond)
    unfolding handle_found run_handler respond send_encoded
    windrpc_handle-Succeeds answer s =
        let (hr, hs, hp, e) = pack_frame-eq-ok rpc_id seq_id payload packed in
        let h : HandlerEntry = s.handler in
        rw (handle-found, s.found, s.decodes, s.returned, s.has_response, room, s.encodes)
          (written-Answers buffer.tx_size rpc_id seq_id answer
            (executed p buffer tables rpc_id payload h s.request).context small hr hs
            (encode_response-le h (flat_struct rpc_id tables.res_structs) _ answer s.encodes))

    small_seq : seq_id < 65536
    small_seq = (pack_frame-eq-ok rpc_id seq_id payload packed).1

    -- A request that fails is answered with a system error.
    pub windrpc_handle-Fails :
        Fails p buffer tables rpc_id payload
        → (code : ℤ) × (text : Str) × Answers buffer.tx_size 0 seq_id
            (encode_status p (buffer.tx_size - 6) code text)
            (windrpc_handle p buffer tables packet beyond)
    unfolding handle_found run_handler respond send_encoded
    windrpc_handle-Fails (unknown_rpc e) = (
      pos 12,
      not_found rpc_id,
      rw (handle-found, e) (error-Answers seq_id (pos 12) (not_found rpc_id) _ small_seq),
    )
    windrpc_handle-Fails (bad_payload handler found e) = (
      pos 17,
      codes "Invalid data format",
      rw (handle-found, found, e)
          (error-Answers seq_id (pos 17) (codes "Invalid data format") _ small_seq),
    )
    windrpc_handle-Fails (handler_failed handler request found e failed) =
        let done : Executed Msg = executed p buffer tables rpc_id payload handler request in
        let text : Str = message_or done.context.status_message (windrpc_strerror done.returned) in
        (
          done.returned,
          text,
          rw (handle-found, found, e, failed) (error-Answers seq_id done.returned text _ small_seq),
        )
    windrpc_handle-Fails (not_encoded handler request found e returned has_response none_encoded) =
        (
          pos 13,
          codes "Failed to encode response",
          rw (handle-found, found, e, returned, has_response, room, none_encoded)
              (error-Answers seq_id (pos 13) (codes "Failed to encode response") _ small_seq),
        )
