-- ===== src/Server/Runtime.antt =====
-- windrpc/server/templates/windrpc.c: the handler of packets on the server. `Platform` stands for
-- nanopb and for the functions of the application; a message has the type `Msg`. The packet and the
-- places for the response are there: the tests of these pointers for `NULL` are not modelled. A text
-- in the context has the room that it needs.

pub mod Answers
pub mod Examples
pub mod RoundTrip
use windrpc.Base.{
  ℕ, zero, suc, ◌+◌, ◌-◌, ◌/◌, ◌%◌, Bool, true, false, not, ◌||◌, Option, none, some, List, [], ◌∷◌,
  ◌++◌, map, ltb, ◌==◌, if◌then◌else◌, length, take, drop, get_elem?,
}
use windrpc.Base.Text.{Str, codes, str_eq}
use windrpc.Spec.{ℤ, pos, negsuc}
use windrpc.Validator.Unique.{int_eq}
use windrpc.Client.Cobs.{Bytes}
use windrpc.Client.Frame.{word_at}
use windrpc.Server.Dispatch.{HandlerEntry, find_flat_handler}

-- `struct windrpc_context`, without the handler
pub record Context : Type 0 where
  pub status_code : ℤ
  pub status_message : Str

-- `memset(ctx, 0, …)`
abbrev pub empty_context : Context
empty_context = record { status_code = pos 0; status_message = [] }

-- what a handler returns, and leaves in the context and behind `res`
pub record Executed (Msg : Type 0) : Type 0 where
  pub returned : ℤ
  pub context : Context
  pub response : Msg

-- `PB_WT_VARINT` and `PB_WT_STRING`
pub data WireType : Type 0 where
  varint : WireType
  string : WireType

-- nanopb, given the name of a message's fields and the room in the stream, and the handlers of the
-- application, given their name, the request, unless it is `NULL`, and whether there is a response. A
-- function that writes a part of a message gets the room of the stream and the bytes in it, and gives
-- the bytes that are in it then. `message_size` is the size of `status_msg.message`.
pub record Platform (Msg : Type 0) : Type 0 where
  pub pb_decode : Str → Bytes → Option Msg
  pub pb_encode : Str → Msg → ℕ → Option Bytes
  pub pb_encode_tag : ℕ → Bytes → WireType → ℕ → Bytes
  pub pb_encode_svarint : ℕ → Bytes → ℤ → Bytes
  pub pb_encode_string : ℕ → Bytes → Str → Bytes
  pub message_size : ℕ
  pub zeroed : Str → Msg
  pub execute : Str → Option Msg → Bool → Context → Executed Msg

-- what the generator writes: the rows, and the buffers of the requests and of the responses
pub record Tables : Type 0 where
  pub dispatch_table : List HandlerEntry
  pub req_structs : List (ℕ × Str)
  pub res_structs : List (ℕ × Str)

-- `tx_data`, if it is not `NULL`, and `tx_size`, a `uint16_t`
pub record Buffer : Type 0 where
  pub tx_given : Bool
  pub tx_size : ℕ

-- what a call returns, and leaves in `tx_data` from its start, `bytes_written` and the context
pub record Handled : Type 0 where
  pub returned : ℤ
  pub tx_data : Bytes
  pub bytes_written : ℕ
  pub context : Context

unfoldable pub low_byte : ℕ → ℕ
low_byte n = n % 256

unfoldable pub high_byte : ℕ → ℕ
high_byte n = n / 256 % 256

-- `tx_data[0]` to `tx_data[5]`
unfoldable pub header : ℕ → ℕ → ℕ → Bytes
unfolding low_byte high_byte
header rpc_id seq_id len =
    low_byte rpc_id
    ∷ high_byte rpc_id
    ∷ low_byte seq_id
    ∷ high_byte seq_id
    ∷ low_byte len
    ∷ high_byte len
    ∷ []

-- the frame that is in the buffer when its payload has been encoded
unfoldable pub written : ℕ → ℕ → Bytes → Context → Handled
unfolding header
written rpc_id seq_id payload ctx = record {
  returned = pos 0;
  tx_data = header rpc_id seq_id (length payload) ++ payload;
  bytes_written = (6 + length payload % 65536) % 65536;
  context = ctx;
}

-- nothing is sent
unfoldable pub no_answer : ℤ → Context → Handled
no_answer status ctx = record { returned = status; tx_data = []; bytes_written = 0; context = ctx }

-- `!tx_data || buffer->tx_size < 6`
unfoldable pub no_room : Buffer → Bool
no_room buffer = not buffer.tx_given || ltb buffer.tx_size 6

status_texts : List Str
status_texts = map codes (
    "OK" ∷ "Cancelled" ∷ "Unknown error" ∷ "Invalid argument" ∷ "Deadline exceeded"
    ∷ "Resource not found" ∷ "Resource already exists" ∷ "Permission denied" ∷ "Resource exhausted"
    ∷ "Failed precondition" ∷ "Operation aborted" ∷ "Out of range" ∷ "Unimplemented"
    ∷ "Internal error" ∷ "Service unavailable" ∷ "Data loss" ∷ "Unauthenticated"
    ∷ "Invalid data format" ∷ "Missing required field" ∷ "Version mismatch" ∷ [])

or_unknown : Option Str → Str
or_unknown none = codes "Unknown status code"
or_unknown (some t) = t

unfoldable pub windrpc_strerror : ℤ → Str
unfolding status_texts or_unknown
windrpc_strerror (pos n) = or_unknown (get_elem? status_texts n)
windrpc_strerror (negsuc n) = or_unknown none

hex_digit : ℕ → ℕ
hex_digit n = if ltb n 10 then 48 + n else 55 + n

-- `RPC ID 0x%04X not found`
unfoldable pub not_found : ℕ → Str
unfolding hex_digit
not_found n =
    codes "RPC ID 0x"
    ++ (hex_digit (n / 4096 % 16)
        ∷ hex_digit (n / 256 % 16)
        ∷ hex_digit (n / 16 % 16)
        ∷ hex_digit (n % 16)
        ∷ [])
    ++ codes " not found"

-- `ctx->status_message`, or the text of the status if it is empty
unfoldable pub message_or : Str → Str → Str
message_or [] text = text
message_or (c ∷ message) text = c ∷ message

-- `windrpc_get_flat_req_struct` and `windrpc_get_flat_res_struct`: nothing stands for `NULL`
unfoldable pub flat_struct : ℕ → List (ℕ × Str) → Option Str
flat_struct rpc_id [] = none
flat_struct rpc_id ((id, name) ∷ structs) =
    if id == rpc_id then some name else flat_struct rpc_id structs

unfoldable pub is_given : {A : Type 0} → Option A → Bool
is_given none = false
is_given (some a) = true

module _ {Msg : Type 0} (p : Platform Msg) (room : ℕ) where
  unfoldable pub encode_message : Str → Bytes → Bytes
  encode_message [] stream = stream
  encode_message (c ∷ message) stream =
      p.pb_encode_string room (p.pb_encode_tag room stream string 2)
        (take (p.message_size - 1) (c ∷ message))

  -- what is in the stream when the status has been encoded
  unfoldable pub encode_status : ℤ → Str → Bytes
  unfolding encode_message
  encode_status code message =
      encode_message message (p.pb_encode_svarint room (p.pb_encode_tag room [] varint 1) code)

module _ {Msg : Type 0} (p : Platform Msg) (buffer : Buffer) where
  unfoldable pub send_flat_error_response : ℕ → ℤ → Str → Context → Handled
  unfolding written no_answer no_room encode_status
  send_flat_error_response seq_id code message ctx =
      if no_room buffer
      then no_answer (negsuc 0) ctx
      else written 0 seq_id (encode_status p (buffer.tx_size - 6) code message) ctx

  unfoldable pub send_encoded : ℕ → ℕ → Context → Option Bytes → Handled
  unfolding send_flat_error_response
  send_encoded rpc_id seq_id ctx none =
      send_flat_error_response seq_id (pos 13) (codes "Failed to encode response") ctx
  send_encoded rpc_id seq_id ctx (some payload) = written rpc_id seq_id payload ctx

  -- what is in the stream; nothing if `pb_encode` fails
  unfoldable pub encode_response : HandlerEntry → Option Str → Msg → Option Bytes
  encode_response handler none response = some []
  encode_response handler (some name) response =
      if str_eq handler.res_fields (codes "NULL")
      then some []
      else p.pb_encode handler.res_fields response (buffer.tx_size - 6)

  -- what follows the call of the handler
  unfoldable pub respond : HandlerEntry → ℕ → ℕ → Option Str → Executed Msg → Handled
  unfolding send_encoded encode_response message_or windrpc_strerror
  respond handler rpc_id seq_id res_ptr done =
      if not (int_eq done.returned (pos 0))
      then send_flat_error_response seq_id done.returned
          (message_or done.context.status_message (windrpc_strerror done.returned))
          (record done.context { status_code = done.returned })
      else if not handler.has_response
      then no_answer (pos 0) done.context
      else if no_room buffer
      then no_answer (negsuc 0) done.context
      else send_encoded rpc_id seq_id done.context (encode_response handler res_ptr done.response)

  decoded : Option Msg → Option (Option Msg)
  decoded none = none
  decoded (some m) = some (some m)

  -- the request that the handler gets: `NULL`, an empty message, or what was decoded; nothing if
  -- `pb_decode` fails
  unfoldable pub decode_request : HandlerEntry → Option Str → Bytes → Option (Option Msg)
  unfolding decoded
  decode_request handler none input = some none
  decode_request handler (some name) input =
      if str_eq handler.req_fields (codes "NULL")
      then some (some (p.zeroed name))
      else decoded (p.pb_decode handler.req_fields input)

  unfoldable pub run_handler : HandlerEntry → ℕ → ℕ → Option Str → Option (Option Msg) → Handled
  unfolding respond send_flat_error_response is_given
  run_handler handler rpc_id seq_id res_ptr none =
      send_flat_error_response seq_id (pos 17) (codes "Invalid data format")
        (record { status_code = pos 17; status_message = codes "Invalid data format" })
  run_handler handler rpc_id seq_id res_ptr (some request) =
      respond handler rpc_id seq_id res_ptr
        (p.execute handler.execute request (is_given res_ptr) empty_context)

  -- what is done with the row that is found, given the bytes that the stream holds
  unfoldable pub handle_found : Tables → ℕ → ℕ → Bytes → Option HandlerEntry → Handled
  unfolding run_handler decode_request not_found flat_struct send_flat_error_response
  handle_found tables rpc_id seq_id input none =
      send_flat_error_response seq_id (pos 12) (not_found rpc_id)
        (record { status_code = pos 12; status_message = not_found rpc_id })
  handle_found tables rpc_id seq_id input (some handler) =
      run_handler handler rpc_id seq_id (flat_struct rpc_id tables.res_structs)
        (decode_request handler (flat_struct rpc_id tables.req_structs) input)

  -- `windrpc_handle` of a packet; `beyond` is the memory behind it, which the stream of the request
  -- reaches where the header says so
  unfoldable pub windrpc_handle : Tables → Bytes → Bytes → Handled
  unfolding handle_found word_at no_answer find_flat_handler
  windrpc_handle tables packet beyond =
      if ltb (length packet) 6
      then record {
        returned = negsuc 0;
        tx_data = [];
        bytes_written = length packet;
        context = record { status_code = pos 17; status_message = [] };
      }
      else handle_found tables (word_at packet 0) (word_at packet 2)
          (take (word_at packet 4) (drop 6 (packet ++ beyond)))
          (find_flat_handler (word_at packet 0) tables.dispatch_table)

-- what is copied to `out_resp_buf`
unfoldable pub copied : ℕ → Handled → ℤ × Bytes
copied max_resp_len h =
    if ltb 0 h.bytes_written
    then (
      h.returned,
      take (if ltb h.bytes_written max_resp_len then h.bytes_written else max_resp_len) h.tx_data,
    )
    else (h.returned, [])

-- `windrpc_process_packet`, with the buffer `tx_raw_buf`: what it returns, and the response. `rx_len`
-- is a `uint16_t`: of a longer packet, its length modulo 2 ^ 16 arrives.
unfoldable pub windrpc_process_packet :
    {Msg : Type 0} → Platform Msg → ℕ → Tables → ℕ → Bytes → Bytes → ℤ × Bytes
unfolding windrpc_handle copied
windrpc_process_packet p max_buffer_size tables max_resp_len packet beyond =
    let rx_len : ℕ = length packet % 65536 in
    if ltb rx_len 6
    then (negsuc 0, [])
    else copied max_resp_len (
        windrpc_handle p (record { tx_given = true; tx_size = max_buffer_size }) tables
          (take rx_len packet) (drop rx_len packet ++ beyond))
