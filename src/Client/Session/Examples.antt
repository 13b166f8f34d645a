-- ===== src/Client/Session/Examples.antt =====
-- Runs of the client on small inputs.
use mathlib.Core.List.{flatten}
use windrpc.Base.{◌≤◌, ◌≡◌, ◌≢◌, refl, Bool, true, false, none, some, [], ◌∷◌, arith, map}
use windrpc.Base.Dict.{get}
use windrpc.Base.Result.{ok, raise, runtime_error, timeout_error, cancelled_error}
use windrpc.Client.Cobs.{Bytes, cobs_encode}
use windrpc.Client.Frame.{pack_frame}
use windrpc.Client.Session.{WindRpcClient, waiting, resolved, init}
use windrpc.Client.Session.Receive.{Callback, receive_raw_datagram, receive_bytes}
use windrpc.Client.Session.Receive.Stream.{NoZero, receive_bytes-NoZero}
use windrpc.Client.Session.Receive.Deliver.{
  receive_chunks, receive_datagrams, receive_chunks-receive_datagrams,
}
use windrpc.Client.Session.Request.{send_request, await_future, expire}
use windrpc.Client.Session.Answers.{datagram_event, response_answers, system_error_answers}
use windrpc.Client.Session.Calls.{
  read_packet, send_request-wire, send_request-response, late_response,
}
use windrpc.Client.Session.Sequence.{seq_id_of, seq_ids_distinct}
use windrpc.Client.Session.Reach.{
  IsValid, Reach, here, next, datagram, stream, send, Reach-IsValid, init-IsValid,
}
use windrpc.Client.Session.Reach.Outcomes.{await_future-Reach}
use windrpc.Client.Examples.{
  payload_bytes, response_packet, error_packet, response, response_packed,
}

abbrev pub event_packet : Bytes
event_packet = 129 ∷ 7 ∷ 0 ∷ 0 ∷ 0 ∷ 0 ∷ []

-- request 7 is under way
abbrev busy : WindRpcClient
busy = record {
  next_seq_id = 8;
  rx_buffer = [];
  pending_requests = (7, (0, 0)) ∷ [];
  futures = waiting ∷ [];
}

abbrev pub silent : Callback
silent = none

abbrev pub listening : Callback
listening = some (λ frame. false)

event_packed : pack_frame 1921 0 [] ≡ ok event_packet
unfolding pack_frame
event_packed = refl

error_packed : pack_frame 0 7 [] ≡ ok error_packet
unfolding pack_frame
error_packed = refl

busy_known : get 7 busy.pending_requests ≡ some (0, 0)
unfolding get
busy_known = refl

response_answers_example :
    (await_future 0 (receive_raw_datagram silent response_packet busy).client ≡ some (ok response))
    × (get 7 (receive_raw_datagram silent response_packet busy).client.pending_requests ≡ none)
    × ((receive_raw_datagram silent response_packet busy).notified ≡ [])
response_answers_example =
    response_answers silent 1537 7 payload_bytes response_packet response_packed busy 0 0 busy_known
      refl (omega arith) refl 7 0

system_error_answers_example :
    (await_future 0 (receive_raw_datagram silent error_packet busy).client
      ≡ some (raise runtime_error))
    × (get 7 (receive_raw_datagram silent error_packet busy).client.pending_requests ≡ none)
    × ((receive_raw_datagram silent error_packet busy).notified ≡ [])
system_error_answers_example =
    system_error_answers silent 0 7 [] error_packet error_packed busy 0 0 busy_known refl refl 7 0

datagram_event_example :
    ((receive_raw_datagram listening event_packet busy).client ≡ busy)
    × ((receive_raw_datagram listening event_packet busy).notified
        ≡ record { rpc_id = 1921; seq_id = 0; payload = [] } ∷ [])
datagram_event_example = datagram_event listening 1921 0 [] event_packet event_packed busy refl

late_response_example :
    ((expire 7 0 busy).1 ≡ raise timeout_error)
    × (await_future 0 (expire 7 0 busy).0 ≡ some (raise cancelled_error))
    × (get 7 (expire 7 0 busy).0.pending_requests ≡ none)
    × ((receive_raw_datagram silent response_packet (expire 7 0 busy).0).client
        ≡ (expire 7 0 busy).0)
late_response_example =
    late_response silent 1537 7 0 payload_bytes response_packet busy refl response_packed refl

unfoldable pub quiet : Bytes → Bool
quiet data' = false

-- the request 8 behind request 7
started : (send_request quiet true 3 1538 payload_bytes busy).returned ≡ ok (8, 1)
unfolding send_request pack_frame quiet
started = refl

send_request-wire_example :
    (data' : Bytes) × ((send_request quiet true 3 1538 payload_bytes busy).sent ≡ data' ∷ [])
    × (read_packet true data' ≡ ok (record { rpc_id = 1538; seq_id = 8; payload = payload_bytes }))
send_request-wire_example = send_request-wire quiet true 3 1538 payload_bytes busy 8 1 started

answer_packed : pack_frame 1538 8 (1 ∷ []) ≡ ok (2 ∷ 6 ∷ 8 ∷ 0 ∷ 1 ∷ 0 ∷ 1 ∷ [])
unfolding pack_frame
answer_packed = refl

send_request-response_example :
    await_future 1
      (receive_raw_datagram silent
        (2 ∷ 6 ∷ 8 ∷ 0 ∷ 1 ∷ 0 ∷ 1 ∷ [])
        (send_request quiet true 3 1538 payload_bytes busy).client).client
    ≡ some (ok (record { rpc_id = 1538; seq_id = 8; payload = 1 ∷ [] }))
send_request-response_example =
    send_request-response quiet true 3 1538 payload_bytes busy 8 1 started silent 1538 (1 ∷ [])
      (2 ∷ 6 ∷ 8 ∷ 0 ∷ 1 ∷ 0 ∷ 1 ∷ []) answer_packed (omega arith) refl

seq_ids_distinct_example :
    (1 ≤ seq_id_of 0 busy) × (seq_id_of 0 busy ≤ 65535) × (seq_id_of 0 busy ≢ seq_id_of 65534 busy)
seq_ids_distinct_example =
    seq_ids_distinct busy 0 65534 (omega arith) (omega arith) (omega arith) (omega arith)

receive_bytes-NoZero_example :
    NoZero (receive_bytes listening (3 ∷ 1 ∷ 0 ∷ 2 ∷ []) busy).0.rx_buffer
receive_bytes-NoZero_example = receive_bytes-NoZero listening (3 ∷ 1 ∷ 0 ∷ 2 ∷ []) busy tt

chunked :
    flatten (cobs_encode event_packet ∷ cobs_encode response_packet ∷ [])
    ≡ flatten (map cobs_encode (event_packet ∷ response_packet ∷ []))
chunked = refl

receive_chunks-receive_datagrams_example :
    receive_chunks listening (cobs_encode event_packet ∷ cobs_encode response_packet ∷ []) busy
    ≡ receive_datagrams listening (event_packet ∷ response_packet ∷ []) busy
receive_chunks-receive_datagrams_example =
    receive_chunks-receive_datagrams listening
      (cobs_encode event_packet ∷ cobs_encode response_packet ∷ [])
      (event_packet ∷ response_packet ∷ []) busy refl chunked

abbrev pub sent_client : WindRpcClient
sent_client = (send_request quiet true 3 1538 payload_bytes init).client

pub run : Reach sent_client (receive_bytes listening (3 ∷ 1 ∷ 0 ∷ 2 ∷ []) sent_client).0
run = next here (stream listening (3 ∷ 1 ∷ 0 ∷ 2 ∷ []) sent_client)

pub sent_client-IsValid : IsValid sent_client
sent_client-IsValid =
    Reach-IsValid init-IsValid (next here (send quiet true 3 1538 payload_bytes init))

Reach-IsValid_example : IsValid (receive_bytes listening (3 ∷ 1 ∷ 0 ∷ 2 ∷ []) sent_client).0
Reach-IsValid_example = Reach-IsValid sent_client-IsValid run

-- request 1 has its response
abbrev answered : WindRpcClient
answered = record {
  next_seq_id = 2;
  rx_buffer = [];
  pending_requests = [];
  futures = resolved response ∷ [];
}

answered-IsValid : IsValid answered
answered-IsValid = record { low = omega arith; high = omega arith; buffer = tt; pending = tt }

answered_outcome : await_future 0 answered ≡ some (ok response)
unfolding await_future
answered_outcome = refl

await_future-Reach_example :
    await_future 0 (receive_raw_datagram silent error_packet answered).client ≡ some (ok response)
await_future-Reach_example =
    await_future-Reach 0 (ok response) answered-IsValid
      (next here (datagram silent error_packet answered)) answered_outcome
