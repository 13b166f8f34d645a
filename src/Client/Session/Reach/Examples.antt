-- ===== src/Client/Session/Reach/Examples.antt =====
-- Runs of the client in which a request waits.
use windrpc.Base.{true, ◌≡◌, refl, some, none, [], ◌∷◌, arith}
use windrpc.Base.Result.{ok}
use windrpc.Client.Examples.{payload_bytes}
use windrpc.Client.Frame.{pack_frame, unpack_frame}
use windrpc.Client.Session.{WindRpcClient, init}
use windrpc.Client.Session.Examples.{
  quiet, listening, silent, event_packet, sent_client, sent_client-IsValid, run,
}
use windrpc.Client.Session.Request.{send_request, await_future, expire}
use windrpc.Client.Session.Receive.{receive_raw_datagram, receive_bytes}
use windrpc.Client.Session.Reach.{init-IsValid, here, next, datagram, send, timeout, Reach}
use windrpc.Client.Session.Reach.Abstract.{Moves}
use windrpc.Client.Session.Reach.View.{view}
use windrpc.Client.Session.Reach.Pending.{sends, OwnTimeouts, send_request-Reach}
use windrpc.Client.Session.Reach.Refines.{operations, Reach-Moves}

abbrev timed_out : WindRpcClient
timed_out = (expire 1 0 (receive_bytes listening (3 ∷ 1 ∷ 0 ∷ 2 ∷ []) sent_client).0).0

-- an incomplete packet, and the end of the time of request 1
abbrev long_run : Reach sent_client timed_out
long_run = next run (timeout 1 0 (receive_bytes listening (3 ∷ 1 ∷ 0 ∷ 2 ∷ []) sent_client).0)

Reach-Moves_example : Moves (view sent_client) (operations long_run) (view timed_out)
Reach-Moves_example = Reach-Moves sent_client-IsValid long_run

first_started : (send_request quiet true 3 1538 payload_bytes init).returned ≡ ok (1, 0)
unfolding send_request pack_frame quiet
first_started = refl

abbrev noticed : WindRpcClient
noticed = (receive_raw_datagram listening event_packet sent_client).client

-- an event and another request while request 1 waits
abbrev later : Reach sent_client (send_request quiet true 4 1537 [] noticed).client
later =
    next (next here (datagram listening event_packet sent_client))
      (send quiet true 4 1537 [] noticed)

first_packed : pack_frame 1538 1 (1 ∷ []) ≡ ok (2 ∷ 6 ∷ 1 ∷ 0 ∷ 1 ∷ 0 ∷ 1 ∷ [])
unfolding pack_frame
first_packed = refl

first_waits : await_future 0 (send_request quiet true 4 1537 [] noticed).client ≡ none
unfolding await_future send_request pack_frame quiet receive_raw_datagram unpack_frame
first_waits = refl

send_request-Reach_example :
    await_future 0
      (receive_raw_datagram silent
        (2 ∷ 6 ∷ 1 ∷ 0 ∷ 1 ∷ 0 ∷ 1 ∷ [])
        (send_request quiet true 4 1537 [] noticed).client).client
    ≡ some (ok (record { rpc_id = 1538; seq_id = 1; payload = 1 ∷ [] }))
send_request-Reach_example =
    send_request-Reach quiet true 3 1538 payload_bytes init 1 0 init-IsValid first_started later
      (unfold sends in omega arith) (unfold OwnTimeouts in tt) first_waits silent 1538 (1 ∷ [])
      (2 ∷ 6 ∷ 1 ∷ 0 ∷ 1 ∷ 0 ∷ 1 ∷ []) first_packed (omega arith) refl
