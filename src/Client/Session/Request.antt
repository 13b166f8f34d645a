-- ===== src/Client/Session/Request.antt =====
-- `send_request_async`, cut at its only `await`: what it does before, and what it does when the
-- future is done, when the time is up, and when the caller's task is cancelled.
use windrpc.Base.{
  ℕ, Bool, Option, none, some, List, [], ◌∷◌, ◌++◌, if◌then◌else◌, length, get_elem?,
}
use windrpc.Base.Result.{
  Result, ok, raise, callback_error, runtime_error, timeout_error, cancelled_error,
}
use windrpc.Base.Dict.{pop, put}
use windrpc.Client.Cobs.{Bytes, cobs_encode}
use windrpc.Client.Frame.{WindRpcFrame, pack_frame}
use windrpc.Client.Session.{
  WindRpcClient, Future, waiting, resolved, failed, cancelled, get_next_seq_id, settle,
}

-- what is there when the coroutine begins to wait, or has raised: the client, the calls of
-- `transport_send_fn`, and the sequence number and future that it waits for
pub record Sent : Type 0 where
  pub client : WindRpcClient
  pub sent : List Bytes
  pub returned : Result (ℕ × ℕ)

-- `create_future()`, and its entry in `_pending_requests` at the time `now`
register : ℕ → ℕ → WindRpcClient → WindRpcClient
register seq_id now c = record c {
  pending_requests = put seq_id (length c.futures, now) c.pending_requests;
  futures = c.futures ++ waiting ∷ [];
}

-- the code behind `pack_frame`; `raises` tells of which data `transport_send_fn` raises
send_packed : (Bytes → Bool) → Bool → ℕ → ℕ → Result Bytes → WindRpcClient → Sent
unfolding register
send_packed raises cobs_encode_frame now seq_id (raise e) c = record {
  client = c;
  sent = [];
  returned = raise e;
}
send_packed raises cobs_encode_frame now seq_id (ok raw_frame) c =
    let send_data = if cobs_encode_frame then cobs_encode raw_frame else raw_frame in
    record {
      client = register seq_id now c;
      sent = send_data ∷ [];
      returned = if raises send_data then raise callback_error else ok (seq_id, length c.futures);
    }

unfoldable pub send_request : (Bytes → Bool) → Bool → ℕ → ℕ → Bytes → WindRpcClient → Sent
unfolding get_next_seq_id send_packed
send_request raises cobs_encode_frame now rpc_id payload c =
    let (seq_id, c') = get_next_seq_id c in
    send_packed raises cobs_encode_frame now seq_id (pack_frame rpc_id seq_id payload) c'

-- what `await` gives of a future that is done
unfoldable pub outcome : Option Future → Option (Result WindRpcFrame)
outcome none = none
outcome (some waiting) = none
outcome (some (resolved frame)) = some (ok frame)
outcome (some failed) = some (raise runtime_error)
outcome (some cancelled) = some (raise cancelled_error)

unfoldable pub await_future : ℕ → WindRpcClient → Option (Result WindRpcFrame)
unfolding outcome
await_future fut c = outcome (get_elem? c.futures fut)

-- `asyncio.wait_for` cancels a future that still waits, and the handler drops the request
expire_waiting :
    Option (Result WindRpcFrame) → ℕ → ℕ → WindRpcClient → WindRpcClient × Result WindRpcFrame
expire_waiting (some result) seq_id fut c = (c, result)
expire_waiting none seq_id fut c = (
  record c {
    pending_requests = pop seq_id c.pending_requests;
    futures = settle fut cancelled c.futures;
  },
  raise timeout_error,
)

-- the time of the request is up
unfoldable pub expire : ℕ → ℕ → WindRpcClient → WindRpcClient × Result WindRpcFrame
unfolding await_future expire_waiting
expire seq_id fut c = expire_waiting (await_future fut c) seq_id fut c

-- The caller's task is cancelled: its future is, and no handler runs.
unfoldable pub cancel : ℕ → WindRpcClient → WindRpcClient
cancel fut c = record c { futures = settle fut cancelled c.futures }
