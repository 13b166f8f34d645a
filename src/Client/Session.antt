-- ===== src/Client/Session.antt =====
-- `WindRpcClient` of the client code in windrpc/client/python.py: its fields, its pending requests
-- and the futures that the event loop holds for them.
mod Examples
pub mod Receive
pub mod Request
pub mod Laws
pub mod Answers
pub mod Calls
pub mod Sequence
pub mod Reach
use windrpc.Base.{
  ℕ, zero, suc, ◌+◌, ◌%◌, Bool, true, false, Option, none, some, List, [], ◌∷◌, ◌++◌, length,
  get_elem?, set, if◌then◌else◌,
}
use windrpc.Base.Dict.{Dict, get, pop}
use windrpc.Client.Cobs.{Bytes}
use windrpc.Client.Frame.{WindRpcFrame}

-- the states of an `asyncio.Future`; `failed` holds the `RuntimeError` of a system error
pub data Future : Type 0 where
  waiting : Future
  resolved : WindRpcFrame → Future
  failed : Future
  cancelled : Future

-- A future is a shared object: it is named by its place in `futures`. `pending_requests` maps a
-- sequence number to its future and the time of the request.
pub record WindRpcClient : Type 0 where
  pub next_seq_id : ℕ
  pub rx_buffer : Bytes
  pub pending_requests : Dict (ℕ × ℕ)
  pub futures : List Future

-- `__init__`
abbrev pub init : WindRpcClient
init = record { next_seq_id = 1; rx_buffer = []; pending_requests = []; futures = [] }

-- `_get_next_seq_id`
unfoldable pub get_next_seq_id : WindRpcClient → ℕ × WindRpcClient
get_next_seq_id c = (c.next_seq_id, record c { next_seq_id = c.next_seq_id % 0xffff + 1 })

-- `if not fut.done(): fut.set_result(…)`, or `set_exception`
unfoldable pub settle : ℕ → Future → List Future → List Future
settle fut outcome [] = []
settle zero outcome (waiting ∷ fs) = outcome ∷ fs
settle zero outcome (f ∷ fs) = f ∷ fs
settle (suc fut) outcome (f ∷ fs) = f ∷ settle fut outcome fs

-- the future of a pending request, which is no longer pending, is settled
settle_found : ℕ → Future → Option (ℕ × ℕ) → WindRpcClient → WindRpcClient
settle_found seq_id outcome none c = c
settle_found seq_id outcome (some (fut, time)) c = record c {
  pending_requests = pop seq_id c.pending_requests;
  futures = settle fut outcome c.futures;
}

-- `if seq_id in self._pending_requests: fut, _ = self._pending_requests.pop(seq_id); …`
unfoldable pub complete : ℕ → Future → WindRpcClient → WindRpcClient
unfolding settle_found settle
complete seq_id outcome c = settle_found seq_id outcome (get seq_id c.pending_requests) c
