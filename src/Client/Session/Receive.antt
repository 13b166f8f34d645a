-- ===== src/Client/Session/Receive.antt =====
-- `receive_raw_datagram` and `receive_bytes`.
pub mod Stream
pub mod Buffer
pub mod Deliver
pub mod Effects
use Prim.Native.Nat.{bit_and}
use windrpc.Base.{
  ℕ, zero, suc, Bool, true, false, not, Option, none, some, List, [], ◌∷◌, ◌++◌, ltb, ◌==◌,
  if◌then◌else◌, length,
}
use windrpc.Base.Result.{Result, ok, raise, callback_error, ◌>>=◌}
use windrpc.Client.Cobs.{Bytes, cobs_decode}
use windrpc.Client.Frame.{WindRpcFrame, unpack_frame}
use windrpc.Client.Session.{WindRpcClient, Future, failed, resolved, complete}

-- `on_notification`, if it is given: whether its call on a frame raises. What a callback does
-- beside is its own.
abbrev pub Callback : Type 0
Callback = Option (WindRpcFrame → Bool)

-- what a call of `receive_raw_datagram` leaves: the client, the calls of `on_notification` that it
-- made, and what it returned or raised
pub record Received : Type 0 where
  pub client : WindRpcClient
  pub notified : List WindRpcFrame
  pub returned : Result (Option WindRpcFrame)

-- `if on_notification: on_notification(frame)`, then `return frame`
unfoldable pub notify : Callback → WindRpcFrame → WindRpcClient → Received
notify none frame c = record { client = c; notified = []; returned = ok (some frame) }
notify (some raises) frame c = record {
  client = c;
  notified = frame ∷ [];
  returned = if raises frame then raise callback_error else ok (some frame);
}

-- the body behind `unpack_frame`
unfoldable pub dispatch_frame : Callback → WindRpcFrame → WindRpcClient → Received
unfolding notify
dispatch_frame on_notification frame c =
    if frame.rpc_id == 0
    then record {
      client = complete frame.seq_id failed c;
      notified = [];
      returned = ok (some frame);
    }
    else if not (bit_and frame.rpc_id 0x80 == 0)
    then notify on_notification frame c
    else record {
      client = complete frame.seq_id (resolved frame) c;
      notified = [];
      returned = ok (some frame);
    }

unfoldable pub dispatch_unpacked : Callback → Result WindRpcFrame → WindRpcClient → Received
unfolding dispatch_frame
dispatch_unpacked on_notification (ok frame) c = dispatch_frame on_notification frame c
dispatch_unpacked on_notification (raise e) c = record {
  client = c;
  notified = [];
  returned = raise e;
}

unfoldable pub receive_raw_datagram : Callback → Bytes → WindRpcClient → Received
unfolding dispatch_unpacked
receive_raw_datagram on_notification data' c =
    if ltb (length data') 6
    then record { client = c; notified = []; returned = ok none }
    else dispatch_unpacked on_notification (unpack_frame data') c

-- a client, and the calls of `on_notification` so far
abbrev pub Progress : Type 0
Progress = WindRpcClient × List WindRpcFrame

-- `raw_packet = cobs_decode(cobs_packet); self.receive_raw_datagram(…)` under `except: pass`
receive_decoded : Callback → Result Bytes → WindRpcClient → Progress
receive_decoded on_notification (raise e) c = (c, [])
receive_decoded on_notification (ok raw_packet) c =
    let r = receive_raw_datagram on_notification raw_packet c in (r.client, r.notified)

-- the loop's body behind the delimiter: an empty packet is passed over
unfoldable pub receive_packet : Callback → Bytes → WindRpcClient → Progress
unfolding receive_decoded
receive_packet on_notification [] c = (c, [])
receive_packet on_notification (b ∷ packet) c =
    receive_decoded on_notification (cobs_decode (b ∷ packet)) c

-- a byte in front of the first packet
grow : ℕ → Option (Bytes × Bytes) → Option (Bytes × Bytes)
grow b none = none
grow b (some (packet, rest)) = some (b ∷ packet, rest)

-- `rx_buffer.index(0)`: the bytes before the first zero, and those behind it
unfoldable pub cut_at_zero : Bytes → Option (Bytes × Bytes)
unfolding grow
cut_at_zero [] = none
cut_at_zero (b ∷ rest) = if b == 0 then some ([], rest) else grow b (cut_at_zero rest)

-- `while True`, for as many rounds as there are bytes in the buffer
receive_loop : ℕ → Callback → WindRpcClient → Progress
receive_loop zero on_notification c = (c, [])
receive_loop (suc fuel) on_notification c = elim (cut_at_zero c.rx_buffer) [
  | none ↦ (c, [])
  | some (packet, rest) ↦
      let (c', calls) = receive_packet on_notification packet (record c { rx_buffer = rest }) in
      let (c'', later) = receive_loop fuel on_notification c' in (c'', calls ++ later)
]

unfoldable pub receive_bytes : Callback → Bytes → WindRpcClient → Progress
unfolding receive_loop
receive_bytes on_notification chunk c =
    let c' = record c { rx_buffer = c.rx_buffer ++ chunk } in
    receive_loop (length c'.rx_buffer) on_notification c'
