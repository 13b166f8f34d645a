-- ===== src/Client/Session/Receive/Buffer.antt =====
-- What waits in the buffer has no part in the handling of a packet.
use windrpc.Base.{ℕ, ◌≡◌, refl, ap, none, some, [], ◌∷◌, arith, ltb, length, Bool-cases, inl, inr}
use windrpc.Base.Result.{Result, ok, raise}
use windrpc.Client.Cobs.{Bytes, cobs_decode}
use windrpc.Client.Session.{WindRpcClient, Future, failed, resolved, complete}
use windrpc.Client.Frame.{WindRpcFrame, unpack_frame}
use windrpc.Client.Session.Receive.{
  Callback, Received, receive_raw_datagram, receive_packet, dispatch_frame, dispatch_unpacked,
  receive_decoded,
}

abbrev pub with_buffer : Bytes → WindRpcClient → WindRpcClient
with_buffer buffer c = record c { rx_buffer = buffer }

complete-with_buffer :
    (seq_id : ℕ) (o : Future) (buffer : Bytes) (c : WindRpcClient)
    → complete seq_id o (with_buffer buffer c) ≡ with_buffer buffer (complete seq_id o c)
unfolding complete
complete-with_buffer seq_id o buffer c = ground arith

dispatch-with_buffer :
    (cb : Callback) (frame : WindRpcFrame) (buffer : Bytes) (c : WindRpcClient)
    → dispatch_frame cb frame (with_buffer buffer c)
      ≡ (let r = dispatch_frame cb frame c in record r { client = with_buffer buffer r.client })
unfolding dispatch_frame
dispatch-with_buffer none frame buffer c = ground (
  arith,
  complete-with_buffer frame.seq_id failed buffer c,
  complete-with_buffer frame.seq_id (resolved frame) buffer c,
)
dispatch-with_buffer (some raises) frame buffer c = ground (
  arith,
  complete-with_buffer frame.seq_id failed buffer c,
  complete-with_buffer frame.seq_id (resolved frame) buffer c,
)

unpacked-with_buffer :
    (cb : Callback) (u : Result WindRpcFrame) (buffer : Bytes) (c : WindRpcClient)
    → dispatch_unpacked cb u (with_buffer buffer c)
      ≡ (let r = dispatch_unpacked cb u c in record r { client = with_buffer buffer r.client })
unfolding dispatch_unpacked
unpacked-with_buffer cb (ok frame) buffer c = dispatch-with_buffer cb frame buffer c
unpacked-with_buffer cb (raise e) buffer c = refl

pub datagram-with_buffer :
    (cb : Callback) (data' buffer : Bytes) (c : WindRpcClient)
    → receive_raw_datagram cb data' (with_buffer buffer c) ≡ (
        let r = receive_raw_datagram cb data' c in
        record r { client = with_buffer buffer r.client })
datagram-with_buffer cb data' buffer c = elim (Bool-cases (ltb (length data') 6)) [
  | inl short ↦ unfold receive_raw_datagram in rw short
  | inr long ↦
      unfold receive_raw_datagram in rw long (unpacked-with_buffer cb (unpack_frame data') buffer c)
]

decoded-with_buffer :
    (cb : Callback) (raw : Result Bytes) (buffer : Bytes) (c : WindRpcClient)
    → receive_decoded cb raw (with_buffer buffer c)
      ≡ (let (c', calls) = receive_decoded cb raw c in (with_buffer buffer c', calls))
unfolding receive_decoded
decoded-with_buffer cb (ok raw) buffer c =
    ap (λ (r : Received). (r.client, r.notified)) (datagram-with_buffer cb raw buffer c)
decoded-with_buffer cb (raise e) buffer c = refl

-- Handling a packet neither reads nor writes the buffer.
pub packet-with_buffer :
    (cb : Callback) (packet buffer : Bytes) (c : WindRpcClient)
    → receive_packet cb packet (with_buffer buffer c)
      ≡ (let (c', calls) = receive_packet cb packet c in (with_buffer buffer c', calls))
unfolding receive_packet
packet-with_buffer cb [] buffer c = refl
packet-with_buffer cb (b ∷ packet) buffer c =
    decoded-with_buffer cb (cobs_decode (b ∷ packet)) buffer c
