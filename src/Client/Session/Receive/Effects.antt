-- ===== src/Client/Session/Receive/Effects.antt =====
-- What a received packet can do to a client: nothing, or complete one request.
use windrpc.Base.{ℕ, none, some, [], ◌∷◌, ◌++◌, ltb, ◌==◌, ==_iff, Bool-cases, inl, inr, length}
use Prim.Native.Nat.{bit_and}
use windrpc.Base.Result.{Result, ok, raise}
use windrpc.Client.Cobs.{Bytes, cobs_decode}
use windrpc.Client.Frame.{WindRpcFrame, unpack_frame}
use windrpc.Client.Session.{WindRpcClient, failed, resolved, complete}
use windrpc.Client.Session.Receive.{
  Callback, notify, dispatch_frame, dispatch_unpacked, receive_raw_datagram, receive_decoded,
  receive_packet, receive_bytes,
}
use windrpc.Client.Session.Receive.Buffer.{with_buffer}
use windrpc.Client.Session.Receive.Stream.{
  NoZero, feed, feed_nil, feed_zero, feed_byte, receive_bytes-feed,
}

-- A property of clients that completing a request keeps.
module _ {ℓ} (P : WindRpcClient → Type ℓ)
    (keep_failed : (seq_id : ℕ) (c : WindRpcClient) → P c → P (complete seq_id failed c))
    (keep_resolved : (seq_id : ℕ) (frame : WindRpcFrame) (c : WindRpcClient)
      → P c
      → P (complete seq_id (resolved frame) c))
    (cb : Callback) where
  notify_keeps :
      (k : Callback) (frame : WindRpcFrame) (c : WindRpcClient) → P c → P (notify k frame c).client
  unfolding notify
  notify_keeps none frame c h = h
  notify_keeps (some raises) frame c h = h

  dispatch_keeps :
      (frame : WindRpcFrame) (c : WindRpcClient) → P c → P (dispatch_frame cb frame c).client
  dispatch_keeps frame c h = elim (Bool-cases (frame.rpc_id == 0)) [
    | inl z ↦ unfold dispatch_frame in rw z (keep_failed frame.seq_id c h)
    | inr nz ↦ elim (Bool-cases (bit_and frame.rpc_id 128 == 0)) [
      | inl low ↦ unfold dispatch_frame in rw (nz, low) (keep_resolved frame.seq_id frame c h)
      | inr high ↦ unfold dispatch_frame in rw (nz, high) (notify_keeps cb frame c h)
    ]
  ]

  unpacked_keeps :
      (u : Result WindRpcFrame) (c : WindRpcClient) → P c → P (dispatch_unpacked cb u c).client
  unfolding dispatch_unpacked
  unpacked_keeps (ok frame) c h = dispatch_keeps frame c h
  unpacked_keeps (raise e) c h = h

  pub datagram_keeps :
      (data' : Bytes) (c : WindRpcClient) → P c → P (receive_raw_datagram cb data' c).client
  datagram_keeps data' c h = elim (Bool-cases (ltb (length data') 6)) [
    | inl short ↦ unfold receive_raw_datagram in rw short h
    | inr long ↦ unfold receive_raw_datagram in rw long (unpacked_keeps (unpack_frame data') c h)
  ]

-- A property of clients that receiving a datagram keeps.
module _ {ℓ} (P : WindRpcClient → Type ℓ) (cb : Callback)
    (keep_datagram : (data' : Bytes) (c : WindRpcClient)
      → P c
      → P (receive_raw_datagram cb data' c).client) where
  decoded_keeps : (raw : Result Bytes) (c : WindRpcClient) → P c → P (receive_decoded cb raw c).0
  unfolding receive_decoded
  decoded_keeps (ok raw) c h = keep_datagram raw c h
  decoded_keeps (raise e) c h = h

  packet_keeps : (packet : Bytes) (c : WindRpcClient) → P c → P (receive_packet cb packet c).0
  unfolding receive_packet
  packet_keeps [] c h = h
  packet_keeps (b ∷ packet) c h = decoded_keeps (cobs_decode (b ∷ packet)) c h

  module _
      (keep_buffer : (buffer : Bytes) (c : WindRpcClient) → P c → P (with_buffer buffer c)) where
    feed_keeps : (chunk : Bytes) (c : WindRpcClient) → P c → P (feed cb chunk c).0
    feed_keeps [] c h = rw feed_nil h
    feed_keeps (b ∷ chunk) c h = elim (Bool-cases (b == 0)) [
      | inl z ↦
          rw ((==_iff b 0).0 z, feed_zero cb chunk c)
            (feed_keeps chunk _ (packet_keeps c.rx_buffer (with_buffer [] c) (keep_buffer [] c h)))
      | inr nz ↦
          rw (feed_byte cb b chunk c nz)
            (feed_keeps chunk _ (keep_buffer (c.rx_buffer ++ b ∷ []) c h))
    ]

    pub stream_keeps :
        (chunk : Bytes) (c : WindRpcClient)
        → NoZero c.rx_buffer
        → P c
        → P (receive_bytes cb chunk c).0
    stream_keeps chunk c z h = rw (receive_bytes-feed cb chunk c z) (feed_keeps chunk c h)

pub bytes_keep {ℓ} :
    (P : WindRpcClient → Type ℓ)
    → ((seq_id : ℕ) (c : WindRpcClient) → P c → P (complete seq_id failed c))
    → ((seq_id : ℕ) (frame : WindRpcFrame) (c : WindRpcClient)
        → P c
        → P (complete seq_id (resolved frame) c))
    → (cb : Callback) → ((buffer : Bytes) (c : WindRpcClient) → P c → P (with_buffer buffer c))
    → (chunk : Bytes) (c : WindRpcClient) → NoZero c.rx_buffer
    → P c
    → P (receive_bytes cb chunk c).0
bytes_keep P keep_failed keep_resolved cb =
    stream_keeps P cb (datagram_keeps P keep_failed keep_resolved cb)
