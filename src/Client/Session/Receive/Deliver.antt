-- ===== src/Client/Session/Receive/Deliver.antt =====
-- A stream of COBS frames, in chunks of any size, against the datagrams that it carries.
use mathlib.Core.List.{flatten}
use windrpc.Base.{◌≡◌, ◌≢◌, refl, sym, List, [], ◌∷◌, ◌++◌, append_assoc, append-nil, map, arith}
use windrpc.Client.Cobs.{Bytes, cobs_encode, cobs_decode}
use windrpc.Client.Cobs.Blocks.{encoded, encoded-ne-nil, cobs_encode-encoded}
use windrpc.Client.Cobs.Framing.{encoded-nonzero}
use windrpc.Client.Cobs.RoundTrip.{cobs_decode-encoded}
use windrpc.Client.Session.{WindRpcClient}
use windrpc.Client.Session.Receive.{
  Callback, Progress, Received, receive_raw_datagram, receive_packet, receive_bytes,
  receive_decoded,
}
use windrpc.Client.Session.Receive.Buffer.{with_buffer, datagram-with_buffer}
use windrpc.Client.Session.Receive.Stream.{
  NoZero, feed, feed_nil, feed_zero, feed_byte, feed-append, receive_bytes-feed,
  receive_bytes-NoZero, receive_bytes-append,
}

-- the calls of `receive_bytes` for the chunks of a stream
pub receive_chunks : Callback → List Bytes → WindRpcClient → Progress
receive_chunks cb [] c = (c, [])
receive_chunks cb (chunk ∷ chunks) c =
    let (c', calls) = receive_bytes cb chunk c in
    let (c'', later) = receive_chunks cb chunks c' in (c'', calls ++ later)

-- the calls of `receive_raw_datagram` for packets; what a call returns or raises is passed over
pub receive_datagrams : Callback → List Bytes → WindRpcClient → Progress
receive_datagrams cb [] c = (c, [])
receive_datagrams cb (packet ∷ packets) c =
    let r = receive_raw_datagram cb packet c in
    let (c', later) = receive_datagrams cb packets r.client in (c', r.notified ++ later)

buffer_empty : (c : WindRpcClient) → c.rx_buffer ≡ [] → with_buffer [] c ≡ c
buffer_empty c e = λ i. record c { rx_buffer = sym e i }

module _ (cb : Callback) where
  chunks-join :
      (chunks : List Bytes) (c : WindRpcClient)
      → NoZero c.rx_buffer
      → receive_chunks cb chunks c ≡ receive_bytes cb (flatten chunks) c
  unfolding receive_chunks flatten
  chunks-join [] c h = rw (receive_bytes-feed cb [] c h, feed_nil)
  chunks-join (chunk ∷ chunks) c h =
      let next : NoZero (receive_bytes cb chunk c).0.rx_buffer =
        receive_bytes-NoZero cb chunk c h in
      rw (
        receive_bytes-append cb chunk (flatten chunks) c h,
        chunks-join chunks (receive_bytes cb chunk c).0 next,
      )

  nonempty_packet :
      (packet : Bytes) (c : WindRpcClient)
      → packet ≢ []
      → receive_packet cb packet c ≡ receive_decoded cb (cobs_decode packet) c
  unfolding receive_packet
  nonempty_packet [] c ne = absurd (ne refl)
  nonempty_packet (b ∷ packet) c ne = refl

  packet-encoded :
      (raw : Bytes) (c : WindRpcClient)
      → receive_packet cb (encoded [] raw) c
        ≡ ((receive_raw_datagram cb raw c).client, (receive_raw_datagram cb raw c).notified)
  unfolding receive_decoded
  packet-encoded raw c =
      rw (nonempty_packet (encoded [] raw) c (encoded-ne-nil [] raw), cobs_decode-encoded raw)

  feed-packet :
      (packet rest before : Bytes) (c : WindRpcClient)
      → NoZero packet
      → feed cb (packet ++ rest) (with_buffer before c)
        ≡ feed cb rest (with_buffer (before ++ packet) c)
  feed-packet [] rest before c h = rw append-nil
  feed-packet (b ∷ packet) rest before c h =
      rw (feed_byte cb b (packet ++ rest) (with_buffer before c) (ground arith))
        (rw append_assoc at (feed-packet packet rest (before ++ b ∷ []) c h.1))

  -- A frame that arrives at an empty buffer does what its packet does as a datagram.
  feed-frame :
      (raw : Bytes) (c : WindRpcClient)
      → feed cb (cobs_encode raw) (with_buffer [] c)
        ≡ (let r = receive_raw_datagram cb raw c in (with_buffer [] r.client, r.notified))
  feed-frame raw c = rw (
    cobs_encode-encoded raw,
    feed-packet (encoded [] raw) (0 ∷ []) [] c (encoded-nonzero raw),
    feed_zero,
    packet-encoded raw (with_buffer [] c),
    datagram-with_buffer cb raw [] c,
    feed_nil,
    append-nil,
  )

  feed-frames :
      (packets : List Bytes) (c : WindRpcClient)
      → feed cb (flatten (map cobs_encode packets)) (with_buffer [] c)
        ≡ receive_datagrams cb packets (with_buffer [] c)
  unfolding receive_datagrams flatten
  feed-frames [] c = feed_nil cb _
  feed-frames (packet ∷ packets) c =
      let r : Received = receive_raw_datagram cb packet c in
      rw (
        feed-append cb (cobs_encode packet) (flatten (map cobs_encode packets)) (with_buffer [] c),
        feed-frame packet c,
        feed-frames packets r.client,
        datagram-with_buffer cb packet [] c,
      )

  -- Packets that arrive as COBS frames over a stream, cut into chunks anywhere, do to a client with
  -- an empty buffer what they do as datagrams in the same order: the same notifications, and
  -- the same client.
  pub receive_chunks-receive_datagrams :
      (chunks packets : List Bytes) (c : WindRpcClient)
      → c.rx_buffer ≡ []
      → flatten chunks ≡ flatten (map cobs_encode packets)
      → receive_chunks cb chunks c ≡ receive_datagrams cb packets c
  receive_chunks-receive_datagrams chunks packets c e h =
      rw (chunks-join chunks c (rw e tt), h, receive_bytes-feed cb _ c (rw e tt))
        (rw (buffer_empty c e) at (feed-frames packets c))
