-- ===== src/Client/Session/Receive/Stream.antt =====
-- Reading a stream of bytes: however it is cut into chunks, and whatever is between its zeros.
use windrpc.Base.{
  ℕ, zero, suc, ◌≤◌, ◌≡◌, ◌≢◌, refl, sym, ◌∙◌, false, none, some, [], ◌∷◌, ◌++◌, arith, ◌==◌,
  ==_iff, if◌then◌else◌, length, length-append, append_assoc, append-nil, All, All-append,
  Bool-cases, inl, inr,
}
use windrpc.Client.Cobs.{Bytes}
use windrpc.Client.Session.{WindRpcClient}
use windrpc.Client.Session.Receive.{
  Callback, Progress, receive_packet, cut_at_zero, receive_loop, receive_bytes,
}
use windrpc.Client.Session.Receive.Buffer.{with_buffer, packet-with_buffer}

abbrev pub NoZero : Bytes → Type 0
NoZero = All (λ b. b ≢ 0)

-- byte by byte: a zero ends the packet in the buffer, and any other byte joins it
pub feed : Callback → Bytes → WindRpcClient → Progress
feed cb [] c = (c, [])
feed cb (b ∷ chunk) c =
    let (c', calls) = receive_packet cb c.rx_buffer (with_buffer [] c) in
    let (ended, later) = feed cb chunk c' in
    let more = feed cb chunk (with_buffer (c.rx_buffer ++ b ∷ []) c) in
    if b == 0 then (ended, calls ++ later) else more

cut_at_zero-append :
    (packet rest : Bytes) → NoZero packet → cut_at_zero (packet ++ 0 ∷ rest) ≡ some (packet, rest)
unfolding cut_at_zero
cut_at_zero-append [] rest h = refl
cut_at_zero-append (b ∷ packet) rest h = ground (arith, cut_at_zero-append packet rest h.1)

cut_at_zero-NoZero : (packet : Bytes) → NoZero packet → cut_at_zero packet ≡ none
unfolding cut_at_zero
cut_at_zero-NoZero [] h = refl
cut_at_zero-NoZero (b ∷ packet) h = ground (arith, cut_at_zero-NoZero packet h.1)

module _ (cb : Callback) where
  loop_stops :
      (fuel : ℕ) (c : WindRpcClient) → NoZero c.rx_buffer → receive_loop fuel cb c ≡ (c, [])
  unfolding receive_loop
  loop_stops zero c h = refl
  loop_stops (suc fuel) c h = rw (cut_at_zero-NoZero c.rx_buffer h, receive_loop)

  loop_round :
      (fuel : ℕ) (packet rest : Bytes) (c : WindRpcClient)
      → NoZero packet
      → receive_loop (suc fuel) cb (with_buffer (packet ++ 0 ∷ rest) c) ≡ (
          let (c', calls) = receive_packet cb packet (with_buffer [] c) in
          let (c'', later) = receive_loop fuel cb (with_buffer rest c') in (c'', calls ++ later))
  loop_round fuel packet rest c h =
      unfold receive_loop in
      rw (
        cut_at_zero-append packet rest h,
        receive_loop,
        packet-with_buffer cb packet rest c,
        packet-with_buffer cb packet [] c,
      )

  pub feed_nil : (c : WindRpcClient) → feed cb [] c ≡ (c, [])
  unfolding feed
  feed_nil c = refl

  pub feed_zero :
      (chunk : Bytes) (c : WindRpcClient)
      → feed cb (0 ∷ chunk) c ≡ (
          let (c', calls) = receive_packet cb c.rx_buffer (with_buffer [] c) in
          let (c'', later) = feed cb chunk c' in (c'', calls ++ later))
  unfolding feed
  feed_zero chunk c = refl

  pub feed_byte :
      (b : ℕ) (chunk : Bytes) (c : WindRpcClient)
      → (b == 0) ≡ false
      → feed cb (b ∷ chunk) c ≡ feed cb chunk (with_buffer (c.rx_buffer ++ b ∷ []) c)
  unfolding feed
  feed_byte b chunk c nz = rw nz

  cleared :
      (packet : Bytes) (c : WindRpcClient)
      → with_buffer [] (receive_packet cb packet (with_buffer [] c)).0
        ≡ (receive_packet cb packet (with_buffer [] c)).0
  cleared packet c = rw (packet-with_buffer cb packet [] c)

  -- The loop on the whole buffer does what reading byte by byte does.
  loop-feed :
      (chunk packet : Bytes) (c : WindRpcClient) (fuel : ℕ)
      → NoZero packet
      → length chunk ≤ fuel
      → receive_loop fuel cb (with_buffer (packet ++ chunk) c)
        ≡ feed cb chunk (with_buffer packet c)
  loop-feed [] packet c fuel h le =
      rw append-nil
        (loop_stops fuel (with_buffer packet c) h ∙ sym (feed_nil (with_buffer packet c)))
  loop-feed (b ∷ chunk) packet c zero h le = absurd (omega arith)
  loop-feed (b ∷ chunk) packet c (suc fuel) h le = elim (Bool-cases (b == 0)) [
    | inl z ↦
        let next : WindRpcClient = (receive_packet cb packet (with_buffer [] c)).0 in
        rw (
          (==_iff b 0).0 z,
          loop_round fuel packet chunk c h,
          feed_zero,
          loop-feed chunk [] next fuel tt (omega arith),
          cleared packet c,
        )
    | inr nz ↦ rw (feed_byte b chunk (with_buffer packet c) nz) (
        rw append_assoc at (
          loop-feed chunk (packet ++ b ∷ []) c (suc fuel)
            (All-append (λ x. x ≢ 0) packet (b ∷ []) h (ground arith, tt)) (omega arith)))
  ]

  pub feed-append :
      (a b : Bytes) (c : WindRpcClient)
      → feed cb (a ++ b) c ≡ (
          let (c', calls) = feed cb a c in let (c'', later) = feed cb b c' in (c'', calls ++ later))
  feed-append [] b c = rw feed_nil
  feed-append (x ∷ a) b c = elim (Bool-cases (x == 0)) [
    | inl z ↦
        let next : WindRpcClient = (receive_packet cb c.rx_buffer (with_buffer [] c)).0 in
        rw (
          (==_iff x 0).0 z,
          feed_zero (a ++ b) c,
          feed_zero a c,
          feed-append a b next,
          append_assoc,
        )
    | inr nz ↦
        rw (feed_byte x (a ++ b) c nz, feed_byte x a c nz)
          (feed-append a b (with_buffer (c.rx_buffer ++ x ∷ []) c))
  ]

  feed-NoZero :
      (chunk : Bytes) (c : WindRpcClient)
      → NoZero c.rx_buffer
      → NoZero (feed cb chunk c).0.rx_buffer
  feed-NoZero [] c h = rw feed_nil h
  feed-NoZero (x ∷ chunk) c h = elim (Bool-cases (x == 0)) [
    | inl z ↦
        rw ((==_iff x 0).0 z, feed_zero chunk c)
          (feed-NoZero chunk _ (rw (packet-with_buffer cb c.rx_buffer [] c) tt))
    | inr nz ↦
        rw (feed_byte x chunk c nz)
          (feed-NoZero chunk _ (All-append (λ y. y ≢ 0) c.rx_buffer (x ∷ []) h (ground arith, tt)))
  ]

  pub receive_bytes-feed :
      (chunk : Bytes) (c : WindRpcClient)
      → NoZero c.rx_buffer
      → receive_bytes cb chunk c ≡ feed cb chunk c
  receive_bytes-feed chunk c h =
      unfold receive_bytes in
      loop-feed chunk c.rx_buffer c (length (c.rx_buffer ++ chunk)) h
        (omega (arith, length-append c.rx_buffer chunk))

  -- When no delimiter waits in the buffer, a call of `receive_bytes` ends because none is left
  -- there.
  pub receive_bytes-NoZero :
      (chunk : Bytes) (c : WindRpcClient)
      → NoZero c.rx_buffer
      → NoZero (receive_bytes cb chunk c).0.rx_buffer
  receive_bytes-NoZero chunk c h = rw (receive_bytes-feed chunk c h) (feed-NoZero chunk c h)

  -- When no delimiter waits in the buffer, two chunks, one behind the other, are received as their
  -- concatenation is.
  pub receive_bytes-append :
      (a b : Bytes) (c : WindRpcClient)
      → NoZero c.rx_buffer
      → receive_bytes cb (a ++ b) c ≡ (
          let (c', calls) = receive_bytes cb a c in
          let (c'', later) = receive_bytes cb b c' in (c'', calls ++ later))
  receive_bytes-append a b c h =
      rw
        (
          receive_bytes-feed (a ++ b) c h,
          receive_bytes-feed a c h,
          receive_bytes-feed b (feed cb a c).0 (feed-NoZero a c h),
        )
        (feed-append a b c)
