-- ===== src/Server/Sizing/Bounds.antt =====
-- The computed sizes are large enough.
use windrpc.Base.{
  ℕ, ◌+◌, ◌*◌, ◌%◌, ◌≤◌, ◌<◌, ◌≡◌, List, [], ◌∷◌, arith, All, length, ltb, if◌then◌else◌,
}
use windrpc.Base.Result.{ok}
use windrpc.Spec.{Message, Spec}
use windrpc.Client.Cobs.{Bytes, cobs_encode}
use windrpc.Client.Cobs.Framing.{length-cobs_encode}
use windrpc.Client.Frame.{pack_frame}
use windrpc.Client.Frame.RoundTrip.{pack_frame-eq-ok}
use windrpc.Server.Sizing.{
  message_size, largest, all_messages, calculate_max_payload_size, sizes_of,
  calculate_stack_and_buffer_sizes,
}

largest-le : (n : ℕ) (ms : List Message) → n ≤ largest n ms
unfolding largest
largest-le n [] = omega arith
largest-le n (m ∷ ms) =
    ground
      (arith, largest-le (if ltb n (message_size m.fields) then message_size m.fields else n) ms)

All-le : (n : ℕ) (ms : List Message) → All (λ m. message_size m.fields ≤ largest n ms) ms
unfolding largest
All-le n [] = tt
All-le n (m ∷ ms) =
    let n' : ℕ = if ltb n (message_size m.fields) then message_size m.fields else n in
    (ground (arith, largest-le n' ms), All-le n' ms)

sizes_of_lem :
    (n : ℕ)
    → (256 ≤ (sizes_of n).max_buffer_size)
      × (n + 64 ≤ (sizes_of n).max_buffer_size)
      × ((sizes_of n).max_buffer_size % 64 ≡ 0)
      × (2048 ≤ (sizes_of n).recommended_stack_size)
      × ((sizes_of n).max_buffer_size * 2 + 1024 ≤ (sizes_of n).recommended_stack_size)
      × ((sizes_of n).recommended_stack_size % 256 ≡ 0)
unfolding sizes_of
sizes_of_lem n = omega arith

-- The largest payload is at least 64 and at least the size that is computed for each message. The
-- buffer has room for it and 64 bytes more, is 256 bytes or larger and a multiple of 64; the stack has
-- room for two buffers and 1024 bytes more, is 2048 bytes or larger and a multiple of 256.
pub calculate_stack_and_buffer_sizes_lem :
    (spec : Spec)
    → (64 ≤ calculate_max_payload_size spec)
      × All (λ m. message_size m.fields ≤ calculate_max_payload_size spec) (all_messages spec)
      × (256 ≤ (calculate_stack_and_buffer_sizes spec).max_buffer_size)
      × (calculate_max_payload_size spec + 64
          ≤ (calculate_stack_and_buffer_sizes spec).max_buffer_size)
      × ((calculate_stack_and_buffer_sizes spec).max_buffer_size % 64 ≡ 0)
      × (2048 ≤ (calculate_stack_and_buffer_sizes spec).recommended_stack_size)
      × ((calculate_stack_and_buffer_sizes spec).max_buffer_size * 2 + 1024
          ≤ (calculate_stack_and_buffer_sizes spec).recommended_stack_size)
      × ((calculate_stack_and_buffer_sizes spec).recommended_stack_size % 256 ≡ 0)
unfolding calculate_stack_and_buffer_sizes calculate_max_payload_size
calculate_stack_and_buffer_sizes_lem spec =
    let s = sizes_of_lem (largest 64 (all_messages spec)) in
    (largest-le 64 (all_messages spec), All-le 64 (all_messages spec), s.0, s.1, s.2, s.3, s.4, s.5)

-- As long as the largest payload is below 14472, a frame whose payload is no larger fits the buffer
-- when it is COBS encoded, its header and its final zero included.
pub frame-fits_buffer :
    (spec : Spec) (rpc_id seq_id : ℕ) (payload packet : Bytes)
    → pack_frame rpc_id seq_id payload ≡ ok packet
    → length payload ≤ calculate_max_payload_size spec
    → calculate_max_payload_size spec < 14472
    → length (cobs_encode packet) ≤ (calculate_stack_and_buffer_sizes spec).max_buffer_size
frame-fits_buffer spec rpc_id seq_id payload packet h small most =
    let packet_length : length packet ≡ 6 + length payload =
      rw ((pack_frame-eq-ok rpc_id seq_id payload h).3) (omega arith) in
    omega (arith, length-cobs_encode packet, (calculate_stack_and_buffer_sizes_lem spec).3)
