-- ===== src/Client/Frame/RoundTrip.antt =====
-- Frames are read back from their bytes, and what does not fit a header is refused.
use windrpc.Base.{
  ℕ, ◌+◌, ◌*◌, ◌/◌, ◌%◌, ◌<◌, ◌≤◌, ◌≡◌, refl, List, [], ◌∷◌, ◌++◌, arith, length, take, ap, ltb,
  ◌⊎◌, inl, inr, false, All, length-take-le, length-take-le_length,
}
use windrpc.Base.Result.{ok, raise, value_error, struct_error}
use windrpc.Client.Cobs.{Bytes}
use windrpc.Client.Frame.{WindRpcFrame, word_at, pack_frame, unpack_frame}

pub take-length-append {ℓ} : {A : Type ℓ} (xs ys : List A) → take (length xs) (xs ++ ys) ≡ xs
take-length-append [] ys = refl
take-length-append (x ∷ xs) ys = ap (λ l. x ∷ l) (take-length-append xs ys)

abbrev packed : ℕ → ℕ → Bytes → Bytes
packed r s payload =
    r % 256 ∷ r / 256 ∷ s % 256 ∷ s / 256 ∷ length payload % 256 ∷ length payload / 256 ∷ payload

module _ (rpc_id seq_id : ℕ) (payload : Bytes) where
  abbrev Fits : Type 0
  Fits = (rpc_id < 65536) × (seq_id < 65536) × (length payload < 65536)

  pack_frame_cases :
      (Fits × (pack_frame rpc_id seq_id payload ≡ ok (packed rpc_id seq_id payload)))
      ⊎ (((65536 ≤ rpc_id) ⊎ ((65536 ≤ seq_id) ⊎ (65536 ≤ length payload)))
          × (pack_frame rpc_id seq_id payload ≡ raise struct_error))
  unfolding pack_frame
  pack_frame_cases = ground arith

  pub pack_frame-eq-ok :
      {packet : Bytes}
      → pack_frame rpc_id seq_id payload ≡ ok packet
      → (rpc_id < 65536)
        × (seq_id < 65536)
        × (length payload < 65536)
        × (packet ≡ packed rpc_id seq_id payload)
  unfolding pack_frame
  pack_frame-eq-ok h = ground arith

  unpack_frame-packed :
      (rest : Bytes)
      → unpack_frame (packed rpc_id seq_id payload ++ rest)
        ≡ ok (record { rpc_id = rpc_id; seq_id = seq_id; payload = payload })
  unfolding unpack_frame
  unpack_frame-packed rest =
      let long : ltb (length (packed rpc_id seq_id payload ++ rest)) 6 ≡ false = ground arith in
      let r : rpc_id % 256 + 256 * (rpc_id / 256) ≡ rpc_id = omega arith in
      let s : seq_id % 256 + 256 * (seq_id / 256) ≡ seq_id = omega arith in
      let n : length payload % 256 + 256 * (length payload / 256) ≡ length payload = omega arith in
      rw (long, r, s, n, take-length-append payload rest)

-- Header fields below 2 ^ 16 and the payload are read back, also when more bytes follow the frame.
pub unpack_frame-pack_frame :
    (rpc_id seq_id : ℕ) (payload rest packet : Bytes)
    → pack_frame rpc_id seq_id payload ≡ ok packet
    → unpack_frame (packet ++ rest)
      ≡ ok (record { rpc_id = rpc_id; seq_id = seq_id; payload = payload })
unpack_frame-pack_frame rpc_id seq_id payload rest packet h =
    rw ((pack_frame-eq-ok rpc_id seq_id payload h).3)
      (unpack_frame-packed rpc_id seq_id payload rest)

-- Either both identifiers and the payload's length fit 16 bits, and packing gives a packet that is
-- six bytes longer than the payload, or one of them does not fit, and packing raises
-- `struct.error`.
pub pack_frame_lem :
    (rpc_id seq_id : ℕ) (payload : Bytes)
    → ((rpc_id < 65536)
        × (seq_id < 65536)
        × (length payload < 65536)
        × ((packet : Bytes) × (pack_frame rpc_id seq_id payload ≡ ok packet)
            × (length packet ≡ 6 + length payload)))
      ⊎ (((65536 ≤ rpc_id) ⊎ ((65536 ≤ seq_id) ⊎ (65536 ≤ length payload)))
          × (pack_frame rpc_id seq_id payload ≡ raise struct_error))
pack_frame_lem rpc_id seq_id payload = elim (pack_frame_cases rpc_id seq_id payload) [
  | inl (fits, e) ↦ inl (fits.0, fits.1, fits.2, (packed rpc_id seq_id payload, e, omega arith))
  | inr bad ↦ inr bad
]

-- A datagram of six bytes or more unpacks to a frame with identifiers below 2 ^ 16, and with a
-- payload that is no longer than its header says and than what follows the header; a shorter one
-- raises `ValueError`.
pub unpack_frame_lem :
    (data' : Bytes)
    → All (λ b. b < 256) data'
    → ((6 ≤ length data')
        × ((frame : WindRpcFrame) × (unpack_frame data' ≡ ok frame)
            × (frame.rpc_id < 65536)
            × (frame.seq_id < 65536)
            × (length frame.payload ≤ word_at data' 4)
            × (length frame.payload + 6 ≤ length data')))
      ⊎ ((length data' < 6) × (unpack_frame data' ≡ raise value_error))
unpack_frame_lem (a ∷ b ∷ c ∷ d ∷ e ∷ f ∷ rest) h = inl (
  omega arith,
  (
    record { rpc_id = a + 256 * b; seq_id = c + 256 * d; payload = take (e + 256 * f) rest },
    unfold unpack_frame in ground arith,
    omega arith,
    omega arith,
    unfold word_at in length-take-le _ rest,
    omega (arith, length-take-le_length (e + 256 * f) rest),
  ),
)
unpack_frame_lem data' h = inr (omega arith, unfold unpack_frame in ground arith)
