-- ===== src/Client/Cobs/Blocks.antt =====
-- COBS by blocks, without an array: what the loop of `cobs_encode` writes.
use windrpc.Base.{
  ℕ, suc, ◌+◌, true, false, [], ◌∷◌, ◌++◌, ◌≡◌, ◌≢◌, refl, ap, ◌∙◌, inl, inr, arith, ◌==◌,
  if◌then◌else◌, length, length-append, set-append, append_assoc, append-nil, Bool-cases, ==_iff,
}
use windrpc.Client.Cobs.{
  Bytes, Encoder, open_block, close_block, append_byte, encode_byte, encode_loop, finish,
  cobs_encode,
}

-- The blocks of what is still to come, after the bytes of the block that is open.
pub encoded : Bytes → Bytes → Bytes
encoded block [] = suc (length block) ∷ block
encoded block (b ∷ data') =
    let ended = suc (length block) ∷ (block ++ encoded [] data') in
    let full = 255 ∷ ((block ++ b ∷ []) ++ encoded [] data') in
    let more = encoded (block ++ b ∷ []) data' in
    if b == 0 then ended else if length block == 253 then full else more

-- the encoder inside a block
abbrev inside : Bytes → Bytes → Encoder
inside done block = record {
  dest = done ++ 0 ∷ block;
  code_idx = length done;
  code = suc (length block);
}

close_inside :
    (done block : Bytes)
    → close_block (inside done block) ≡ inside (done ++ suc (length block) ∷ block) []
unfolding close_block open_block
close_inside done block = rw set-append

append_inside :
    (done block : Bytes) (b : ℕ) → append_byte (inside done block) b ≡ inside done (block ++ b ∷ [])
unfolding append_byte
append_inside done block b = λ i. record {
  dest = append_assoc done (0 ∷ block) (b ∷ []) i;
  code_idx = length done;
  code = one_more i;
}
  where
    one_more : suc (length block) + 1 ≡ suc (length (block ++ b ∷ []))
    one_more = omega (arith, length-append block (b ∷ []))

finish-inside :
    (done block : Bytes)
    → finish (inside done block) ≡ (done ++ suc (length block) ∷ block) ++ 0 ∷ []
unfolding finish
finish-inside done block = rw set-append

pub encoded_nil : (block : Bytes) → encoded block [] ≡ suc (length block) ∷ (block ++ [])
unfolding encoded
encoded_nil block = rw append-nil

module _ (b : ℕ) (data' : Bytes) (zero_byte : (b == 0) ≡ true) where
  encode_byte_zero : (e : Encoder) → encode_byte e b ≡ close_block e
  unfolding encode_byte
  encode_byte_zero e = rw zero_byte

  pub encoded_zero :
      (block : Bytes) → encoded block (b ∷ data') ≡ suc (length block) ∷ (block ++ encoded [] data')
  unfolding encoded
  encoded_zero block = rw zero_byte

module _ (b : ℕ) (data' : Bytes) (nonzero : (b == 0) ≡ false) (block : Bytes) where
  encode_byte_full :
      (done : Bytes)
      → (length block == 253) ≡ true
      → encode_byte (inside done block) b ≡ close_block (inside done (block ++ b ∷ []))
  encode_byte_full done h =
      let full : (suc (length block) + 1 == 255) ≡ true = ground arith in
      unfold encode_byte in rw (nonzero, full) (ap close_block (append_inside done block b))

  encode_byte_more :
      (done : Bytes)
      → (length block == 253) ≡ false
      → encode_byte (inside done block) b ≡ inside done (block ++ b ∷ [])
  encode_byte_more done h =
      let room : (suc (length block) + 1 == 255) ≡ false = ground arith in
      unfold encode_byte in rw (nonzero, room) (append_inside done block b)

  pub encoded_full :
      (length block == 253) ≡ true
      → encoded block (b ∷ data') ≡ 255 ∷ ((block ++ b ∷ []) ++ encoded [] data')
  unfolding encoded
  encoded_full h = rw (nonzero, h)

  pub encoded_more :
      (length block == 253) ≡ false → encoded block (b ∷ data') ≡ encoded (block ++ b ∷ []) data'
  unfolding encoded
  encoded_more h = rw (nonzero, h)

pub encoded-ne-nil : (block data' : Bytes) → encoded block data' ≢ []
encoded-ne-nil block [] = rw encoded_nil (cc)
encoded-ne-nil block (b ∷ data') = elim (Bool-cases (b == 0)) [
  | inl z ↦ rw (encoded_zero b data' z block) (cc)
  | inr nz ↦ elim (Bool-cases (length block == 253)) [
    | inl full ↦ rw (encoded_full b data' nz block full) (cc)
    | inr more ↦ rw (encoded_more b data' nz block more) (encoded-ne-nil (block ++ b ∷ []) data')
  ]
]

encode_loop_step :
    (e : Encoder) (b : ℕ) (data' : Bytes)
    → encode_loop e (b ∷ data') ≡ encode_loop (encode_byte e b) data'
unfolding encode_loop
encode_loop_step e b data' = refl

-- The array that the loop leaves is what was written before, and the blocks.
encode_loop-encoded :
    (done block data' : Bytes)
    → finish (encode_loop (inside done block) data') ≡ (done ++ encoded block data') ++ 0 ∷ []
encode_loop-encoded done block [] = unfold encode_loop encoded in finish-inside done block
encode_loop-encoded done block (b ∷ data') = elim (Bool-cases (b == 0)) [
  | inl z ↦
      rw
        (
          encode_loop_step,
          encode_byte_zero b data' z,
          close_inside done block,
          encoded_zero b data' z block,
        )
        (encode_loop-encoded (done ++ suc (length block) ∷ block) [] data' ∙ simp append_assoc)
  | inr nz ↦ elim (Bool-cases (length block == 253)) [
    | inl full ↦
        let size : suc (length (block ++ b ∷ [])) ≡ 255 =
          omega (arith, length-append block (b ∷ []), (==_iff (length block) 253).0 full) in
        rw
          (
            encode_loop_step,
            encode_byte_full b data' nz block done full,
            close_inside done (block ++ b ∷ []),
            size,
            encoded_full b data' nz block full,
          )
          (encode_loop-encoded (done ++ 255 ∷ (block ++ b ∷ [])) [] data' ∙ simp append_assoc)
    | inr more ↦
        rw
          (
            encode_loop_step,
            encode_byte_more b data' nz block done more,
            encoded_more b data' nz block more,
          )
          (encode_loop-encoded done (block ++ b ∷ []) data')
  ]
]

-- `cobs_encode` writes the blocks of its data and the delimiter.
pub cobs_encode-encoded : (data' : Bytes) → cobs_encode data' ≡ encoded [] data' ++ 0 ∷ []
cobs_encode-encoded [] = unfold cobs_encode encoded in refl
cobs_encode-encoded (b ∷ data') = unfold cobs_encode in encode_loop-encoded [] [] (b ∷ data')
