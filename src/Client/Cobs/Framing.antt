-- ===== src/Client/Cobs/Framing.antt =====
-- What a COBS frame is made of: no zero before the delimiter, bytes only, a bounded overhead.
use windrpc.Base.{
  ℕ, suc, ◌+◌, ◌*◌, ◌/◌, ◌≤◌, ◌<◌, false, [], ◌∷◌, ◌++◌, ◌≡◌, ◌≢◌, inl, inr, arith, ◌==◌, length,
  length-append, append-nil, Bool-cases, ==_iff, All, All-append,
}
use windrpc.Client.Cobs.{Bytes, cobs_encode}
use windrpc.Client.Cobs.Blocks.{
  encoded, encoded_nil, encoded_zero, encoded_full, encoded_more, cobs_encode-encoded,
}

-- A property of bytes that every code has passes from the data to the blocks.
module _ (P : ℕ → Type 0) (of_code : (n : ℕ) → n < 255 → P (suc n)) where
  encoded-All :
      (data' block : Bytes)
      → All (λ b. (b == 0) ≡ false → P b) data'
      → length block < 254
      → All P block
      → All P (encoded block data')
  encoded-All [] block hd h hb =
      rw (encoded_nil block, append-nil) (of_code (length block) (omega arith), hb)
  encoded-All (b ∷ data') block (hb', hd) h hb = elim (Bool-cases (b == 0)) [
    | inl z ↦ rw (encoded_zero b data' z block) (
      of_code (length block) (omega arith),
      All-append P block _ hb (encoded-All data' [] hd (omega arith) tt),
    )
    | inr nz ↦
        let longer : All P (block ++ b ∷ []) = All-append P block (b ∷ []) hb (hb' nz, tt) in
        elim (Bool-cases (length block == 253)) [
          | inl full ↦ rw (encoded_full b data' nz block full) (
            of_code 254 (omega arith),
            All-append P _ _ longer (encoded-All data' [] hd (omega arith) tt),
          )
          | inr more ↦ rw (encoded_more b data' nz block more) (
              encoded-All data' (block ++ b ∷ []) hd (ground (arith, length-append block (b ∷ [])))
                longer)
        ]
  ]

nonzero_data : (data' : Bytes) → All (λ b. (b == 0) ≡ false → b ≢ 0) data'
nonzero_data [] = tt
nonzero_data (b ∷ data') = (λ h. ground arith, nonzero_data data')

pub encoded-nonzero : (data' : Bytes) → All (λ b. b ≢ 0) (encoded [] data')
encoded-nonzero data' =
    encoded-All _ (λ n h. omega arith) data' [] (nonzero_data data') (omega arith) tt

byte_data : (data' : Bytes) → All (λ b. b < 256) data' → All (λ b. (b == 0) ≡ false → b < 256) data'
byte_data [] h = tt
byte_data (b ∷ data') (hb, h) = (λ e. hb, byte_data data' h)

-- The frame of any data is a body with no zero byte in it, and one zero behind it; the body of
-- bytes consists of bytes.
pub cobs_encode_frame :
    (data' : Bytes)
    → All (λ b. b < 256) data'
    → (body : Bytes) × (cobs_encode data' ≡ body ++ 0 ∷ [])
      × All (λ b. b ≢ 0) body
      × All (λ b. b < 256) body
cobs_encode_frame data' h = (
  encoded [] data',
  cobs_encode-encoded data',
  encoded-nonzero data',
  encoded-All _ (λ n k. omega arith) data' [] (byte_data data' h) (omega arith) tt,
)

encoded_overhead :
    (data' block : Bytes)
    → 254 * length (encoded block data') ≤ 255 * (length block + length data') + 254
encoded_overhead [] block = rw (encoded_nil block, append-nil) (omega arith)
encoded_overhead (b ∷ data') block = elim (Bool-cases (b == 0)) [
  | inl z ↦
      rw (encoded_zero b data' z block)
        (omega (arith, length-append block (encoded [] data'), encoded_overhead data' []))
  | inr nz ↦ elim (Bool-cases (length block == 253)) [
    | inl full ↦ rw (encoded_full b data' nz block full) (
        omega (
          arith,
          (==_iff (length block) 253).0 full,
          length-append (block ++ b ∷ []) (encoded [] data'),
          length-append block (b ∷ []),
          encoded_overhead data' [],
        ))
    | inr more ↦
        rw (encoded_more b data' nz block more)
          (omega (arith, length-append block (b ∷ []), encoded_overhead data' (block ++ b ∷ [])))
  ]
]

-- A frame is longer than its data by two bytes and one for each 254 bytes at most.
pub length-cobs_encode :
    (data' : Bytes) → length (cobs_encode data') ≤ length data' + length data' / 254 + 2
length-cobs_encode data' =
    rw (cobs_encode-encoded data')
      (omega (arith, length-append (encoded [] data') (0 ∷ []), encoded_overhead data' []))
