-- ===== src/Client/Cobs/RoundTrip.antt =====
-- `cobs_decode` undoes `cobs_encode`; the decoder ends on every input.
use windrpc.Base.{
  ℕ, zero, suc, ◌-◌, ◌≤◌, ◌<◌, false, [], ◌∷◌, ◌++◌, ◌≡◌, ◌≢◌, refl, ap, ◌∙◌, inl, inr, arith, ◌==◌,
  length, length-append, append_assoc, append-nil, Bool-cases, ==_iff, All,
}
use native.Mathlib.Nat.{le_refl}
use windrpc.Base.Result.{ok, raise, no_fuel}
use windrpc.Client.Cobs.{
  Bytes, strip_delimiter, copy, end_block, decode_loop, cobs_encode, cobs_decode,
}
use windrpc.Client.Cobs.Framing.{encoded-nonzero}
use windrpc.Client.Cobs.Blocks.{
  encoded, encoded-ne-nil, encoded_nil, encoded_zero, encoded_full, encoded_more,
  cobs_encode-encoded,
}

strip_delimiter-append : (body : Bytes) → strip_delimiter (body ++ 0 ∷ []) ≡ body
unfolding strip_delimiter
strip_delimiter-append [] = refl
strip_delimiter-append (b ∷ []) = refl
strip_delimiter-append (b ∷ c ∷ rest) = ap (λ l. b ∷ l) (strip_delimiter-append (c ∷ rest))

-- a block whose bytes are all there is copied
copy-block :
    (block rest dest : Bytes) → copy (length block) (block ++ rest) dest ≡ (rest, dest ++ block)
unfolding copy
copy-block [] rest dest = rw append-nil
copy-block (b ∷ block) rest dest = copy-block block rest (dest ++ b ∷ []) ∙ rw append_assoc

-- one round of the decoder on a block that is followed by `rest`
decode_block :
    (fuel : ℕ) (block rest dest : Bytes)
    → decode_loop (suc fuel) (suc (length block) ∷ (block ++ rest)) dest
      ≡ decode_loop fuel rest (end_block (suc (length block)) rest (dest ++ block))
unfolding decode_loop
decode_block fuel block rest dest =
    let size : suc (length block) - 1 ≡ length block = omega arith in
    let test : (suc (length block) == 0) ≡ false = ground arith in
    rw (size, copy-block block rest dest, test)

decode_round :
    (fuel : ℕ) (block rest dest : Bytes)
    → length (suc (length block) ∷ (block ++ rest)) ≤ fuel
    → (f : ℕ) × (length rest ≤ f)
      × (decode_loop fuel (suc (length block) ∷ (block ++ rest)) dest
          ≡ decode_loop f rest (end_block (suc (length block)) rest (dest ++ block)))
decode_round zero block rest dest h = absurd (omega arith)
decode_round (suc f) block rest dest h =
    (f, omega (arith, length-append block rest), decode_block f block rest dest)

-- a block below 255 that is not the last stands for its bytes and a zero
end_short :
    (code : ℕ) (rest dest : Bytes)
    → code < 255
    → rest ≢ []
    → end_block code rest dest ≡ dest ++ 0 ∷ []
unfolding end_block
end_short code [] dest h ne = absurd (ne refl)
end_short code (b ∷ rest) dest h ne = ground arith

end_last : (code : ℕ) (dest : Bytes) → end_block code [] dest ≡ dest
unfolding end_block
end_last code dest = refl

end_full : (rest dest : Bytes) → end_block 255 rest dest ≡ dest
unfolding end_block
end_full [] dest = refl
end_full (b ∷ rest) dest = refl

decode_nil : (fuel : ℕ) (dest : Bytes) → decode_loop fuel [] dest ≡ ok dest
unfolding decode_loop
decode_nil zero dest = refl
decode_nil (suc fuel) dest = refl

-- The blocks decode to the bytes of the open block and those still to come.
decode-encoded :
    (data' block dest : Bytes)
    → length block < 254
    → (fuel : ℕ) → length (encoded block data') ≤ fuel
    → decode_loop fuel (encoded block data') dest ≡ ok (dest ++ (block ++ data'))
decode-encoded [] block dest h fuel le =
    let (f, le', step) = decode_round fuel block [] dest (rw (encoded_nil block) at le) in
    rw (encoded_nil block, append-nil) (rw (append-nil, end_last) at (step ∙ decode_nil f _))
decode-encoded (b ∷ data') block dest h fuel le = elim (Bool-cases (b == 0)) [
  | inl z ↦
      let e : b ≡ 0 = (==_iff b 0).0 z in
      let (f, le', step) =
        decode_round fuel block (encoded [] data') dest (rw (encoded_zero b data' z block) at le) in
      rw (encoded_zero b data' z block, step, e)
        (rw
          (end_short (suc (length block)) _ (dest ++ block) (omega arith) (encoded-ne-nil [] data'))
          (decode-encoded data' [] _ (omega arith) f le' ∙ simp append_assoc))
  | inr nz ↦ elim (Bool-cases (length block == 253)) [
    | inl full ↦
        let size : suc (length (block ++ b ∷ [])) ≡ 255 =
          omega (arith, length-append block (b ∷ []), (==_iff (length block) 253).0 full) in
        let (f, le', step) =
          decode_round fuel (block ++ b ∷ []) (encoded [] data') dest
            (rw (encoded_full b data' nz block full) at le) in
        rw (encoded_full b data' nz block full) (
          rw (size, end_full) at step
          ∙ decode-encoded data' [] _ (omega arith) f le'
          ∙ simp append_assoc)
    | inr more ↦
        let room : length (block ++ b ∷ []) < 254 = ground (arith, length-append block (b ∷ [])) in
        rw (encoded_more b data' nz block more) (
          decode-encoded data' (block ++ b ∷ []) dest room fuel
            (rw (encoded_more b data' nz block more) at le)
          ∙ simp append_assoc)
  ]
]

-- Every sequence of bytes, of any length, is read back from its COBS frame.
pub cobs_decode-cobs_encode : (data' : Bytes) → cobs_decode (cobs_encode data') ≡ ok data'
cobs_decode-cobs_encode data' =
    unfold cobs_decode in
    rw (cobs_encode-encoded data', strip_delimiter-append (encoded [] data'))
      (decode-encoded data' [] [] (omega arith) _ (le_refl _))

strip_delimiter-nonzero : (body : Bytes) → All (λ b. b ≢ 0) body → strip_delimiter body ≡ body
unfolding strip_delimiter
strip_delimiter-nonzero [] h = refl
strip_delimiter-nonzero (b ∷ []) h = ground arith
strip_delimiter-nonzero (b ∷ c ∷ rest) h = ap (λ l. b ∷ l) (strip_delimiter-nonzero (c ∷ rest) h.1)

-- A frame is read back also when the receiver has taken the delimiter off.
pub cobs_decode-encoded : (data' : Bytes) → cobs_decode (encoded [] data') ≡ ok data'
cobs_decode-encoded data' =
    unfold cobs_decode in
    rw (strip_delimiter-nonzero (encoded [] data') (encoded-nonzero data'))
      (decode-encoded data' [] [] (omega arith) _ (le_refl _))

length-copy-le : (n : ℕ) (rest dest : Bytes) → length (copy n rest dest).0 ≤ length rest
unfolding copy
length-copy-le zero rest dest = omega arith
length-copy-le (suc n) [] dest = omega arith
length-copy-le (suc n) (b ∷ rest) dest = omega (arith, length-copy-le n rest (dest ++ b ∷ []))

decode_loop_ends :
    (fuel : ℕ) (body dest : Bytes) → length body ≤ fuel → decode_loop fuel body dest ≢ raise no_fuel
unfolding decode_loop
decode_loop_ends zero [] dest h = cc
decode_loop_ends (suc fuel) [] dest h = cc
decode_loop_ends zero (code ∷ rest) dest h = absurd (omega arith)
decode_loop_ends (suc fuel) (code ∷ rest) dest h = ground (
  arith,
  length-copy-le (code - 1) rest dest,
  decode_loop_ends fuel (copy (code - 1) rest dest).0
      (end_block code (copy (code - 1) rest dest).0 (copy (code - 1) rest dest).1),
)

-- The loop of `cobs_decode` ends on every input, within as many rounds as there are bytes.
pub cobs_decode_ends : (data' : Bytes) → cobs_decode data' ≢ raise no_fuel
cobs_decode_ends data' =
    unfold cobs_decode in decode_loop_ends _ (strip_delimiter data') [] (le_refl _)
