-- ===== src/Client/Cobs.antt =====
-- `cobs_encode` and `cobs_decode` of the client code in windrpc/client/python.py.
pub mod Blocks
pub mod Framing
pub mod RoundTrip
use windrpc.Base.{
  ℕ, zero, suc, ◌+◌, ◌-◌, Bool, true, false, ◌&&◌, List, [], ◌∷◌, ◌++◌, ltb, ◌==◌, if◌then◌else◌,
  length, set, not,
}
use windrpc.Base.Result.{Result, ok, raise, value_error, no_fuel}

abbrev pub Bytes : Type 0
Bytes = List ℕ

-- `dest`, `code_idx` and `code`
pub record Encoder : Type 0 where
  pub dest : Bytes
  pub code_idx : ℕ
  pub code : ℕ

-- `code_idx = len(dest); dest.append(0); code = 1`
open_block : Bytes → Encoder
open_block dest = record { dest = dest ++ 0 ∷ []; code_idx = length dest; code = 1 }

-- `dest[code_idx] = code`, and then a new block
close_block : Encoder → Encoder
unfolding open_block
close_block e = open_block (set e.dest e.code_idx e.code)

-- `dest.append(byte); code += 1`
append_byte : Encoder → ℕ → Encoder
append_byte e byte = record e { dest = e.dest ++ byte ∷ []; code = e.code + 1 }

-- one round of `for byte in data`
encode_byte : Encoder → ℕ → Encoder
unfolding close_block append_byte
encode_byte e byte =
    if not (byte == 0)
    then (let e' = append_byte e byte in if e'.code == 0xff then close_block e' else e')
    else close_block e

encode_loop : Encoder → Bytes → Encoder
unfolding encode_byte
encode_loop e [] = e
encode_loop e (byte ∷ data') = encode_loop (encode_byte e byte) data'

-- the last `dest[code_idx] = code; dest.append(0)`
finish : Encoder → Bytes
finish e = set e.dest e.code_idx e.code ++ 0 ∷ []

unfoldable pub cobs_encode : Bytes → Bytes
unfolding open_block encode_loop finish
cobs_encode [] = 1 ∷ 0 ∷ []
cobs_encode (byte ∷ data') = finish (encode_loop (open_block []) (byte ∷ data'))

-- `if data[-1] == 0: data = data[:-1]`
strip_delimiter : Bytes → Bytes
strip_delimiter [] = []
strip_delimiter (b ∷ []) = if b == 0 then [] else b ∷ []
strip_delimiter (b ∷ c ∷ rest) = b ∷ strip_delimiter (c ∷ rest)

-- `for i in range(1, code)` with `n` rounds left: what is copied, and the bytes from `idx` on
copy : ℕ → Bytes → Bytes → Bytes × Bytes
copy zero rest dest = (rest, dest)
copy (suc n) [] dest = ([], dest)
copy (suc n) (b ∷ rest) dest = copy n rest (dest ++ b ∷ [])

-- `if code < 0xFF and idx < length: dest.append(0)`
end_block : ℕ → Bytes → Bytes → Bytes
end_block code [] dest = dest
end_block code (b ∷ rest) dest = if ltb code 0xff then dest ++ 0 ∷ [] else dest

-- `while idx < length`: the argument holds the bytes from `idx` on
decode_loop : ℕ → Bytes → Bytes → Result Bytes
decode_loop fuel [] dest = ok dest
decode_loop zero (code ∷ rest) dest = raise no_fuel
decode_loop (suc fuel) (code ∷ rest) dest =
    let (rest', dest') = copy (code - 1) rest dest in
    let next = decode_loop fuel rest' (end_block code rest' dest') in
    if code == 0 then raise value_error else next

unfoldable pub cobs_decode : Bytes → Result Bytes
unfolding strip_delimiter copy end_block decode_loop
cobs_decode data' = let body = strip_delimiter data' in decode_loop (length body) body []
