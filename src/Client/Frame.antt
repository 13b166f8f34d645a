-- ===== src/Client/Frame.antt =====
-- `WindRpcFrame`, `pack_frame` and `unpack_frame` of the client code in windrpc/client/python.py.
pub mod RoundTrip
use windrpc.Base.{
  ℕ, zero, suc, ◌+◌, ◌*◌, ◌/◌, ◌%◌, ◌&&◌, List, [], ◌∷◌, ◌++◌, ltb, if◌then◌else◌, length, take,
  drop,
}
use windrpc.Base.Result.{Result, ok, raise, value_error, struct_error, ◌>>=◌}
use windrpc.Client.Cobs.{Bytes}

pub record WindRpcFrame : Type 0 where
  pub rpc_id : ℕ
  pub seq_id : ℕ
  pub payload : Bytes

-- `struct.pack('<H', n)` of an `n` below 2 ^ 16
unfoldable pub le16 : ℕ → Bytes
le16 n = n % 256 ∷ n / 256 ∷ []

-- `struct.pack('<HHH', a, b, c)`
unfoldable pub pack_header : ℕ → ℕ → ℕ → Result Bytes
unfolding le16
pack_header a b c =
    if ltb a 65536 && ltb b 65536 && ltb c 65536
    then ok (le16 a ++ le16 b ++ le16 c)
    else raise struct_error

unfoldable pub pack_frame : ℕ → ℕ → Bytes → Result Bytes
unfolding pack_header
pack_frame rpc_id seq_id payload = do
  header ← pack_header rpc_id seq_id (length payload)
  ok (header ++ payload)

-- `data[i]`
unfoldable pub byte_at : Bytes → ℕ → ℕ
byte_at [] i = 0
byte_at (b ∷ rest) zero = b
byte_at (b ∷ rest) (suc i) = byte_at rest i

-- `struct.unpack('<H', data[i:i + 2])`
unfoldable pub word_at : Bytes → ℕ → ℕ
unfolding byte_at
word_at data' i = byte_at data' i + 256 * byte_at data' (suc i)

unfoldable pub unpack_frame : Bytes → Result WindRpcFrame
unfolding word_at
unpack_frame data' =
    if ltb (length data') 6
    then raise value_error
    else ok (record {
      rpc_id = word_at data' 0;
      seq_id = word_at data' 2;
      payload = take (word_at data' 4) (drop 6 data');
    })
