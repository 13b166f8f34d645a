-- ===== src/Client/Examples.antt =====
-- COBS frames and packets on small inputs.
use windrpc.Base.{◌<◌, ◌≡◌, ◌≢◌, refl, [], ◌∷◌, ◌++◌, arith, All}
use windrpc.Base.Result.{ok}
use windrpc.Client.Cobs.{Bytes, cobs_encode, cobs_decode}
use windrpc.Client.Cobs.Framing.{cobs_encode_frame}
use windrpc.Client.Cobs.RoundTrip.{cobs_decode-cobs_encode}
use windrpc.Client.Frame.{WindRpcFrame, pack_frame, unpack_frame}
use windrpc.Client.Frame.RoundTrip.{unpack_frame-pack_frame}

abbrev pub payload_bytes : Bytes
payload_bytes = 5 ∷ 0 ∷ 6 ∷ []

abbrev pub response_packet : Bytes
response_packet = 1 ∷ 6 ∷ 7 ∷ 0 ∷ 3 ∷ 0 ∷ 5 ∷ 0 ∷ 6 ∷ []

abbrev pub error_packet : Bytes
error_packet = 0 ∷ 0 ∷ 7 ∷ 0 ∷ 0 ∷ 0 ∷ []

abbrev pub response : WindRpcFrame
response = record { rpc_id = 1537; seq_id = 7; payload = payload_bytes }

pub response_packed : pack_frame 1537 7 payload_bytes ≡ ok response_packet
unfolding pack_frame
response_packed = refl

cobs_decode-cobs_encode_example : cobs_decode (cobs_encode payload_bytes) ≡ ok payload_bytes
cobs_decode-cobs_encode_example = cobs_decode-cobs_encode payload_bytes

cobs_encode_frame_example :
    (body : Bytes) × (cobs_encode payload_bytes ≡ body ++ 0 ∷ [])
    × All (λ b. b ≢ 0) body
    × All (λ b. b < 256) body
cobs_encode_frame_example =
    cobs_encode_frame payload_bytes (omega arith, (omega arith, (omega arith, tt)))

unpack_frame-pack_frame_example : unpack_frame (response_packet ++ 9 ∷ []) ≡ ok response
unpack_frame-pack_frame_example =
    unpack_frame-pack_frame 1537 7 payload_bytes (9 ∷ []) response_packet response_packed
