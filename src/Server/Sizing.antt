-- ===== src/Server/Sizing.antt =====
-- `_calculate_max_payload_size` and `_calculate_stack_and_buffer_sizes`.
pub mod Bounds
use windrpc.Base.{
  ℕ, ◌+◌, ◌-◌, ◌*◌, ◌/◌, max, Bool, true, false, Option, none, some, List, [], ◌∷◌, ◌++◌, map,
  if◌then◌else◌, ltb,
}
use windrpc.Base.Text.{Str, codes, str_eq, str_mem}
use windrpc.Spec.{Nanopb, Field, Message, Service, Spec}

-- `d.get(key, default)`
unfoldable pub or_else {ℓ} : {A : Type ℓ} → Option A → A → A
or_else none d = d
or_else (some a) d = a

-- `nanopb.get('max_count', 1) if f_prop == 'repeated' else 1`
unfoldable pub field_count : Field → ℕ
unfolding or_else
field_count f =
    if str_eq (or_else f.property []) (codes "repeated") then or_else f.nanopb.max_count 1 else 1

abbrev types_of_5 : List Str
types_of_5 = map codes ("uint32" ∷ "int32" ∷ "fixed32" ∷ "sfixed32" ∷ "float" ∷ [])

abbrev types_of_10 : List Str
types_of_10 = map codes ("uint64" ∷ "int64" ∷ "fixed64" ∷ "sfixed64" ∷ "double" ∷ [])

abbrev types_of_2 : List Str
types_of_2 = map codes ("bool" ∷ "enum" ∷ [])

abbrev types_sized : List Str
types_sized = map codes ("string" ∷ "bytes" ∷ [])

unfoldable pub base_len : Field → ℕ
unfolding or_else
base_len f =
    let t = or_else f.type_name [] in
    if str_mem t types_of_5
    then 5
    else if str_mem t types_of_10
    then 10
    else if str_mem t types_of_2
    then 2
    else if str_mem t types_sized
    then or_else f.nanopb.max_length (or_else f.nanopb.max_size 64) + 2
    else 64

-- `msg_size` after the loop over the fields
unfoldable pub message_size : List Field → ℕ
message_size [] = 0
message_size (f ∷ fields) = base_len f * field_count f + message_size fields

-- the loop over the messages; `max_size` is the largest size so far
unfoldable pub largest : ℕ → List Message → ℕ
unfolding message_size
largest max_size [] = max_size
largest max_size (m ∷ ms) =
    let size = message_size m.fields in largest (if ltb max_size size then size else max_size) ms

service_messages : List Service → List Message
service_messages [] = []
service_messages (s ∷ services) = s.messages ++ service_messages services

unfoldable pub all_messages : Spec → List Message
unfolding service_messages
all_messages spec = service_messages spec.services ++ spec.messages

unfoldable pub calculate_max_payload_size : Spec → ℕ
unfolding largest all_messages
calculate_max_payload_size spec = largest 64 (all_messages spec)

-- `(n + (k - 1)) & ~(k - 1)` for a power `k` of two: the low bits are cleared
align : ℕ → ℕ → ℕ
align n k = (n + (k - 1)) / k * k

pub record Sizes : Type 0 where
  pub max_buffer_size : ℕ
  pub recommended_stack_size : ℕ
  pub max_payload : ℕ

unfoldable pub sizes_of : ℕ → Sizes
unfolding align
sizes_of max_payload =
    let buffer = align (max 256 (max_payload + 64)) 64 in
    record {
      max_buffer_size = buffer;
      recommended_stack_size = align (max 2048 (buffer * 2 + 1024)) 256;
      max_payload = max_payload;
    }

unfoldable pub calculate_stack_and_buffer_sizes : Spec → Sizes
unfolding sizes_of calculate_max_payload_size
calculate_stack_and_buffer_sizes spec = sizes_of (calculate_max_payload_size spec)
