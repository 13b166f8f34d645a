-- ===== src/Spec/Required.antt =====
-- `d['key']` of a specification: what the generators do when the key is missing.
use windrpc.Base.{ℕ, Option, none, some}
use windrpc.Base.Result.{Result, ok, raise, key_error, type_error, value_error}
use windrpc.Spec.{Scalar, int, text, pos, negsuc}

unfoldable pub required {ℓ} : {A : Type ℓ} → Option A → Result A
required none = raise key_error
required (some a) = ok a

-- An id, where it is shifted or combined. A text raises `TypeError`. A negative number is refused here:
-- it never comes this far, since each generator calls `validate` first.
unfoldable pub required_id : Option Scalar → Result ℕ
required_id none = raise key_error
required_id (some (text t)) = raise type_error
required_id (some (int (negsuc n))) = raise value_error
required_id (some (int (pos n))) = ok n

-- `d.get('id', 0)`, where it is shifted or combined
unfoldable pub id_or_zero : Option Scalar → Result ℕ
unfolding required_id
id_or_zero none = ok 0
id_or_zero (some id) = required_id (some id)
