-- ===== src/Spec/Ids.antt =====
-- The 16-bit identifiers of requests and of events.
use windrpc.Base.{
  ℕ, ◌+◌, ◌*◌, ◌/◌, ◌%◌, ◌≤◌, ◌<◌, ◌≡◌, ◌≢◌, ◌⊎◌, inl, inr, arith, ltb, if◌then◌else◌,
}
use windrpc.Base.Bits.{bit_or-shift, bit_or-128}
use windrpc.Base.Result.{ok, raise, value_error}
use windrpc.Spec.{combined_id, combine_ids, event_id}

pub combined_id_lem : (s r : ℕ) → r < 256 → combined_id s r ≡ s * 256 + r
unfolding combined_id
combined_id_lem s r h = bit_or-shift s r h

pub event_id_lem :
    (s r : ℕ) → r < 256 → event_id s r ≡ (if ltb r 128 then s * 256 + r + 128 else s * 256 + r)
unfolding event_id
event_id_lem s r h =
    rw (bit_or-128 r h) (ground (arith, bit_or-shift s r, bit_or-shift s (r + 128)))

combine_cases :
    (s r : ℕ)
    → ((s < 256) × (r < 256) × (combine_ids s r ≡ ok (combined_id s r)))
      ⊎ (((256 ≤ s) ⊎ (256 ≤ r)) × (combine_ids s r ≡ raise value_error))
unfolding combine_ids
combine_cases s r = ground arith

combined_parts :
    (s r : ℕ)
    → s < 256
    → r < 256
    → (combined_id s r < 65536) × (combined_id s r / 256 ≡ s) × (combined_id s r % 256 ≡ r)
combined_parts s r hs hr = omega (arith, combined_id_lem s r hr)

-- Two byte-sized identifiers are combined into a 16-bit one, from which both are read back; if
-- either is above 255, `ValueError` is raised.
pub combine_ids_lem :
    (s r : ℕ)
    → ((s < 256)
        × (r < 256)
        × ((n : ℕ) × (combine_ids s r ≡ ok n) × (n < 65536) × (n / 256 ≡ s) × (n % 256 ≡ r)))
      ⊎ (((256 ≤ s) ⊎ (256 ≤ r)) × (combine_ids s r ≡ raise value_error))
combine_ids_lem s r = elim (combine_cases s r) [
  | inl (hs, hr, e) ↦
      let small : (combined_id s r < 65536)
          × (combined_id s r / 256 ≡ s)
          × (combined_id s r % 256 ≡ r) =
        combined_parts s r hs hr in
      inl (hs, hr, (combined_id s r, e, small.0, small.1, small.2))
  | inr bad ↦ inr bad
]

-- Different requests have different identifiers.
pub combined_id-injective :
    (s r s' r' : ℕ) → r < 256 → r' < 256 → combined_id s r ≡ combined_id s' r' → (s ≡ s') × (r ≡ r')
combined_id-injective s r s' r' h h' e =
    omega (arith, combined_id_lem s r h, combined_id_lem s' r' h')

-- As long as requests are numbered below 128, bit 7 tells events from requests: no event has the
-- identifier of a request.
pub event_ids_apart :
    (s r s' r' : ℕ)
    → r < 128
    → r' < 128
    → (event_id s r / 128 % 2 ≡ 1)
      × (combined_id s' r' / 128 % 2 ≡ 0)
      × (event_id s r ≢ combined_id s' r')
event_ids_apart s r s' r' h h' = ground (arith, event_id_lem s r, combined_id_lem s' r')

-- Different notifications numbered below 128 have different events.
pub event_id-injective :
    (s r s' r' : ℕ) → r < 128 → r' < 128 → event_id s r ≡ event_id s' r' → (s ≡ s') × (r ≡ r')
event_id-injective s r s' r' h h' e = ground (arith, event_id_lem s r, event_id_lem s' r')

-- A notification with a number from 128 to 255 has events with the identifier of its own
-- subscription.
pub event_id_collision : (s r : ℕ) → 128 ≤ r → r < 256 → event_id s r ≡ combined_id s r
event_id_collision s r lo hi = ground (arith, event_id_lem s r, combined_id_lem s r)
