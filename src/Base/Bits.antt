-- ===== src/Base/Bits.antt =====
-- `x << 8 | y`, `y | 0x80` and `x & 0x80` as arithmetic.
use Prim.Native.Nat.{ℕ, zero, suc, ◌+◌, ◌*◌, ◌/◌, ◌%◌, ◌^◌, ◌≤◌, ◌<◌, min, max}
use Prim.Native.Nat.{bit_and, bit_or, digits, bitwise, bit_and-bitwise, bit_or-bitwise}
use native.Mathlib.Nat.{pow-suc}
use mathlib.Core.Path.{◌≡◌, refl, ap, ◌∙◌}
use mathlib.Core.Bool.{Bool, true, ◌&&◌}
use native.Mathlib.Omega.{arith}
use windrpc.Base.Tests.{ltb, ◌==◌, if◌then◌else◌}

module _ (last : ℕ → ℕ) (bit : ℕ → ℕ → ℕ) where
  -- the count of rounds does not matter, once it covers the first number
  more_rounds : (a n m b : ℕ) → a ≤ n → n ≤ m → digits last bit m a b ≡ digits last bit n a b
  more_rounds zero zero zero b h k = refl
  more_rounds zero zero (suc m) b h k = refl
  more_rounds zero (suc n) zero b h k = refl
  more_rounds zero (suc n) (suc m) b h k = refl
  more_rounds (suc a) zero m b h k = absurd (omega arith)
  more_rounds (suc a) (suc n) zero b h k = absurd (omega arith)
  more_rounds (suc a) (suc n) (suc m) b h k =
      rw (more_rounds (suc a / 2) n m (b / 2) (omega arith) (omega arith))

  low_digit :
      (a b : ℕ)
      → bitwise last bit (suc a) b
        ≡ bitwise last bit (suc a / 2) (b / 2) * 2 + bit (suc a % 2) (b % 2)
  low_digit a b =
      omega (arith, more_rounds (suc a / 2) (suc a / 2) a (b / 2) (omega arith) (omega arith))

or_digit : (a b : ℕ) → bit_or a b ≡ bit_or (a / 2) (b / 2) * 2 + max (a % 2) (b % 2)
or_digit zero b = simp bit_or-bitwise (omega arith)
or_digit (suc a) b = simp bit_or-bitwise (low_digit (λ y. y) max a b)

and_digit : (a b : ℕ) → bit_and a b ≡ bit_and (a / 2) (b / 2) * 2 + min (a % 2) (b % 2)
and_digit zero b = simp bit_and-bitwise (omega arith)
and_digit (suc a) b = simp bit_and-bitwise (low_digit (λ y. 0) min a b)

or-zero_below : (n a : ℕ) → a ≤ n → bit_or a 0 ≡ a
or-zero_below n zero h = refl
or-zero_below zero (suc a) h = absurd (omega arith)
or-zero_below (suc n) (suc a) h =
    omega (arith, or_digit (suc a) 0, or-zero_below n (suc a / 2) (omega arith))

and-zero_below : (n a : ℕ) → a ≤ n → bit_and a 0 ≡ 0
and-zero_below n zero h = refl
and-zero_below zero (suc a) h = absurd (omega arith)
and-zero_below (suc n) (suc a) h =
    omega (arith, and_digit (suc a) 0, and-zero_below n (suc a / 2) (omega arith))

double : (q k : ℕ) → q * 2 ^ suc k ≡ q * 2 ^ k + q * 2 ^ k
double q k = omega (arith, ap (λ (t : ℕ). q * t) (pow-suc 2 k))

or_field : (k q r : ℕ) → r < 2 ^ k → bit_or (q * 2 ^ k) r ≡ q * 2 ^ k + r
or_field zero q r h =
    omega (arith, or_digit (q * 1) r, or-zero_below q q (omega arith), or_nought q r (omega arith))
  where
    or_nought : (q r : ℕ) → r ≡ 0 → bit_or (q * 1) r ≡ q
    or_nought q r e = rw e (or-zero_below (q * 1) (q * 1) (omega arith) ∙ omega arith)
or_field (suc k) q r h =
    let even : q * 2 ^ suc k / 2 ≡ q * 2 ^ k = omega (arith, double q k) in
    let bit : q * 2 ^ suc k % 2 ≡ 0 = omega (arith, double q k) in
    let half : r / 2 < 2 ^ k = omega (arith, pow-suc 2 k) in
    let step : bit_or (q * 2 ^ suc k / 2) (r / 2) ≡ q * 2 ^ k + r / 2 =
      rw even (or_field k q (r / 2) half) in
    omega (arith, or_digit (q * 2 ^ suc k) r, double q k, step, bit)

-- The fields of `(q << 8) | r` do not overlap when `r` is a byte.
pub bit_or-shift : (q r : ℕ) → r < 256 → bit_or (q * 256) r ≡ q * 256 + r
bit_or-shift q r h = or_field 8 q r h

and_twice : (a b : ℕ) → bit_and a (b + b) ≡ bit_and (a / 2) b * 2
and_twice a b =
    let half : (b + b) / 2 ≡ b = omega arith in
    let step : bit_and (a / 2) ((b + b) / 2) ≡ bit_and (a / 2) b = rw half in
    omega (arith, and_digit a (b + b), step)

and_one : (a : ℕ) → bit_and a 1 ≡ a % 2
and_one a = omega (arith, and_digit a 1, and-zero_below (a / 2) (a / 2) (omega arith))

-- `x & 0x80` is the bit of weight 128.
pub bit_and-128 : (x : ℕ) → bit_and x 128 ≡ x / 128 % 2 * 128
bit_and-128 x = omega (
  arith,
  and_twice x 64,
  and_twice (x / 2) 32,
  and_twice (x / 2 / 2) 16,
  and_twice (x / 2 / 2 / 2) 8,
  and_twice (x / 2 / 2 / 2 / 2) 4,
  and_twice (x / 2 / 2 / 2 / 2 / 2) 2,
  and_twice (x / 2 / 2 / 2 / 2 / 2 / 2) 1,
  and_one (x / 2 / 2 / 2 / 2 / 2 / 2 / 2),
)

agree : ℕ → (ℕ → ℕ) → (ℕ → ℕ) → Bool
agree zero f g = true
agree (suc n) f g = (f n == g n) && agree n f g

agree_at : (n : ℕ) (f g : ℕ → ℕ) (x : ℕ) → agree n f g ≡ true → x < n → f x ≡ g x
unfolding agree
agree_at zero f g x h lt = absurd (omega arith)
agree_at (suc n) f g x h lt = ground (arith, agree_at n f g x)

set_high : ℕ → ℕ
set_high r = if ltb r 128 then r + 128 else r

set_high_table : agree 256 (λ r. bit_or r 128) set_high ≡ true
unfolding agree set_high
set_high_table = refl

-- `y | 0x80` for a byte sets the top bit and leaves the others.
pub bit_or-128 : (r : ℕ) → r < 256 → bit_or r 128 ≡ (if ltb r 128 then r + 128 else r)
unfolding set_high
bit_or-128 r h = agree_at 256 (λ x. bit_or x 128) set_high r set_high_table h
