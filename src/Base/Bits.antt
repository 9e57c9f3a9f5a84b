-- ===== src/Base/Bits.antt =====
-- `&`, `|` and `^` at variables, for masks and fields of any width.
use Prim.Native.Nat.{
  ℕ, zero, suc, ◌+◌, ◌-◌, ◌*◌, ◌/◌, ◌%◌, ◌^◌, ◌≤◌, ◌<◌, min, max, digits, bitwise, differ, bit_and,
  bit_or, bit_xor, bit_and-bitwise, bit_or-bitwise, bit_xor-bitwise,
}
use mathlib.Core.Path.{◌≡◌, refl, ap}
use native.Mathlib.Nat.{pow-suc, one-le-pow}
use native.Mathlib.Omega.{arith}

module _ (z : ℕ → ℕ) (f : ℕ → ℕ → ℕ) where
  -- Two counts of digits that are both enough give the same number.
  digits_agree : (n k a b : ℕ) → a ≤ n → a ≤ k → digits z f n a b ≡ digits z f k a b
  digits_agree zero zero a b h g = refl
  digits_agree zero (suc k) zero b h g = refl
  digits_agree zero (suc k) (suc a) b h g = absurd (omega arith)
  digits_agree (suc n) zero zero b h g = refl
  digits_agree (suc n) zero (suc a) b h g = absurd (omega arith)
  digits_agree (suc n) (suc k) zero b h g = refl
  digits_agree (suc n) (suc k) (suc a) b h g =
      omega (arith, digits_agree n k (suc a / 2) (b / 2) (omega arith) (omega arith))

  -- The lowest digit apart, for a nonzero first number.
  bitwise_low :
      (a b : ℕ)
      → bitwise z f (suc a) b ≡ bitwise z f (suc a / 2) (b / 2) * 2 + f (suc a % 2) (b % 2)
  bitwise_low a b =
      omega (arith, digits_agree a (suc a / 2) (suc a / 2) (b / 2) (omega arith) (omega arith))

and_low : (a b : ℕ) → bit_and a b ≡ bit_and (a / 2) (b / 2) * 2 + min (a % 2) (b % 2)
and_low zero b = simp bit_and-bitwise (omega arith)
and_low (suc a) b = simp bit_and-bitwise (bitwise_low (λ _. 0) min a b)

pub or_low : (a b : ℕ) → bit_or a b ≡ bit_or (a / 2) (b / 2) * 2 + max (a % 2) (b % 2)
or_low zero b = simp bit_or-bitwise (omega arith)
or_low (suc a) b = simp bit_or-bitwise (bitwise_low (λ d. d) max a b)

differ_digits : (a b : ℕ) → a < 2 → b < 2 → differ a b ≡ (a + b) % 2
differ_digits zero b h g = omega arith
differ_digits (suc zero) zero h g = refl
differ_digits (suc zero) (suc zero) h g = refl
differ_digits (suc zero) (suc (suc b)) h g = absurd (omega arith)
differ_digits (suc (suc a)) b h g = absurd (omega arith)

pub xor_low : (a b : ℕ) → bit_xor a b ≡ bit_xor (a / 2) (b / 2) * 2 + (a + b) % 2
xor_low zero b = simp bit_xor-bitwise (omega arith)
xor_low (suc a) b = simp bit_xor-bitwise (
    omega (
      arith,
      bitwise_low (λ d. d) differ a b,
      differ_digits (suc a % 2) (b % 2) (omega arith) (omega arith),
    ))

-- A number has at most as many digits as itself: a count for the inductions below.
and-zero_counted : (n a : ℕ) → a ≤ n → bit_and a 0 ≡ 0
and-zero_counted n zero h = omega (arith, and_low 0 0)
and-zero_counted zero (suc a) h = absurd (omega arith)
and-zero_counted (suc n) (suc a) h =
    omega (arith, and_low (suc a) 0, and-zero_counted n (suc a / 2) (omega arith))

pub and-zero : (a : ℕ) → bit_and a 0 ≡ 0
and-zero a = and-zero_counted a a (omega arith)

or-zero_counted : (n a : ℕ) → a ≤ n → bit_or a 0 ≡ a
or-zero_counted n zero h = simp bit_or-bitwise
or-zero_counted zero (suc a) h = absurd (omega arith)
or-zero_counted (suc n) (suc a) h =
    omega (arith, or_low (suc a) 0, or-zero_counted n (suc a / 2) (omega arith))

pub or-zero : (a : ℕ) → bit_or a 0 ≡ a
or-zero a = or-zero_counted a a (omega arith)

xor-zero_counted : (n a : ℕ) → a ≤ n → bit_xor a 0 ≡ a
xor-zero_counted n zero h = simp bit_xor-bitwise
xor-zero_counted zero (suc a) h = absurd (omega arith)
xor-zero_counted (suc n) (suc a) h =
    omega (arith, xor_low (suc a) 0, xor-zero_counted n (suc a / 2) (omega arith))

pub xor-zero : (a : ℕ) → bit_xor a 0 ≡ a
xor-zero a = xor-zero_counted a a (omega arith)

and-le_counted : (n a b : ℕ) → a ≤ n → bit_and a b ≤ a
and-le_counted n zero b h = simp bit_and-bitwise (omega arith)
and-le_counted zero (suc a) b h = absurd (omega arith)
and-le_counted (suc n) (suc a) b h =
    omega (arith, and_low (suc a) b, and-le_counted n (suc a / 2) (b / 2) (omega arith))

pub and-le : (a b : ℕ) → bit_and a b ≤ a
and-le a b = and-le_counted a a b (omega arith)

pub two_pow_suc : (k : ℕ) → 2 ^ suc k ≡ 2 * 2 ^ k
two_pow_suc k = omega (arith, pow-suc 2 k)

pub two_pow_pos : (k : ℕ) → 1 ≤ 2 ^ k
two_pow_pos k = one-le-pow k 2 (omega arith)

pub mul-two_pow_suc : (q k : ℕ) → q * 2 ^ suc k ≡ 2 * (q * 2 ^ k)
mul-two_pow_suc q k = omega (arith, ap (λ (t : ℕ). q * t) (two_pow_suc k))

-- The part of a mask above its `k` low zeroes acts on the part of the number above its low digits.
and_above : (k q r m : ℕ) → r < 2 ^ k → bit_and (q * 2 ^ k + r) (m * 2 ^ k) ≡ bit_and q m * 2 ^ k
and_above zero q r m h = ground arith
and_above (suc k) q r m h = ground (
  arith,
  and_low (q * 2 ^ suc k + r) (m * 2 ^ suc k),
  mul-two_pow_suc q k,
  mul-two_pow_suc m k,
  mul-two_pow_suc (bit_and q m) k,
  and_above k q (r / 2) m (omega (arith, two_pow_suc k)),
)

-- A mask acts on the digits below a place and on those above it.
pub and_split :
    (k q r m l : ℕ)
    → r < 2 ^ k
    → l < 2 ^ k
    → bit_and (q * 2 ^ k + r) (m * 2 ^ k + l) ≡ bit_and q m * 2 ^ k + bit_and r l
and_split zero q r m l h g = ground (arith, and-zero 0)
and_split (suc k) q r m l h g = ground (
  arith,
  and_low (q * 2 ^ suc k + r) (m * 2 ^ suc k + l),
  and_low r l,
  mul-two_pow_suc q k,
  mul-two_pow_suc m k,
  mul-two_pow_suc (bit_and q m) k,
  and_split k q (r / 2) m (l / 2) (omega (arith, two_pow_suc k)) (omega (arith, two_pow_suc k)),
)

-- A mask of `k` ones keeps the `k` low digits.
and_below : (k q r : ℕ) → r < 2 ^ k → bit_and (q * 2 ^ k + r) (2 ^ k - 1) ≡ r
and_below zero q r h = rw and-zero (omega arith)
and_below (suc k) q r h = ground (
  arith,
  and_low (q * 2 ^ suc k + r) (2 ^ suc k - 1),
  mul-two_pow_suc q k,
  two_pow_suc k,
  two_pow_pos k,
  and_below k q (r / 2) (omega (arith, two_pow_suc k)),
)

pub and_mask : (k a : ℕ) → bit_and a (2 ^ k - 1) ≡ a % 2 ^ k
and_mask k a = ground (arith, two_pow_pos k, and_below k (a / 2 ^ k) (a % 2 ^ k))

pub and_shifted : (k a m : ℕ) → bit_and a (m * 2 ^ k) ≡ bit_and (a / 2 ^ k) m * 2 ^ k
and_shifted k a m = ground (arith, two_pow_pos k, and_above k (a / 2 ^ k) (a % 2 ^ k) m)

-- A mask of the one digit `k`.
pub and_digit : (k a : ℕ) → bit_and a (2 ^ k) ≡ a / 2 ^ k % 2 * 2 ^ k
and_digit k a = ground (arith, and_shifted k a 1, and_mask 1 (a / 2 ^ k))

-- Fields that do not overlap: `|` is a sum.
pub or_fields : (k q r : ℕ) → r < 2 ^ k → bit_or (q * 2 ^ k) r ≡ q * 2 ^ k + r
or_fields zero q r h = ground (arith, or-zero q)
or_fields (suc k) q r h = ground (
  arith,
  or_low (q * 2 ^ suc k) r,
  mul-two_pow_suc q k,
  or_fields k q (r / 2) (omega (arith, two_pow_suc k)),
)

-- Flipping the digit above the `k` low ones.
pub xor_top :
    (k q r : ℕ) → q < 2 → r < 2 ^ k → bit_xor (q * 2 ^ k + r) (2 ^ k) ≡ (1 - q) * 2 ^ k + r
xor_top zero q r b h = ground (arith, xor_low q 1, xor-zero 0)
xor_top (suc k) q r b h = ground (
  arith,
  xor_low (q * 2 ^ suc k + r) (2 ^ suc k),
  mul-two_pow_suc q k,
  mul-two_pow_suc (1 - q) k,
  two_pow_suc k,
  xor_top k q (r / 2) b (omega (arith, two_pow_suc k)),
)
