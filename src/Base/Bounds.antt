-- ===== src/Base/Bounds.antt =====
-- `|` and `^` of numbers of some digits have as many.
use Prim.Native.Nat.{ℕ, zero, suc, ◌+◌, ◌*◌, ◌/◌, ◌^◌, ◌<◌, ◌-◌, bit_or, bit_xor, bit_and, ◌%◌}
use mathlib.Core.Path.{◌≡◌, ap, ◌∙◌}
use native.Mathlib.Omega.{arith}
use lc3_script_tools.Base.Bits.{
  or_low, xor_low, two_pow_suc, two_pow_pos, mul-two_pow_suc, or-zero, xor-zero, and_split, and-le,
}

pub or-lt : (k a b : ℕ) → a < 2 ^ k → b < 2 ^ k → bit_or a b < 2 ^ k
or-lt zero a b h g = ground (arith, or-zero 0)
or-lt (suc k) a b h g = omega (
  arith,
  or_low a b,
  two_pow_suc k,
  or-lt k (a / 2) (b / 2) (omega (arith, two_pow_suc k)) (omega (arith, two_pow_suc k)),
)

pub xor-lt : (k a b : ℕ) → a < 2 ^ k → b < 2 ^ k → bit_xor a b < 2 ^ k
xor-lt zero a b h g = ground (arith, xor-zero 0)
xor-lt (suc k) a b h g = omega (
  arith,
  xor_low a b,
  two_pow_suc k,
  xor-lt k (a / 2) (b / 2) (omega (arith, two_pow_suc k)) (omega (arith, two_pow_suc k)),
)

-- A mask that is zero below a place leaves the digits there.
pub or_split :
    (k q r p : ℕ) → r < 2 ^ k → bit_or (q * 2 ^ k + r) (p * 2 ^ k) ≡ bit_or q p * 2 ^ k + r
or_split zero q r p h = ground arith
or_split (suc k) q r p h = ground (
  arith,
  or_low (q * 2 ^ suc k + r) (p * 2 ^ suc k),
  mul-two_pow_suc q k,
  mul-two_pow_suc p k,
  mul-two_pow_suc (bit_or q p) k,
  or_split k q (r / 2) p (omega (arith, two_pow_suc k)),
)

-- Ones absorb every digit that they cover.
pub or_ones : (k q : ℕ) → q < 2 ^ k → bit_or q (2 ^ k - 1) ≡ 2 ^ k - 1
or_ones zero q h = ground (arith, or-zero 0)
or_ones (suc k) q h = ground (
  arith,
  or_low q (2 ^ suc k - 1),
  two_pow_suc k,
  two_pow_pos k,
  or_ones k (q / 2) (omega (arith, two_pow_suc k)),
)

pub xor_ones : (k a : ℕ) → a < 2 ^ k → bit_xor a (2 ^ k - 1) ≡ 2 ^ k - 1 - a
xor_ones zero a h = ground (arith, xor-zero 0)
xor_ones (suc k) a h = ground (
  arith,
  xor_low a (2 ^ suc k - 1),
  two_pow_suc k,
  two_pow_pos k,
  xor_ones k (a / 2) (omega (arith, two_pow_suc k)),
)

-- Digits above those of one operand of `&` make no difference.
pub and_word : (k x y : ℕ) → x < 2 ^ k → bit_and x y ≡ bit_and x (y % 2 ^ k)
and_word k x y h =
    let q = y / 2 ^ k in
    let e : y ≡ q * 2 ^ k + y % 2 ^ k = omega (arith, two_pow_pos k) in
    let z : x ≡ 0 * 2 ^ k + x = omega arith in
    let none : bit_and 0 q ≡ 0 = omega (arith, and-le 0 q) in
    ap (bit_and x) e
    ∙ ap (λ (t : ℕ). bit_and t (q * 2 ^ k + y % 2 ^ k)) z
    ∙ and_split k 0 x q (y % 2 ^ k) h (omega (arith, two_pow_pos k))
    ∙ rw none (omega arith)
