-- ===== src/Instr/Checks.antt =====
-- LC3_CHECK_INT_WITH_MASK of lc3sim_cpp/instr_maker.h against what lc3sim_cpp/instr_parser.h reads.
use lc3_script_tools.Base.{
  ℕ, zero, suc, ◌+◌, ◌-◌, ◌*◌, ◌%◌, ◌^◌, ◌≤◌, ◌<◌, ◌≡◌, ap, ◌∙◌, arith, bit_and, true,
}
use lc3_script_tools.Base.Bits.{and_shifted, and-le, two_pow_pos}
use lc3_script_tools.Base.Powers.{two_pow_add}
use lc3_script_tools.Base.Int.{pos, negsuc, to_signed}
use lc3_script_tools.Base.Sign.{extend_sign-to_signed}
use lc3_script_tools.Base.Fields.{mod_field}
use lc3_script_tools.Instr.Parser.{int_value}
use lc3_script_tools.Instr.Maker.{outside_mask, check_int_with_mask}
use lc3_script_tools.Instr.RoundTrip.{low_bits, low_bits-lt, low_bits-eq, to_signed_congr}
use native.Mathlib.Nat.{div-eq_of_lt, mod-eq_of_lt, pow-le-pow_right, suc-mul}

pub outside-eq : (n : ℕ) → n ≤ 64 → outside_mask (2 ^ n - 1) ≡ (2 ^ (64 - n) - 1) * 2 ^ n
outside-eq n h =
    let e : 64 ≡ (64 - n) + n = omega arith in
    let p : 2 ^ 64 ≡ 2 ^ (64 - n) * 2 ^ n = ap (λ (k : ℕ). 2 ^ k) e ∙ two_pow_add (64 - n) n in
    less-product (2 ^ 64) (2 ^ (64 - n)) (2 ^ n) (two_pow_pos (64 - n)) (two_pow_pos n) p
  where
    less-product : (w a b : ℕ) → 1 ≤ a → 1 ≤ b → w ≡ a * b → w - 1 - (b - 1) ≡ (a - 1) * b
    less-product w zero b ha hb e = absurd (omega arith)
    less-product w (suc a) b ha hb e =
        let two : (suc a - 1) * b ≡ a * b = ap (λ (k : ℕ). k * b) (omega arith) in
        omega (arith, suc-mul a b, two)

-- Every digit of 0 is 0.
zero-and : (a : ℕ) → bit_and 0 a ≡ 0
zero-and a = omega (arith, and-le 0 a)

check_below : (n m : ℕ) → n ≤ 64 → m < 2 ^ n → check_int_with_mask (pos m) (2 ^ n - 1) ≡ true
unfolding check_int_with_mask
check_below n m h lt =
    rw (outside-eq n h, and_shifted n m (2 ^ (64 - n) - 1), div-eq_of_lt lt)
      (rw (zero-and (2 ^ (64 - n) - 1)) (ground arith))

read_above :
    (n q m : ℕ)
    → 1 ≤ n
    → n ≤ 64
    → 2 ^ (n - 1) ≤ m
    → m < 2 ^ n
    → to_signed 64 (int_value (q * 2 ^ n + low_bits n (pos m)) n) ≡ negsuc (2 ^ n - m - 1)
unfolding int_value
read_above n q m some_digits fits half lt =
    extend_sign-to_signed 64 (q * 2 ^ n + low_bits n (pos m)) n some_digits fits
    ∙ to_signed_congr n (q * 2 ^ n + low_bits n (pos m)) m (
        mod_field n q (low_bits n (pos m)) (low_bits-lt n (pos m))
        ∙ low_bits-eq n (pos m)
        ∙ ap (λ (t : ℕ). t % 2 ^ n) (mod-eq_of_lt below))
    ∙ neg
  where
    below : m < 2 ^ 64
    below = let most : 2 ^ n ≤ 2 ^ 64 = pow-le-pow_right {n = 2} (omega arith) fits in omega arith

    neg : to_signed n m ≡ negsuc (2 ^ n - m - 1)
    neg = rw (mod-eq_of_lt lt) (ground arith)

-- The check takes every magnitude that fits the field's digits, but a value from 2 ^ (n - 1) to
-- 2 ^ n - 1 that it takes is put into the field of `n` digits and read back as another value, less
-- than 0: LC3_CHECK_INT_WITH_MASK allows one digit too many for a signed field.
pub checked_int_reads_negative :
    (n q m : ℕ)
    → 1 ≤ n
    → n ≤ 64
    → 2 ^ (n - 1) ≤ m
    → m < 2 ^ n
    → (check_int_with_mask (pos m) (2 ^ n - 1) ≡ true)
      × (to_signed 64 (int_value (q * 2 ^ n + low_bits n (pos m)) n) ≡ negsuc (2 ^ n - m - 1))
checked_int_reads_negative n q m some_digits fits half lt =
    (check_below n m fits lt, read_above n q m some_digits fits half lt)
