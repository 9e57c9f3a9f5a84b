-- ===== src/Base/Fields.antt =====
-- Fields of digits in a word: put together by shifts and `|`, and taken apart again.
use Prim.Native.Nat.{ℕ, ◌+◌, ◌-◌, ◌*◌, ◌/◌, ◌%◌, ◌^◌, ◌≤◌, ◌<◌, bit_and, bit_or}
use mathlib.Core.Path.{◌≡◌, sym, ap, ◌∙◌}
use native.Mathlib.Nat.{
  mod-eq_of_lt, mul-add-mod_self_right, mul-add-div_right, div-eq_of_lt, div-div-eq-div-mul,
  mul_comm, pow-le-pow_right, mul-lt-mul_of_pos_right, add-zero,
}
use native.Mathlib.Omega.{arith}
use lc3_script_tools.Base.Bits.{and_mask, two_pow_pos}
use lc3_script_tools.Base.Powers.{two_pow_add, or_field_at}

-- `<<` on a uint64_t.
abbrev pub shl : ℕ → ℕ → ℕ
shl x k = x * 2 ^ k % 2 ^ 64

pub shl_fits : (n k x : ℕ) → n + k ≤ 64 → x < 2 ^ n → shl x k ≡ x * 2 ^ k
shl_fits n k x h lt =
    let below : x * 2 ^ k < 2 ^ (n + k) =
      rw (two_pow_add n k) (mul-lt-mul_of_pos_right lt (two_pow_pos k)) in
    let most : 2 ^ (n + k) ≤ 2 ^ 64 = pow-le-pow_right {n = 2} (omega arith) h in
    mod-eq_of_lt (omega arith)

-- The digits above the `k` lowest.
pub div_field : (k q r : ℕ) → r < 2 ^ k → (q * 2 ^ k + r) / 2 ^ k ≡ q
div_field k q r h =
    mul-add-div_right (two_pow_pos k) q r ∙ ap (λ (t : ℕ). q + t) (div-eq_of_lt h) ∙ add-zero q

pub mod_field : (k q r : ℕ) → r < 2 ^ k → (q * 2 ^ k + r) % 2 ^ k ≡ r
mod_field k q r h = mul-add-mod_self_right q (2 ^ k) r ∙ mod-eq_of_lt h

-- A shift by `n + k` is one by `k` and then one by `n`.
pub shr_add : (n k x : ℕ) → x / 2 ^ (n + k) ≡ x / 2 ^ k / 2 ^ n
shr_add n k x =
    ap (λ (p : ℕ). x / p) (two_pow_add n k ∙ mul_comm (2 ^ n) (2 ^ k))
    ∙ sym (div-div-eq-div-mul x (2 ^ k) (2 ^ n))

-- An operation code and two register numbers side by side.
abbrev pub head : ℕ → ℕ → ℕ → ℕ → ℕ
head rb op r1 r2 = (op * 2 ^ rb + r1) * 2 ^ rb + r2

-- Positions as the macros compute them: `d` below the second register number, `m1` below the first,
-- `m` below the operation code.
module _ (ob rb d m1 m : ℕ) (at1 : m1 ≡ rb + d) (at : m ≡ rb + m1) (room : ob + m ≤ 64) where
  module _ (op r1 : ℕ) (op_fits : op < 2 ^ ob) (r1_fits : r1 < 2 ^ rb) where
    pub or_op_reg : bit_or (shl op m) (shl r1 m1) ≡ (op * 2 ^ rb + r1) * 2 ^ m1
    or_op_reg =
        rw (shl_fits ob m op room op_fits, shl_fits rb m1 r1 (omega arith) r1_fits, at)
          (or_field_at rb m1 op r1 r1_fits)

    pub or_head :
        (r2 : ℕ)
        → r2 < 2 ^ rb
        → bit_or (bit_or (shl op m) (shl r1 m1)) (shl r2 d) ≡ head rb op r1 r2 * 2 ^ d
    or_head r2 r2_fits =
        rw (or_op_reg, shl_fits rb d r2 (omega arith) r2_fits, at1)
          (or_field_at rb d (op * 2 ^ rb + r1) r2 r2_fits)

    -- What is read back at those positions, whatever stands below.
    module _ (r2 low : ℕ) (r2_fits : r2 < 2 ^ rb) (low_fits : low < 2 ^ d) where
      abbrev whole : ℕ
      whole = head rb op r1 r2 * 2 ^ d + low

      pub read_reg2 : bit_and (whole / 2 ^ d) (2 ^ rb - 1) ≡ r2
      read_reg2 =
          and_mask rb (whole / 2 ^ d)
          ∙ ap (λ (t : ℕ). t % 2 ^ rb) (div_field d (head rb op r1 r2) low low_fits)
          ∙ mod_field rb (op * 2 ^ rb + r1) r2 r2_fits

      above_reg2 : whole / 2 ^ m1 ≡ op * 2 ^ rb + r1
      above_reg2 =
          rw (at1, shr_add rb d whole, div_field d (head rb op r1 r2) low low_fits)
            (div_field rb (op * 2 ^ rb + r1) r2 r2_fits)

      pub read_reg1 : bit_and (whole / 2 ^ m1) (2 ^ rb - 1) ≡ r1
      read_reg1 =
          and_mask rb (whole / 2 ^ m1)
          ∙ ap (λ (t : ℕ). t % 2 ^ rb) above_reg2
          ∙ mod_field rb op r1 r1_fits

      above_reg1 : whole / 2 ^ m ≡ op
      above_reg1 = rw (at, shr_add rb m1 whole, above_reg2) (div_field rb op r1 r1_fits)

      pub read_op : bit_and (whole / 2 ^ m) (2 ^ ob - 1) ≡ op
      read_op =
          and_mask ob (whole / 2 ^ m) ∙ ap (λ (t : ℕ). t % 2 ^ ob) above_reg1 ∙ mod-eq_of_lt op_fits
