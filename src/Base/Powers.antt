-- ===== src/Base/Powers.antt =====
-- Powers of two, and fields beside one another.
use native.Mathlib.Nat.{mul_assoc, mul-lt-mul_of_pos_right}
use Prim.Native.Nat.{ℕ, zero, suc, ◌+◌, ◌*◌, ◌^◌, ◌<◌, bit_or}
use mathlib.Core.Path.{◌≡◌, sym}
use native.Mathlib.Omega.{arith}
use lc3_script_tools.Base.Bits.{two_pow_suc, two_pow_pos, or_fields}

pub two_pow_add : (n k : ℕ) → 2 ^ (n + k) ≡ 2 ^ n * 2 ^ k
two_pow_add zero k = let e : zero + k ≡ k = omega arith in rw e (omega arith)
two_pow_add (suc n) k =
    let e : suc n + k ≡ suc (n + k) = omega arith in
    rw (e, two_pow_suc (n + k), two_pow_suc n, two_pow_add n k) (sym (mul_assoc 2 (2 ^ n) (2 ^ k)))

-- A field of `n` digits with its lowest at `k`, under one that begins at `n + k`.
pub or_field_at :
    (n k q r : ℕ) → r < 2 ^ n → bit_or (q * 2 ^ (n + k)) (r * 2 ^ k) ≡ (q * 2 ^ n + r) * 2 ^ k
or_field_at n k q r h =
    let fits : r * 2 ^ k < 2 ^ (n + k) =
      rw (two_pow_add n k) (mul-lt-mul_of_pos_right h (two_pow_pos k)) in
    rw (or_fields (n + k) q (r * 2 ^ k) fits, two_pow_add n k) (omega arith)
