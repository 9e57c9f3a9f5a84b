-- ===== src/Lc3pp/Address/Sum.antt =====
-- The offsets that ADD takes one after the other, and their sum in a register.
use lc3_script_tools.Base.{
  ℕ, zero, suc, ◌+◌, ◌-◌, ◌%◌, ◌^◌, ◌≤◌, ◌<◌, ◌≡◌, refl, arith, Bool, true, false, ◌==◌,
  if◌then◌else◌,
}
use lc3_script_tools.Base.Int.{ℤ, pos, of_signed, Fits}
use lc3_script_tools.Vm.Types.{Build, lc3_16bit, lc3_32bit, register_bits, word}
use lc3_script_tools.Lc3pp.Address.{signed, least, add_bound}

pub add-Fits : (below : Bool) (n : ℕ) → n ≤ add_bound below → Fits 5 (signed below n)
add-Fits below zero h = omega arith
add-Fits true (suc n) h = omega arith
add-Fits false (suc n) h = omega arith

-- What a register holds after an offset is added to it.
abbrev pub plus : Build → ℕ → ℤ → ℕ
plus b x v = word b (x + of_signed (register_bits b) v)

pub plus-lt : (b : Build) (x : ℕ) (v : ℤ) → plus b x v < 2 ^ register_bits b
plus-lt lc3_16bit x v = omega arith
plus-lt lc3_32bit x v = omega arith

pub plus-zero : (b : Build) (x : ℕ) → x < 2 ^ register_bits b → x ≡ plus b x (pos 0)
plus-zero lc3_16bit x h = omega arith
plus-zero lc3_32bit x h = omega arith

above_eq :
    (b : Build) (n : ℕ) → of_signed (register_bits b) (signed false n) ≡ n % 2 ^ register_bits b
above_eq lc3_16bit zero = refl
above_eq lc3_32bit zero = refl
above_eq b (suc n) = refl

below_eq :
    (b : Build) (n : ℕ)
    → of_signed (register_bits b) (signed true n)
      ≡ (2 ^ register_bits b - n % 2 ^ register_bits b) % 2 ^ register_bits b
below_eq lc3_16bit zero = refl
below_eq lc3_32bit zero = refl
below_eq lc3_16bit (suc n) = omega arith
below_eq lc3_32bit (suc n) = omega arith

pub plus-plus :
    (b : Build) (below : Bool) (x n m : ℕ)
    → plus b (plus b x (signed below n)) (signed below m) ≡ plus b x (signed below (n + m))
plus-plus b false x n m = rw (above_eq b n, above_eq b m, above_eq b (n + m)) (sums b)
  where
    sums : (b : Build) → word b (word b (x + word b n) + word b m) ≡ word b (x + word b (n + m))
    sums lc3_16bit = omega arith
    sums lc3_32bit = omega arith
plus-plus lc3_16bit true x n m =
    omega (arith, below_eq lc3_16bit n, below_eq lc3_16bit m, below_eq lc3_16bit (n + m))
plus-plus lc3_32bit true x n m =
    omega (arith, below_eq lc3_32bit n, below_eq lc3_32bit m, below_eq lc3_32bit (n + m))

pub least-le : (x y : ℕ) → least x y ≤ y
least-le x y = ground arith

-- A turn of a loop takes something, and no more than there is.
pub least_pos :
    (offset : ℕ) (below : Bool)
    → (offset == 0) ≡ false
    → (1 ≤ least offset (add_bound below)) × (least offset (add_bound below) ≤ offset)
least_pos offset true e = (ground arith, ground arith)
least_pos offset false e = (ground arith, ground arith)

pub either : (x : ℕ) (c : Bool) → (if c then x else x) ≡ x
either x true = refl
either x false = refl
