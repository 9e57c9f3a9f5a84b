-- ===== src/Sim/Agree/Immediate.antt =====
-- The signed immediates of lc3tools/lc3sim.h beside `sextend` of lc3sim-c/vm.c.
use lc3_script_tools.Base.{ℕ, ◌+◌, ◌-◌, ◌*◌, ◌/◌, ◌%◌, ◌^◌, ◌<◌, ◌≡◌, arith, bit_and, bit_or}
use lc3_script_tools.Base.Bits.{two_pow_pos, and_mask, and_digit, xor_top}
use lc3_script_tools.Base.Bounds.{or_split, or_ones}
use lc3_script_tools.Vm.Types.{lc3_16bit}
use lc3_script_tools.Vm.Perform.{sextend}
use lc3_script_tools.Sim.Inst.{f_imm, f_imm5, f_imm6, f_imm9, f_imm11}

-- `| ~mask` for a mask of `m` ones.
or_mask :
    (m j i : ℕ)
    → i / 2 ^ m < 2 ^ j
    → bit_or i ((2 ^ j - 1) * 2 ^ m) ≡ (2 ^ j - 1) * 2 ^ m + i % 2 ^ m
or_mask m j i h =
    ground (
      arith,
      two_pow_pos m,
      or_split m (i / 2 ^ m) (i % 2 ^ m) (2 ^ j - 1),
      or_ones j (i / 2 ^ m) h,
    )

-- The sign is bit 4.
pub imm5-sextend : (i : ℕ) → i < 2 ^ 16 → f_imm5 i % 65536 ≡ sextend lc3_16bit i 5
unfolding f_imm sextend
imm5-sextend i h =
    let whole : bit_and i (2 ^ 5 - 1) ≡ i / 2 ^ 4 % 2 * 2 ^ 4 + i % 2 ^ 4 =
      omega (arith, and_mask 5 i) in
    rw
      (
        and_digit 4 i,
        and_mask 4 i,
        or_mask 4 28 i (omega arith),
        whole,
        xor_top 4 (i / 2 ^ 4 % 2) (i % 2 ^ 4) (omega arith) (omega arith),
      )
      (ground arith)

-- The sign is bit 5.
imm6-sextend : (i : ℕ) → i < 2 ^ 16 → f_imm6 i % 65536 ≡ sextend lc3_16bit i 6
unfolding f_imm sextend
imm6-sextend i h =
    let whole : bit_and i (2 ^ 6 - 1) ≡ i / 2 ^ 5 % 2 * 2 ^ 5 + i % 2 ^ 5 =
      omega (arith, and_mask 6 i) in
    rw
      (
        and_digit 5 i,
        and_mask 5 i,
        or_mask 5 27 i (omega arith),
        whole,
        xor_top 5 (i / 2 ^ 5 % 2) (i % 2 ^ 5) (omega arith) (omega arith),
      )
      (ground arith)

-- The sign is bit 8.
pub imm9-sextend : (i : ℕ) → i < 2 ^ 16 → f_imm9 i % 65536 ≡ sextend lc3_16bit i 9
unfolding f_imm sextend
imm9-sextend i h =
    let whole : bit_and i (2 ^ 9 - 1) ≡ i / 2 ^ 8 % 2 * 2 ^ 8 + i % 2 ^ 8 =
      omega (arith, and_mask 9 i) in
    rw
      (
        and_digit 8 i,
        whole,
        or_mask 9 23 i (omega arith),
        xor_top 8 (i / 2 ^ 8 % 2) (i % 2 ^ 8) (omega arith) (omega arith),
      )
      (ground arith)

-- The sign is bit 10.
pub imm11-sextend : (i : ℕ) → i < 2 ^ 16 → f_imm11 i % 65536 ≡ sextend lc3_16bit i 11
unfolding f_imm sextend
imm11-sextend i h =
    let whole : bit_and i (2 ^ 11 - 1) ≡ i / 2 ^ 10 % 2 * 2 ^ 10 + i % 2 ^ 10 =
      omega (arith, and_mask 11 i) in
    rw
      (
        and_digit 10 i,
        and_mask 10 i,
        or_mask 10 22 i (omega arith),
        whole,
        xor_top 10 (i / 2 ^ 10 % 2) (i % 2 ^ 10) (omega arith) (omega arith),
      )
      (ground arith)

-- The signed immediates of 5, 6, 9 and 11 bits that the macros of lc3sim.h take out of a 16-bit
-- instruction, cut to 16 bits, are what `sextend` of the 16-bit lc3sim-c makes of its low bits.
pub f_imm-sextend :
    (i : ℕ)
    → i < 2 ^ 16
    → (f_imm5 i % 65536 ≡ sextend lc3_16bit i 5)
      × (f_imm6 i % 65536 ≡ sextend lc3_16bit i 6)
      × (f_imm9 i % 65536 ≡ sextend lc3_16bit i 9)
      × (f_imm11 i % 65536 ≡ sextend lc3_16bit i 11)
f_imm-sextend i h = (imm5-sextend i h, imm6-sextend i h, imm9-sextend i h, imm11-sextend i h)
