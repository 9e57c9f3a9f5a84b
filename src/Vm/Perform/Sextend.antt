-- ===== src/Vm/Perform/Sextend.antt =====
-- Sign extension: `sextend` of lc3sim-c/vm.c against two's complement.
use lc3_script_tools.Base.{ℕ, ◌^◌, ◌≤◌, ◌<◌, ◌≡◌, arith}
use lc3_script_tools.Base.Int.{to_signed}
use lc3_script_tools.Base.Sign.{extend_sign-to_signed}
use lc3_script_tools.Vm.Types.{Build, lc3_16bit, lc3_32bit, register_bits}
use lc3_script_tools.Vm.Perform.{sextend}

-- A field of 1 to 16 bits (or, in the 32-bit build, 30) is extended to the register that stands for
-- the same signed number, whatever the bits above the field are.
pub sextend-to_signed :
    (b : Build) (val n : ℕ)
    → 1 ≤ n
    → n ≤ register_bits b
    → n ≤ 30
    → to_signed (register_bits b) (sextend b val n) ≡ to_signed n val
unfolding sextend
sextend-to_signed b val n some_digits fits in_int =
    extend_sign-to_signed (register_bits b) val n some_digits fits

pub sextend-lt : (b : Build) (val n : ℕ) → sextend b val n < 2 ^ register_bits b
unfolding sextend
sextend-lt lc3_16bit val n = omega arith
sextend-lt lc3_32bit val n = omega arith
