-- ===== src/Vm/Words.antt =====
-- Bounds of the values that the machine of lc3sim-c/vm.c computes.
use lc3_script_tools.Base.{ℕ, ◌-◌, ◌/◌, ◌^◌, ◌<◌, arith, Option, none, some, bit_and}
use lc3_script_tools.Base.Bits.{and-le, and_mask}
use lc3_script_tools.Vm.Types.{Build, lc3_16bit, lc3_32bit, register_bits, word, status_bit}
use lc3_script_tools.Vm.State.{char_word}
use lc3_script_tools.Vm.Triple.{IsFlag}
use lc3_script_tools.Vm.Perform.{field_dr, field_sr1, field_sr2, vm_sign_flag}

pub word-lt : (b : Build) (n : ℕ) → word b n < 2 ^ register_bits b
word-lt lc3_16bit n = omega arith
word-lt lc3_32bit n = omega arith

pub status_bit-lt : (b : Build) → status_bit b < 2 ^ register_bits b
status_bit-lt lc3_16bit = omega arith
status_bit-lt lc3_32bit = omega arith

pub zero-lt_word : (b : Build) → 0 < 2 ^ register_bits b
zero-lt_word lc3_16bit = omega arith
zero-lt_word lc3_32bit = omega arith

pub char_word-lt : (b : Build) (c : Option ℕ) → char_word b c < 2 ^ register_bits b
char_word-lt lc3_16bit none = omega arith
char_word-lt lc3_16bit (some c) = omega arith
char_word-lt lc3_32bit none = omega arith
char_word-lt lc3_32bit (some c) = omega arith

pub and-lt : (b : Build) (x y : ℕ) → x < 2 ^ register_bits b → bit_and x y < 2 ^ register_bits b
and-lt b x y h = omega (arith, and-le x y)

pub complement-lt : (b : Build) (x : ℕ) → 2 ^ register_bits b - 1 - x < 2 ^ register_bits b
complement-lt b x = omega (arith, zero-lt_word b)

pub field_dr-lt : (instr : ℕ) → field_dr instr < 8
field_dr-lt instr = omega (arith, and_mask 3 (instr / 2 ^ 9))

field_sr1-lt : (instr : ℕ) → field_sr1 instr < 8
field_sr1-lt instr = omega (arith, and_mask 3 (instr / 2 ^ 6))

field_sr2-lt : (instr : ℕ) → field_sr2 instr < 8
field_sr2-lt instr = omega (arith, and_mask 3 instr)

pub vm_sign_flag-IsFlag : (b : Build) (v : ℕ) → IsFlag (vm_sign_flag b v)
unfolding vm_sign_flag
vm_sign_flag-IsFlag b v = ground arith
