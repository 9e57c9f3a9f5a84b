-- ===== src/Isa/Encoded.antt =====
-- An instruction of 16 bits with two register numbers, as lc3sim-c/vm.c takes it apart.
use lc3_script_tools.Base.{ℕ, ◌/◌, ◌^◌, ◌≤◌, ◌<◌, ◌≡◌, sym, ◌∙◌, ap, arith, update}
use lc3_script_tools.Base.Bits.{and_mask}
use lc3_script_tools.Base.Int.{ℤ, to_signed, of_signed, Fits}
use lc3_script_tools.Base.Sign.{extend_sign-to_signed}
use lc3_script_tools.Vm.Types.{Build, lc3_16bit, lc3_32bit, register_bits, reg_psr}
use lc3_script_tools.Vm.State.{Vm}
use lc3_script_tools.Vm.Perform.{sextend, vm_sign_flag, field_dr, field_sr1}
use lc3_script_tools.Vm.Perform.Sextend.{sextend-to_signed, sextend-lt}
use lc3_script_tools.Instr.Layout.{IsLayout, config}
use lc3_script_tools.Instr.Parser.{
  int_value, oper_code, reg_num1, reg_num2, int_after_num2, int_after_num2_with_flag,
}
use lc3_script_tools.Instr.Maker.{make_rri, make_rri_with_flag}
use lc3_script_tools.Instr.RoundTrip.{
  Reads, low_bits-lt, rri-whole, rri_round_trip, with_flag-whole, rri_with_flag_round_trip,
}

pub config_16-IsLayout : IsLayout (config 16)
config_16-IsLayout = record {
  some_regs = omega arith;
  room = omega arith;
  param_room = omega arith;
  in_uint64 = omega arith;
}

-- The machine after an operation that leaves `x` in the register `dr`, the condition codes set.
abbrev pub with_result : Build → ℕ → ℕ → Vm → Vm
with_result b dr x vm = record vm { reg = update (update vm.reg dr x) reg_psr (vm_sign_flag b x) }

of_signed-to_signed :
    (b : Build) (x : ℕ)
    → x < 2 ^ register_bits b
    → of_signed (register_bits b) (to_signed (register_bits b) x) ≡ x
of_signed-to_signed lc3_16bit x h = ground arith
of_signed-to_signed lc3_32bit x h = ground arith

wide : (b : Build) → 16 ≤ register_bits b
wide lc3_16bit = omega arith
wide lc3_32bit = omega arith

-- A field that reads as `v` is extended to the register that stands for `v`.
pub sextend-of_signed :
    (b : Build) (w n : ℕ) (v : ℤ)
    → 1 ≤ n
    → n ≤ 16
    → to_signed 64 (int_value w n) ≡ v
    → sextend b w n ≡ of_signed (register_bits b) v
unfolding int_value
sextend-of_signed b w n v some_digits fits e =
    let le : n ≤ register_bits b = omega (arith, wide b) in
    sym (of_signed-to_signed b (sextend b w n) (sextend-lt b w n))
    ∙ ap (of_signed (register_bits b)) (
        sextend-to_signed b w n some_digits le (omega arith)
        ∙ sym (extend_sign-to_signed 64 w n some_digits (omega arith))
        ∙ e)

-- The parts as vm_perform takes them.
pub record Parts (op r1 r2 w : ℕ) : Type 0 where
  pub code : w / 2 ^ 12 ≡ op
  pub dr : field_dr w ≡ r1
  pub sr1 : field_sr1 w ≡ r2

Reads-Parts : (op r1 r2 w : ℕ) → w < 2 ^ 16 → Reads (config 16) op r1 r2 w → Parts op r1 r2 w
unfolding oper_code reg_num1 reg_num2
Reads-Parts op r1 r2 w lt h = record {
  code = omega (arith, h.opcode, and_mask 4 (w / 2 ^ 12));
  dr = h.num1;
  sr1 = h.num2;
}

module _ (op r1 r2 : ℕ) (op_fits : op < 16) (r1_fits : r1 < 8) (r2_fits : r2 < 8) where
  pub with_flag-Parts :
      (v : ℤ) → Fits 5 v → Parts op r1 r2 (make_rri_with_flag (config 16) op r1 r2 v)
  with_flag-Parts v f =
      Reads-Parts op r1 r2 (make_rri_with_flag (config 16) op r1 r2 v)
        (rw (with_flag-whole config_16-IsLayout op r1 r2 op_fits r1_fits r2_fits v)
          (omega (arith, low_bits-lt 5 v)))
        (rri_with_flag_round_trip config_16-IsLayout op r1 r2 op_fits r1_fits r2_fits v
          (omega arith) f).0

  pub with_flag-sextend :
      (b : Build) (v : ℤ)
      → Fits 5 v
      → sextend b (make_rri_with_flag (config 16) op r1 r2 v) 5 ≡ of_signed (register_bits b) v
  unfolding int_after_num2_with_flag
  with_flag-sextend b v f =
      sextend-of_signed b (make_rri_with_flag (config 16) op r1 r2 v) 5 v (omega arith)
        (omega arith)
        (rri_with_flag_round_trip config_16-IsLayout op r1 r2 op_fits r1_fits r2_fits v
          (omega arith) f).2

  pub rri-Parts : (v : ℤ) → Fits 6 v → Parts op r1 r2 (make_rri (config 16) op r1 r2 v)
  rri-Parts v f =
      Reads-Parts op r1 r2 (make_rri (config 16) op r1 r2 v)
        (rw (rri-whole config_16-IsLayout op r1 r2 op_fits r1_fits r2_fits v)
          (omega (arith, low_bits-lt 6 v)))
        (rri_round_trip config_16-IsLayout op r1 r2 op_fits r1_fits r2_fits v f).0

  pub rri-sextend :
      (b : Build) (v : ℤ)
      → Fits 6 v
      → sextend b (make_rri (config 16) op r1 r2 v) 6 ≡ of_signed (register_bits b) v
  unfolding int_after_num2
  rri-sextend b v f =
      sextend-of_signed b (make_rri (config 16) op r1 r2 v) 6 v (omega arith) (omega arith)
        (rri_round_trip config_16-IsLayout op r1 r2 op_fits r1_fits r2_fits v f).1
