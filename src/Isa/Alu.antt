-- ===== src/Isa/Alu.antt =====
-- ADD and AND with an immediate operand.
use lc3_script_tools.Base.{ℕ, ◌+◌, ◌^◌, ◌<◌, ◌≡◌, refl, ◌∙◌, arith, bit_and, update_self}
use lc3_script_tools.Base.Int.{ℤ, of_signed, Fits}
use lc3_script_tools.Vm.Types.{Build, register_bits, word, success, opcode_of}
use lc3_script_tools.Vm.State.{Console, Vm}
use lc3_script_tools.Vm.Perform.{
  sextend, vm_setcc, operand, perform_add, perform_and, perform_opcode, vm_perform,
}
use lc3_script_tools.Instr.Layout.{config}
use lc3_script_tools.Instr.Maker.{opcode_add, opcode_and, make_add_i, make_and_i}
use lc3_script_tools.Instr.RoundTrip.{flag_set}
use lc3_script_tools.Isa.Encoded.{
  config_16-IsLayout, with_result, Parts, with_flag-Parts, with_flag-sextend,
}

module _ (b : Build) (console : Console) (vm : Vm) (op dr sr w : ℕ) (parts : Parts op dr sr w)
    (immediate : bit_and w (2 ^ 5) ≡ 2 ^ 5) where
  perform_add_lem :
      op ≡ opcode_add
      → vm_perform b console w vm
        ≡ (success, with_result b dr (word b (vm.reg sr + sextend b w 5)) vm)
  unfolding vm_perform perform_opcode opcode_of perform_add operand vm_setcc
  perform_add_lem e =
      rw
        (
          parts.code,
          e,
          parts.dr,
          parts.sr1,
          immediate,
          update_self vm.reg dr (word b (vm.reg sr + sextend b w 5)),
        )
        refl

  perform_and_lem :
      op ≡ opcode_and
      → vm_perform b console w vm
        ≡ (success, with_result b dr (bit_and (vm.reg sr) (sextend b w 5)) vm)
  unfolding vm_perform perform_opcode opcode_of perform_and operand vm_setcc
  perform_and_lem e =
      rw
        (
          parts.code,
          e,
          parts.dr,
          parts.sr1,
          immediate,
          update_self vm.reg dr (bit_and (vm.reg sr) (sextend b w 5)),
        )
        refl

module _ (b : Build) (console : Console) (vm : Vm) (dr sr : ℕ) (dr_fits : dr < 8) (sr_fits : sr < 8)
    (v : ℤ) (v_fits : Fits 5 v) where
  -- ADD with an immediate: the register `dr` becomes the sum, modulo the width of a register, of
  -- the register `sr` and the signed immediate, the condition codes are those of the sum, and
  -- nothing else changes. In both builds, for registers 0 to 7 and immediates from -16 to 15.
  pub perform-make_add_i :
      vm_perform b console (make_add_i (config 16) dr sr v) vm
      ≡ (success, with_result b dr (word b (vm.reg sr + of_signed (register_bits b) v)) vm)
  perform-make_add_i =
      perform_add_lem b console vm opcode_add dr sr (make_add_i (config 16) dr sr v)
        (with_flag-Parts opcode_add dr sr (omega arith) dr_fits sr_fits v v_fits)
        (flag_set config_16-IsLayout opcode_add dr sr (omega arith) dr_fits sr_fits v) refl
      ∙ rw (with_flag-sextend opcode_add dr sr (omega arith) dr_fits sr_fits b v v_fits) refl

  -- AND with an immediate: the register `dr` becomes the conjunction, bit by bit, of the register
  -- `sr` and the immediate in two's complement, the condition codes are those of the result, and
  -- nothing else changes. In both builds, for registers 0 to 7 and immediates from -16 to 15.
  pub perform-make_and_i :
      vm_perform b console (make_and_i (config 16) dr sr v) vm
      ≡ (success, with_result b dr (bit_and (vm.reg sr) (of_signed (register_bits b) v)) vm)
  perform-make_and_i =
      perform_and_lem b console vm opcode_and dr sr (make_and_i (config 16) dr sr v)
        (with_flag-Parts opcode_and dr sr (omega arith) dr_fits sr_fits v v_fits)
        (flag_set config_16-IsLayout opcode_and dr sr (omega arith) dr_fits sr_fits v) refl
      ∙ rw (with_flag-sextend opcode_and dr sr (omega arith) dr_fits sr_fits b v v_fits) refl
