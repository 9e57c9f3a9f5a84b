-- ===== src/Isa/Address.antt =====
-- LEA: an address relative to the program counter.
use lc3_script_tools.Base.{ℕ, ◌+◌, ◌/◌, ◌^◌, ◌<◌, ◌≡◌, refl, arith, update_self}
use lc3_script_tools.Base.Bits.{and_mask}
use lc3_script_tools.Base.Int.{ℤ, of_signed, Fits}
use lc3_script_tools.Vm.Types.{Build, register_bits, word, reg_pc, success, opcode_of}
use lc3_script_tools.Vm.State.{Console, Vm}
use lc3_script_tools.Vm.Perform.{
  sextend, vm_setcc, field_dr, perform_lea, perform_opcode, vm_perform,
}
use lc3_script_tools.Instr.Layout.{config}
use lc3_script_tools.Instr.Parser.{oper_code, reg_num1, int_after_num1}
use lc3_script_tools.Instr.Maker.{make_ri, make_lea, opcode_lea}
use lc3_script_tools.Instr.RoundTrip.{low_bits-lt}
use lc3_script_tools.Instr.OneRegister.{ri-word, ri_round_trip}
use lc3_script_tools.Isa.Encoded.{config_16-IsLayout, with_result, sextend-of_signed}

module _ (op r : ℕ) (op_fits : op < 16) (r_fits : r < 8) (v : ℤ) (v_fits : Fits 9 v) where
  pub ri_code : make_ri (config 16) op r v / 2 ^ 12 ≡ op
  unfolding oper_code
  ri_code =
      let below : make_ri (config 16) op r v < 2 ^ 16 =
        rw (ri-word config_16-IsLayout op r op_fits r_fits v) (omega (arith, low_bits-lt 9 v)) in
      omega (
        arith,
        below,
        (ri_round_trip config_16-IsLayout op r op_fits r_fits v v_fits).0,
        and_mask 4 (make_ri (config 16) op r v / 2 ^ 12),
      )

  pub ri_dr : field_dr (make_ri (config 16) op r v) ≡ r
  unfolding reg_num1
  ri_dr = (ri_round_trip config_16-IsLayout op r op_fits r_fits v v_fits).1

  pub ri-sextend :
      (b : Build) → sextend b (make_ri (config 16) op r v) 9 ≡ of_signed (register_bits b) v
  unfolding int_after_num1
  ri-sextend b =
      sextend-of_signed b (make_ri (config 16) op r v) 9 v (omega arith) (omega arith)
        (ri_round_trip config_16-IsLayout op r op_fits r_fits v v_fits).2

module _ (b : Build) (console : Console) (vm : Vm) (dr : ℕ) (dr_fits : dr < 8) (v : ℤ)
    (v_fits : Fits 9 v) where
  -- LEA: the register `dr` becomes the sum, modulo the width of a register, of the PC (already past
  -- the instruction) and the signed offset, with the condition codes of it, and nothing else
  -- changes. In both builds, for registers 0 to 7 and offsets from -256 to 255.
  pub perform-make_lea :
      vm_perform b console (make_lea (config 16) dr v) vm
      ≡ (success, with_result b dr (word b (vm.reg reg_pc + of_signed (register_bits b) v)) vm)
  unfolding vm_perform perform_opcode opcode_of perform_lea vm_setcc
  perform-make_lea =
      rw
        (
          ri_code opcode_lea dr (omega arith) dr_fits v v_fits,
          ri_dr opcode_lea dr (omega arith) dr_fits v v_fits,
          ri-sextend opcode_lea dr (omega arith) dr_fits v v_fits b,
          update_self vm.reg dr (word b (vm.reg reg_pc + of_signed (register_bits b) v)),
        )
        refl
