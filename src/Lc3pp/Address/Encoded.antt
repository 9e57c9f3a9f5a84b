-- ===== src/Lc3pp/Address/Encoded.antt =====
-- The lines of calculate_address as words of 16 bits, put together by lc3sim_cpp/instr_maker.h, and
-- what they do in the machine of lc3sim-c/vm.c.
use lc3_script_tools.Base.{
  ℕ, ◌+◌, ◌-◌, ◌%◌, ◌^◌, ◌<◌, ◌≡◌, refl, ◌∙◌, ap, arith, bit_and, List, [], ◌∷◌, update_self,
}
use lc3_script_tools.Base.Bits.{and_mask, and_digit}
use lc3_script_tools.Base.Int.{ℤ, pos, negsuc, of_signed, Fits}
use lc3_script_tools.Vm.Types.{Build, register_bits, word, success, opcode_of, reg_pc}
use lc3_script_tools.Vm.State.{Console, Vm}
use lc3_script_tools.Vm.Perform.{
  sextend, vm_setcc, operand, load_reg, perform_add, perform_ld, perform_opcode, vm_perform,
  field_sr2,
}
use lc3_script_tools.Vm.Triple.{IsCell}
use lc3_script_tools.Instr.Layout.{config}
use lc3_script_tools.Instr.Maker.{
  opcode_add, opcode_ld, opcode_ldr, make_rrr, make_rri, make_br, make_add_i, make_add_r, make_ld,
  make_ldr,
}
use lc3_script_tools.Instr.RoundTrip.{rri-whole, low_bits-eq}
use lc3_script_tools.Isa.Encoded.{config_16-IsLayout, with_result, Parts, rri-Parts, rri-sextend}
use lc3_script_tools.Isa.Address.{ri_code, ri_dr, ri-sextend}
use lc3_script_tools.Isa.Cells.{read_cell, perform_ldr_lem}
use lc3_script_tools.Lc3pp.Address.{Line, add_imm, add_zero, br_over, fill, ld_back, add_reg, ldr}

-- The word of a line.
unfoldable pub encoded : Build → Line → ℕ
encoded b (add_imm dst base v from sum) = make_add_i (config 16) dst base v
encoded b (add_zero dst base) = make_add_i (config 16) dst base (pos 0)
encoded b br_over = make_br (config 16) 7 (pos 1)
encoded b (fill offset) = of_signed (register_bits b) offset
encoded b (ld_back dst) = make_ld (config 16) dst (negsuc 1)
encoded b (add_reg dst base other) = make_add_r (config 16) dst base other
encoded b (ldr dst base v from sum) = make_ldr (config 16) dst base v

-- The words of the lines stand in memory cells from an address on.
abbrev pub Placed : Build → (ℕ → ℕ) → List Line → ℕ → Type 0
Placed b mem [] a = Unit {0}
Placed b mem (l ∷ ls) a = (mem a ≡ encoded b l) × IsCell b a × Placed b mem ls (a + 1)

-- A third register is a small offset.
rrr-rri :
    (op dst base other : ℕ)
    → other < 8
    → make_rrr (config 16) op dst base other ≡ make_rri (config 16) op dst base (pos other)
unfolding make_rrr make_rri
rrr-rri op dst base other small =
    let e : bit_and (other % 2 ^ 64) (2 ^ 6 - 1) ≡ other =
      omega (arith, and_mask 6 (other % 2 ^ 64)) in
    rw e refl

module _ (b : Build) (console : Console) (vm : Vm) (dst base : ℕ) (dst_fits : dst < 8)
    (base_fits : base < 8) where
  module _ (other : ℕ) (other_fits : other < 8) where
    abbrev sum_word : ℕ
    sum_word = make_add_r (config 16) dst base other

    sum-Parts : Parts opcode_add dst base sum_word
    sum-Parts =
        rw (rrr-rri opcode_add dst base other other_fits)
          (rri-Parts opcode_add dst base (omega arith) dst_fits base_fits (pos other) (omega arith))

    low_six : sum_word % 2 ^ 6 ≡ other
    low_six =
        ap (λ (x : ℕ). x % 2 ^ 6)
          (rrr-rri opcode_add dst base other other_fits
            ∙ rri-whole config_16-IsLayout opcode_add dst base (omega arith) dst_fits base_fits
                (pos other))
        ∙ omega (arith, low_bits-eq 6 (pos other))

    register_operand : bit_and sum_word (2 ^ 5) ≡ 0
    register_operand = and_digit 5 sum_word ∙ omega (arith, low_six)

    other_register : field_sr2 sum_word ≡ other
    other_register = and_mask 3 sum_word ∙ omega (arith, low_six)

    pub perform-make_add_r :
        vm_perform b console (make_add_r (config 16) dst base other) vm
        ≡ (success, with_result b dst (word b (vm.reg base + vm.reg other)) vm)
    unfolding vm_perform perform_opcode opcode_of perform_add operand vm_setcc
    perform-make_add_r =
        rw
          (
            sum-Parts.code,
            sum-Parts.dr,
            sum-Parts.sr1,
            register_operand,
            other_register,
            update_self vm.reg dst (word b (vm.reg base + vm.reg other)),
          )
          refl

  pub perform-make_ldr :
      (v : ℤ)
      → Fits 6 v
      → IsCell b (word b (vm.reg base + of_signed (register_bits b) v))
      → vm_perform b console (make_ldr (config 16) dst base v) vm ≡ (
        success,
        with_result b dst (vm.mem (word b (vm.reg base + of_signed (register_bits b) v))) vm,
      )
  perform-make_ldr v f c =
      let w = make_ldr (config 16) dst base v in
      let offset : sextend b w 6 ≡ of_signed (register_bits b) v =
        rri-sextend opcode_ldr dst base (omega arith) dst_fits base_fits b v f in
      perform_ldr_lem b console vm opcode_ldr dst base w
        (rri-Parts opcode_ldr dst base (omega arith) dst_fits base_fits v f) refl (rw offset c)
      ∙ rw offset refl

  pub perform-make_ld :
      (v : ℤ)
      → Fits 9 v
      → IsCell b (word b (vm.reg reg_pc + of_signed (register_bits b) v))
      → vm_perform b console (make_ld (config 16) dst v) vm ≡ (
        success,
        with_result b dst (vm.mem (word b (vm.reg reg_pc + of_signed (register_bits b) v))) vm,
      )
  unfolding vm_perform perform_opcode opcode_of perform_ld load_reg vm_setcc
  perform-make_ld v f c =
      let a = word b (vm.reg reg_pc + of_signed (register_bits b) v) in
      rw
        (
          ri_code opcode_ld dst (omega arith) dst_fits v f,
          ri_dr opcode_ld dst (omega arith) dst_fits v f,
          ri-sextend opcode_ld dst (omega arith) dst_fits v f b,
          read_cell b console a vm c,
          update_self vm.reg dst (vm.mem a),
        )
        refl
