-- ===== src/Isa/Branch.antt =====
-- BR: branches on the condition codes.
use lc3_script_tools.Base.{
  ℕ, ◌+◌, ◌/◌, ◌^◌, ◌<◌, ◌≡◌, refl, ◌∙◌, ap, arith, inl, inr, bit_and, update, ltb, ◌==◌,
  if◌then◌else◌, Bool-cases,
}
use lc3_script_tools.Base.Int.{ℤ, of_signed, Fits}
use lc3_script_tools.Vm.Types.{
  Build, register_bits, word, reg_pc, reg_psr, VmResult, success, opcode_nop, opcode_of,
}
use lc3_script_tools.Vm.State.{Console, Vm}
use lc3_script_tools.Vm.Perform.{
  sextend, field_dr, take_branch, stop_at_zero, perform_br, perform_opcode, vm_perform,
}
use lc3_script_tools.Instr.Layout.{config}
use lc3_script_tools.Instr.Maker.{make_br, opcode_br}
use lc3_script_tools.Isa.Address.{ri_code, ri_dr, ri-sextend}

-- A branch by `offset` if a flag of the status register is one of `flags`.
abbrev branched : Build → ℕ → ℕ → Vm → Vm
branched b flags offset vm =
    if ltb 0 (bit_and (bit_and (vm.reg reg_psr) 7) flags)
    then record vm { reg = update vm.reg reg_pc (word b (vm.reg reg_pc + offset)) }
    else vm

-- The word 0 stops the run.
abbrev br_result : ℕ → VmResult
br_result w = if w == 0 then opcode_nop else success

module _ (b : Build) (console : Console) (vm : Vm) where
  perform_br_lem :
      (w flags : ℕ)
      → w / 2 ^ 12 ≡ opcode_br
      → field_dr w ≡ flags
      → vm_perform b console w vm ≡ (br_result w, branched b flags (sextend b w 9) vm)
  unfolding vm_perform perform_opcode opcode_of perform_br take_branch stop_at_zero
  perform_br_lem w flags e f =
      rw (e, f)
        (elim (Bool-cases (ltb 0 (bit_and (bit_and (vm.reg reg_psr) 7) flags))) [
          | inl taken ↦ elim (Bool-cases (w == 0)) [
            | inl stops ↦ rw (taken, stops) refl
            | inr goes ↦ rw (taken, goes) refl
          ]
          | inr passed ↦ elim (Bool-cases (w == 0)) [
            | inl stops ↦ rw (passed, stops) refl
            | inr goes ↦ rw (passed, goes) refl
          ]
        ])

  -- BR: if any flag of the status register is among `flags`, the signed offset is added to the PC
  -- (already past the instruction), modulo the width of a register, and nothing else changes; if
  -- none is, nothing changes. The result is VM_SUCCESS, but VM_OPCODE_NOP for the word 0. In both
  -- builds, for flags 0 to 7 and offsets from -256 to 255.
  pub perform-make_br :
      (flags : ℕ)
      → flags < 8
      → (v : ℤ) → Fits 9 v
      → vm_perform b console (make_br (config 16) flags v) vm ≡ (
        br_result (make_br (config 16) flags v),
        branched b flags (of_signed (register_bits b) v) vm,
      )
  perform-make_br flags lt v fits =
      perform_br_lem (make_br (config 16) flags v) flags
        (ri_code opcode_br flags (omega arith) lt v fits)
        (ri_dr opcode_br flags (omega arith) lt v fits)
      ∙ ap (λ (o : ℕ). (br_result (make_br (config 16) flags v), branched b flags o vm))
          (ri-sextend opcode_br flags (omega arith) lt v fits b)
