-- ===== src/Isa/Control.antt =====
-- JSR and RET, the status bit of the clock, and instruction words that are no instruction.
use lc3_script_tools.Base.{
  Bool-cases, inl, inr, if◌then◌else◌, ℕ, ◌+◌, ◌/◌, ◌^◌, ◌≤◌, ◌<◌, ◌≡◌, refl, arith, bit_and, none,
  update, ltb,
}
use lc3_script_tools.Base.Bits.{and_digit}
use lc3_script_tools.Vm.Types.{
  Build, lc3_16bit, lc3_32bit, word, status_bit, addr_mcr, reg_pc, success, opcode_of,
}
use lc3_script_tools.Vm.State.{Console, Vm, ok}
use lc3_script_tools.Vm.Memory.{vm_read, vm_mem_read}
use lc3_script_tools.Vm.Perform.{
  sextend, perform_jsr, perform_jmp, perform_opcode, vm_perform, field_sr1,
}
use lc3_script_tools.Instr.Layout.{config}
use lc3_script_tools.Instr.Maker.{make_r2, make_jmp, opcode_jsr}

no_opcode : (n : ℕ) → 16 ≤ n → opcode_of n ≡ none
unfolding opcode_of
no_opcode n h = ground arith

-- In the 32-bit build a word above 16 bits, which has no enumerator of vm_opcode in `instr >> 12`,
-- is performed as VM_SUCCESS and changes nothing, whatever its low 16 bits are.
pub wide_instruction_ignored :
    (console : Console) (instr : ℕ) (vm : Vm)
    → 2 ^ 16 ≤ instr
    → vm_perform lc3_32bit console instr vm ≡ (success, vm)
unfolding vm_perform perform_opcode
wide_instruction_ignored console instr vm h = rw (no_opcode (instr / 2 ^ 12) (omega arith)) refl

pub read_mcr :
    (b : Build) (console : Console) (vm : Vm)
    → vm_read b console addr_mcr vm ≡ (ok (vm.mem addr_mcr), vm)
unfolding vm_read vm_mem_read
read_mcr lc3_16bit console vm = refl
read_mcr lc3_32bit console vm = refl

pub bit_clear : (b : Build) (x : ℕ) → x < status_bit b → bit_and x (status_bit b) ≡ 0
bit_clear lc3_16bit x h = omega (arith, and_digit 15 x)
bit_clear lc3_32bit x h = omega (arith, and_digit 31 x)

module _ (b : Build) where
  -- Where JSR and JSRR go. The base register is read before R7 is written.
  abbrev jsr_target : ℕ → Vm → ℕ
  jsr_target w vm =
      if ltb 0 (bit_and w (2 ^ 11))
      then word b (vm.reg reg_pc + sextend b w 11)
      else vm.reg (field_sr1 w)

  abbrev pub called : ℕ → Vm → Vm
  called w vm = record vm {
    reg = update (update vm.reg 7 (vm.reg reg_pc)) reg_pc (jsr_target w vm);
  }

-- The word of RET.
abbrev pub ret : ℕ
ret = make_jmp (config 16) 7

module _ (b : Build) (console : Console) where
  perform_jsr_lem :
      (w : ℕ) (vm : Vm) → w / 2 ^ 12 ≡ 4 → vm_perform b console w vm ≡ (success, called b w vm)
  unfolding vm_perform perform_opcode opcode_of perform_jsr
  perform_jsr_lem w vm e = rw e (elim (Bool-cases (ltb 0 (bit_and w (2 ^ 11)))) [
    | inl set ↦ rw set refl
    | inr clear ↦ rw clear refl
  ])

  -- JSR and JSRR, whatever their operand: R7 gets the PC, the PC the target (for JSRR R7 the old R7),
  -- and nothing else changes, so that any other base register of JSRR keeps its value. RET then goes
  -- back to the PC of the call, changing nothing else.
  pub ret-jsr :
      (w : ℕ) (vm : Vm)
      → w / 2 ^ 12 ≡ opcode_jsr
      → (vm_perform b console w vm ≡ (success, called b w vm))
        × (vm_perform b console ret (called b w vm)
            ≡ (success, record vm { reg = update (called b w vm).reg reg_pc (vm.reg reg_pc) }))
  unfolding vm_perform perform_opcode opcode_of perform_jmp make_r2
  ret-jsr w vm e = (perform_jsr_lem w vm e, refl)
