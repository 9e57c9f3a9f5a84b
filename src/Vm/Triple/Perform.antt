-- ===== src/Vm/Triple/Perform.antt =====
-- Rules for the instructions of lc3sim-c/vm.c.
use lc3_script_tools.Base.{
  ℕ, ◌+◌, ◌/◌, ◌^◌, ◌<◌, ◌≡◌, refl, ◌⊎◌, inl, inr, arith, Option, none, some, bit_and, ltb, ◌==◌,
}
use lc3_script_tools.Vm.Types.{
  Build, register_bits, word, reg_pc, reg_psr, Opcode, add, and, br, jmp, jsr, ld, ldi, ldr, lea,
  not, rti, st, sti, str, trap, reserved, opcode_of, VmResult, success,
}
use lc3_script_tools.Vm.State.{Console, Vm, Res, ok, stop, ◌>>◌, get_reg, set_reg}
use lc3_script_tools.Vm.Perform.{
  field_dr, field_sr1, field_sr2, sextend, vm_setcc, pc_plus, operand, perform_add, perform_and,
  take_branch, stop_at_zero, perform_br, perform_jmp, perform_jsr, perform_lea, perform_not,
  perform_st, perform_str, load_reg, perform_ld, perform_ldi, perform_ldr, perform_sti,
  perform_trap, perform_opcode, result_of, vm_perform,
}
use lc3_script_tools.Vm.Perform.Sextend.{sextend-lt}
use lc3_script_tools.Vm.Words.{word-lt, and-lt, complement-lt, field_dr-lt, vm_sign_flag-IsFlag}
use lc3_script_tools.Vm.Triple.{
  IsValid, IsStable, IsRefusal, Returns, Performs, Any, Keeps-pure, Keeps-halt, Keeps->>=, Keeps-if,
  Keeps-get_reg, Keeps-set_reg, Keeps-set_psr,
}
use lc3_script_tools.Vm.Triple.Memory.{Keeps-vm_write, Keeps-getchar, Keeps-vm_read}

-- VM_SUCCESS, or one of the results that an instruction may stop with.
abbrev pub IsPerformed : VmResult → Type 0
IsPerformed r = (r ≡ success) ⊎ IsRefusal r

result_of-keeps :
    (I : Vm → Type 0) (s : Res (Unit {0}) × Vm)
    → I s.1 × Returns (λ r vm. IsRefusal r) Any s
    → I (result_of s).1 × IsPerformed (result_of s).0
result_of-keeps I (ok u, vm) h = (h.0, inl refl)
result_of-keeps I (stop r, vm) h = (h.0, inr h.1)

module _ {b : Build} {I : Vm → Type 0} (valid : (vm : Vm) → I vm → IsValid b vm)
    (s : IsStable b I) where
  abbrev Word : ℕ → Type 0
  Word v = v < 2 ^ register_bits b

  get : (i : ℕ) → Performs I Word (get_reg i)
  get i = Keeps-get_reg valid s i

  set_general : (i v : ℕ) → i < 8 → Word v → Performs I Any (set_reg i v)
  set_general i v lt w = Keeps-set_reg valid s i v (omega arith) w

  set_pc : (v : ℕ) → Word v → Performs I Any (set_reg reg_pc v)
  set_pc v w = Keeps-set_reg valid s reg_pc v (omega arith) w

  setcc : (r : ℕ) → Performs I Any (vm_setcc b r)
  unfolding vm_setcc
  setcc r = Keeps->>= (get r) λ v _. Keeps-set_psr valid s _ (vm_sign_flag-IsFlag b v)

  pc_offset : (offset : ℕ) → Performs I Word (pc_plus b offset)
  pc_offset offset = Keeps->>= (get reg_pc) λ pc _. Keeps-pure (word-lt b (pc + offset))

  second : (instr : ℕ) → Performs I Word (operand b instr)
  unfolding operand
  second instr =
      Keeps-if (ltb 0 (bit_and instr (2 ^ 5))) (Keeps-pure (sextend-lt b instr 5))
        (get (field_sr2 instr))

  -- A result goes into the destination register, and the condition codes follow.
  write_back :
      (instr v : ℕ)
      → Word v
      → Performs I Any (set_reg (field_dr instr) v >> vm_setcc b (field_dr instr))
  write_back instr v w =
      Keeps->>= (set_general (field_dr instr) v (field_dr-lt instr) w) λ _ _. setcc (field_dr instr)

  Keeps-add : (instr : ℕ) → Performs I Any (perform_add b instr)
  unfolding perform_add
  Keeps-add instr =
      Keeps->>= (get (field_sr1 instr))
        λ x _. Keeps->>= (second instr) λ y _. write_back instr _ (word-lt b (x + y))

  Keeps-and : (instr : ℕ) → Performs I Any (perform_and b instr)
  unfolding perform_and
  Keeps-and instr =
      Keeps->>= (get (field_sr1 instr))
        λ x w. Keeps->>= (second instr) λ y _. write_back instr _ (and-lt b x y w)

  Keeps-take_branch : (psr instr : ℕ) → Performs I Any (take_branch b psr instr)
  unfolding take_branch
  Keeps-take_branch psr instr =
      Keeps-if (ltb 0 (bit_and (bit_and psr 7) (bit_and (instr / 2 ^ 9) 7)))
        (Keeps->>= (pc_offset (sextend b instr 9)) set_pc) (Keeps-pure tt)

  Keeps-stop_at_zero : (instr : ℕ) → Performs I Any (stop_at_zero b instr)
  unfolding stop_at_zero
  Keeps-stop_at_zero instr = Keeps-if (instr == 0) (Keeps-halt (λ _ _. tt)) (Keeps-pure tt)

  Keeps-br : (instr : ℕ) → Performs I Any (perform_br b instr)
  unfolding perform_br
  Keeps-br instr =
      Keeps->>= (get reg_psr)
        λ psr _. Keeps->>= (Keeps-take_branch psr instr) λ _ _. Keeps-stop_at_zero instr

  Keeps-jmp : (instr : ℕ) → Performs I Any (perform_jmp b instr)
  unfolding perform_jmp
  Keeps-jmp instr = Keeps->>= (get (field_sr1 instr)) set_pc

  Keeps-jsr : (instr : ℕ) → Performs I Any (perform_jsr b instr)
  unfolding perform_jsr
  Keeps-jsr instr =
      Keeps-if (ltb 0 (bit_and instr (2 ^ 11)))
        (Keeps->>= (get reg_pc) λ pc w.
          Keeps->>= (set_general 7 pc (omega arith) w)
            λ _ _. Keeps->>= (pc_offset (sextend b instr 11)) set_pc)
        (Keeps->>= (get (field_sr1 instr)) λ tmp t.
          Keeps->>= (get reg_pc)
            λ pc w. Keeps->>= (set_general 7 pc (omega arith) w) λ _ _. set_pc tmp t)

  Keeps-lea : (instr : ℕ) → Performs I Any (perform_lea b instr)
  unfolding perform_lea
  Keeps-lea instr = Keeps->>= (pc_offset (sextend b instr 9)) (write_back instr)

  Keeps-not : (instr : ℕ) → Performs I Any (perform_not b instr)
  unfolding perform_not
  Keeps-not instr = Keeps->>= (get (field_sr1 instr)) λ x _. write_back instr _ (complement-lt b x)

  Keeps-st : (instr : ℕ) → Performs I Any (perform_st b instr)
  unfolding perform_st
  Keeps-st instr =
      Keeps->>= (pc_offset (sextend b instr 9))
        λ addr _. Keeps->>= (get (field_dr instr)) (Keeps-vm_write valid s addr)

  Keeps-str : (instr : ℕ) → Performs I Any (perform_str b instr)
  unfolding perform_str
  Keeps-str instr = Keeps->>= (get (field_sr1 instr)) λ base _.
      Keeps->>= (get (field_dr instr)) (Keeps-vm_write valid s (word b (base + sextend b instr 6)))

  module _ (console : Console) where
    Keeps-load_reg : (instr addr : ℕ) → Performs I Any (load_reg b console (field_dr instr) addr)
    unfolding load_reg
    Keeps-load_reg instr addr = Keeps->>= (Keeps-vm_read valid s console addr) (write_back instr)

    Keeps-ld : (instr : ℕ) → Performs I Any (perform_ld b console instr)
    unfolding perform_ld
    Keeps-ld instr = Keeps->>= (pc_offset (sextend b instr 9)) λ addr _. Keeps-load_reg instr addr

    Keeps-ldi : (instr : ℕ) → Performs I Any (perform_ldi b console instr)
    unfolding perform_ldi
    Keeps-ldi instr =
        Keeps->>= (pc_offset (sextend b instr 9))
          λ at _. Keeps->>= (Keeps-vm_read valid s console at) λ addr _. Keeps-load_reg instr addr

    Keeps-ldr : (instr : ℕ) → Performs I Any (perform_ldr b console instr)
    unfolding perform_ldr
    Keeps-ldr instr =
        Keeps->>= (get (field_sr1 instr))
          λ base _. Keeps-load_reg instr (word b (base + sextend b instr 6))

    Keeps-sti : (instr : ℕ) → Performs I Any (perform_sti b console instr)
    unfolding perform_sti
    Keeps-sti instr = Keeps->>= (pc_offset (sextend b instr 9)) λ at _.
        Keeps->>= (Keeps-vm_read valid s console at)
          λ addr _. Keeps->>= (get (field_dr instr)) (Keeps-vm_write valid s addr)

    Keeps-trap : (instr : ℕ) → Performs I Any (perform_trap b console instr)
    unfolding perform_trap
    Keeps-trap instr =
        Keeps-if (bit_and instr 0xff == 0x20)
          (Keeps->>= (Keeps-getchar valid s console) λ c w. set_general 0 c (omega arith) w)
          (Keeps->>= (get reg_pc) λ pc w.
            Keeps->>= (set_general 7 pc (omega arith) w)
              λ _ _. Keeps->>= (Keeps-vm_read valid s console (bit_and instr 0xff)) set_pc)

    Keeps-opcode :
        (o : Option Opcode) (instr : ℕ) → Performs I Any (perform_opcode b console o instr)
    unfolding perform_opcode
    Keeps-opcode none instr = Keeps-pure tt
    Keeps-opcode (some add) instr = Keeps-add instr
    Keeps-opcode (some and) instr = Keeps-and instr
    Keeps-opcode (some br) instr = Keeps-br instr
    Keeps-opcode (some jmp) instr = Keeps-jmp instr
    Keeps-opcode (some jsr) instr = Keeps-jsr instr
    Keeps-opcode (some ld) instr = Keeps-ld instr
    Keeps-opcode (some ldi) instr = Keeps-ldi instr
    Keeps-opcode (some ldr) instr = Keeps-ldr instr
    Keeps-opcode (some lea) instr = Keeps-lea instr
    Keeps-opcode (some not) instr = Keeps-not instr
    Keeps-opcode (some rti) instr = Keeps-halt (λ _ _. tt)
    Keeps-opcode (some st) instr = Keeps-st instr
    Keeps-opcode (some sti) instr = Keeps-sti instr
    Keeps-opcode (some str) instr = Keeps-str instr
    Keeps-opcode (some trap) instr = Keeps-trap instr
    Keeps-opcode (some reserved) instr = Keeps-halt (λ _ _. tt)

    -- A stable invariant survives any instruction word, whatever the result.
    pub perform-keeps :
        (instr : ℕ) {vm : Vm}
        → I vm
        → I (vm_perform b console instr vm).1 × IsPerformed (vm_perform b console instr vm).0
    unfolding vm_perform
    perform-keeps instr {vm} h =
        result_of-keeps I (perform_opcode b console (opcode_of (instr / 2 ^ 12)) instr vm)
          ((Keeps-opcode (opcode_of (instr / 2 ^ 12)) instr).run vm h)
