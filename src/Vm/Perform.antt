-- ===== src/Vm/Perform.antt =====
-- The execution of one instruction: vm_perform of lc3sim-c/vm.c and its helpers, a function for
-- each case of the switch.
pub mod Sextend
use lc3_script_tools.Base.{
  ℕ, ◌+◌, ◌-◌, ◌/◌, ◌^◌, bit_and, bit_xor, Option, none, some, ◌==◌, ltb, if◌then◌else◌,
}
use lc3_script_tools.Vm.Types.{
  Build, register_bits, word, sign_bit, reg_pc, reg_psr, flag_zero, flag_negative, flag_positive,
  VmResult, success, opcode_nop, opcode_not_implemented, Opcode, add, and, br, jmp, jsr, ld, ldi,
  ldr, lea, not, rti, st, sti, str, trap, reserved, opcode_of,
}
use lc3_script_tools.Vm.State.{
  Console, Vm, Res, ok, stop, M, ◌>>=◌, ◌>>◌, pure, halt, get_reg, set_reg,
}
use lc3_script_tools.Vm.Memory.{vm_read, vm_write, getchar}

-- The fields of an instruction word that several cases of the switch take.
abbrev pub field_dr : ℕ → ℕ
field_dr instr = bit_and (instr / 2 ^ 9) 7

abbrev pub field_sr1 : ℕ → ℕ
field_sr1 instr = bit_and (instr / 2 ^ 6) 7

abbrev pub field_sr2 : ℕ → ℕ
field_sr2 instr = bit_and instr 7

-- The result of the switch: VM_SUCCESS after a `break`.
abbrev pub result_of : Res (Unit {0}) × Vm → VmResult × Vm
result_of (ok u, vm) = (success, vm)
result_of (stop r, vm) = (r, vm)

module _ (b : Build) where
  -- The low `n` bits of `val`, as a signed number. 2 ^ bits is added since `-` stops at 0. The source
  -- shifts an int, which is defined for `n` from 1 to 30: the calls have 5, 6, 9 and 11.
  unfoldable pub sextend : ℕ → ℕ → ℕ
  sextend val n =
      let m = 2 ^ (n - 1) in word b (bit_xor (bit_and val (2 ^ n - 1)) m + 2 ^ register_bits b - m)

  unfoldable pub vm_sign_flag : ℕ → ℕ
  vm_sign_flag val =
      if val == 0
      then flag_zero
      else if ltb 0 (bit_and val (sign_bit b))
      then flag_negative
      else flag_positive

  unfoldable pub vm_setcc : ℕ → M (Unit {0})
  unfolding vm_sign_flag
  vm_setcc r = do v ← get_reg r; set_reg reg_psr (vm_sign_flag v)

  -- `vm->reg[VM_REG_PC] + offset`, passed as a vm_addr.
  abbrev pub pc_plus : ℕ → M ℕ
  pc_plus offset = do pc ← get_reg reg_pc; pure (word b (pc + offset))

  -- The second operand of ADD and AND.
  unfoldable pub operand : ℕ → M ℕ
  operand instr =
      if ltb 0 (bit_and instr (2 ^ 5)) then pure (sextend instr 5) else get_reg (field_sr2 instr)

  unfoldable pub perform_add : ℕ → M (Unit {0})
  unfolding operand vm_setcc
  perform_add instr = do
    x ← get_reg (field_sr1 instr)
    y ← operand instr
    set_reg (field_dr instr) (word b (x + y))
    vm_setcc (field_dr instr)

  unfoldable pub perform_and : ℕ → M (Unit {0})
  unfolding operand vm_setcc
  perform_and instr = do
    x ← get_reg (field_sr1 instr)
    y ← operand instr
    set_reg (field_dr instr) (bit_and x y)
    vm_setcc (field_dr instr)

  -- A branch is taken if the status register has one of the desired flags.
  unfoldable pub take_branch : ℕ → ℕ → M (Unit {0})
  take_branch psr instr =
      let current_nzp = bit_and psr 7 in
      let desired_nzp = bit_and (instr / 2 ^ 9) 7 in
      if ltb 0 (bit_and current_nzp desired_nzp)
      then pc_plus (sextend instr 9) >>= set_reg reg_pc
      else pure tt

  -- The word 0 ends the run.
  unfoldable pub stop_at_zero : ℕ → M (Unit {0})
  stop_at_zero instr = if instr == 0 then halt opcode_nop else pure tt

  unfoldable pub perform_br : ℕ → M (Unit {0})
  unfolding take_branch stop_at_zero
  perform_br instr = do psr ← get_reg reg_psr; take_branch psr instr; stop_at_zero instr

  unfoldable pub perform_jmp : ℕ → M (Unit {0})
  perform_jmp instr = do target ← get_reg (field_sr1 instr); set_reg reg_pc target

  -- The base register is read before R7 is written: they may be one.
  unfoldable pub perform_jsr : ℕ → M (Unit {0})
  perform_jsr instr =
      if ltb 0 (bit_and instr (2 ^ 11))
      then (do
        pc ← get_reg reg_pc
        set_reg 7 pc
        target ← pc_plus (sextend instr 11)
        set_reg reg_pc target)
      else (do
        tmp ← get_reg (field_sr1 instr)
        pc ← get_reg reg_pc
        set_reg 7 pc
        set_reg reg_pc tmp)

  unfoldable pub perform_lea : ℕ → M (Unit {0})
  unfolding vm_setcc
  perform_lea instr = do
    v ← pc_plus (sextend instr 9)
    set_reg (field_dr instr) v
    vm_setcc (field_dr instr)

  -- `~` on a vm_byte.
  unfoldable pub perform_not : ℕ → M (Unit {0})
  unfolding vm_setcc
  perform_not instr = do
    x ← get_reg (field_sr1 instr)
    set_reg (field_dr instr) (2 ^ register_bits b - 1 - x)
    vm_setcc (field_dr instr)

  unfoldable pub perform_st : ℕ → M (Unit {0})
  perform_st instr = do
    addr ← pc_plus (sextend instr 9)
    v ← get_reg (field_dr instr)
    vm_write b addr v

  unfoldable pub perform_str : ℕ → M (Unit {0})
  perform_str instr = do
    base ← get_reg (field_sr1 instr)
    v ← get_reg (field_dr instr)
    vm_write b (word b (base + sextend instr 6)) v

  module _ (console : Console) where
    -- `vm_read(vm, addr, &vm->reg[dr])`, and the condition codes after it.
    unfoldable pub load_reg : ℕ → ℕ → M (Unit {0})
    unfolding vm_setcc
    load_reg dr addr = do v ← vm_read b console addr; set_reg dr v; vm_setcc dr

    unfoldable pub perform_ld : ℕ → M (Unit {0})
    unfolding load_reg
    perform_ld instr = do addr ← pc_plus (sextend instr 9); load_reg (field_dr instr) addr

    unfoldable pub perform_ldi : ℕ → M (Unit {0})
    unfolding load_reg
    perform_ldi instr = do
      at ← pc_plus (sextend instr 9)
      addr ← vm_read b console at
      load_reg (field_dr instr) addr

    unfoldable pub perform_ldr : ℕ → M (Unit {0})
    unfolding load_reg
    perform_ldr instr = do
      base ← get_reg (field_sr1 instr)
      load_reg (field_dr instr) (word b (base + sextend instr 6))

    unfoldable pub perform_sti : ℕ → M (Unit {0})
    perform_sti instr = do
      at ← pc_plus (sextend instr 9)
      addr ← vm_read b console at
      v ← get_reg (field_dr instr)
      vm_write b addr v

    -- GETC is done here; the other traps go on in the operating system's code.
    unfoldable pub perform_trap : ℕ → M (Unit {0})
    perform_trap instr =
        let trapvect8 = bit_and instr 0xff in
        if trapvect8 == 0x20 then getchar b console >>= set_reg 0 else (do
          pc ← get_reg reg_pc
          set_reg 7 pc
          target ← vm_read b console trapvect8
          set_reg reg_pc target)

    unfoldable pub perform_opcode : Option Opcode → ℕ → M (Unit {0})
    perform_opcode none instr = pure tt
    perform_opcode (some add) instr = perform_add instr
    perform_opcode (some and) instr = perform_and instr
    perform_opcode (some br) instr = perform_br instr
    perform_opcode (some jmp) instr = perform_jmp instr
    perform_opcode (some jsr) instr = perform_jsr instr
    perform_opcode (some ld) instr = perform_ld instr
    perform_opcode (some ldi) instr = perform_ldi instr
    perform_opcode (some ldr) instr = perform_ldr instr
    perform_opcode (some lea) instr = perform_lea instr
    perform_opcode (some not) instr = perform_not instr
    perform_opcode (some rti) instr = halt opcode_not_implemented
    perform_opcode (some st) instr = perform_st instr
    perform_opcode (some sti) instr = perform_sti instr
    perform_opcode (some str) instr = perform_str instr
    perform_opcode (some trap) instr = perform_trap instr
    perform_opcode (some reserved) instr = halt opcode_not_implemented

    unfoldable pub vm_perform : ℕ → Vm → VmResult × Vm
    vm_perform instr vm = result_of (perform_opcode (opcode_of (instr / 2 ^ 12)) instr vm)
