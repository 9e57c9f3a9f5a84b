-- ===== src/Vm/Run.antt =====
-- The run loop: vm_run of lc3sim-c/vm.c. A round reads the clock's status bit, fetches, moves the PC
-- and performs. The loop has no bound of its own, so it takes fuel: `none` is fuel that ran out.
use lc3_script_tools.Base.{ℕ, zero, suc, ◌+◌, bit_and, Option, none, some, ltb, if◌then◌else◌}
use lc3_script_tools.Vm.Types.{
  Build, word, status_bit, addr_mcr, reg_pc, VmResult, success, opcode_nop, res_addr_mcr,
  opcode_not_implemented, error_addres_out_of_range,
}
use lc3_script_tools.Vm.State.{
  Console, Vm, Res, ok, stop, M, ◌>>=◌, ◌>>◌, pure, halt, get_reg, set_reg,
}
use lc3_script_tools.Vm.Memory.{vm_read}
use lc3_script_tools.Vm.Perform.{vm_perform}

-- Any result of vm_perform but VM_SUCCESS ends the loop.
abbrev pub returned : VmResult × Vm → Res (Unit {0}) × Vm
returned (success, vm) = (ok tt, vm)
returned (opcode_nop, vm) = (stop opcode_nop, vm)
returned (res_addr_mcr, vm) = (stop res_addr_mcr, vm)
returned (opcode_not_implemented, vm) = (stop opcode_not_implemented, vm)
returned (error_addres_out_of_range, vm) = (stop error_addres_out_of_range, vm)

abbrev pub next_round : Res (Unit {0}) × Vm → (Vm → Option (VmResult × Vm)) → Option (VmResult × Vm)
next_round (ok u, vm) again = again vm
next_round (stop r, vm) again = some (r, vm)

module _ (b : Build) (console : Console) where
  -- The clock runs while the status bit of MCR is set.
  unfoldable pub check_status : ℕ → M (Unit {0})
  check_status clock = if ltb 0 (bit_and clock (status_bit b)) then pure tt else halt res_addr_mcr

  unfoldable pub vm_round : M (Unit {0})
  unfolding check_status
  vm_round = do
    vm_read b console addr_mcr >>= check_status
    pc ← get_reg reg_pc
    instr ← vm_read b console pc
    set_reg reg_pc (word b (pc + 1))
    λ vm. returned (vm_perform b console instr vm)

  unfoldable pub vm_run : ℕ → Vm → Option (VmResult × Vm)
  vm_run zero vm = none
  vm_run (suc fuel) vm = next_round (vm_round vm) (λ vm'. vm_run fuel vm')
