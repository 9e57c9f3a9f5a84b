-- ===== src/Vm/Triple/Run.antt =====
-- Rules for the run loop of lc3sim-c/vm.c.
use lc3_script_tools.Base.{
  ℕ, zero, suc, ◌+◌, arith, ◌^◌, ◌<◌, ◌≡◌, refl, inl, inr, Option, none, some, bit_and, ltb,
  Bool-cases,
}
use lc3_script_tools.Vm.Types.{
  Build, lc3_16bit, lc3_32bit, register_bits, status_bit, addr_mcr, reg_pc, VmResult, success,
  opcode_nop, res_addr_mcr, opcode_not_implemented, error_addres_out_of_range,
}
use lc3_script_tools.Vm.State.{Console, Vm, Res, ok, stop, continue, ◌>>=◌}
use lc3_script_tools.Vm.Memory.{vm_read}
use lc3_script_tools.Vm.Perform.{vm_perform}
use lc3_script_tools.Vm.Run.{returned, next_round, check_status, vm_round, vm_run}
use lc3_script_tools.Vm.Words.{word-lt}
use lc3_script_tools.Vm.Triple.{
  IsValid, IsStable, IsRefusal, Returns, Keeps, Any, Keeps->>=, Keeps-get_reg, Keeps-set_reg,
  Keeps-weaken,
}
use lc3_script_tools.Vm.Triple.Memory.{Keeps-vm_read}
use lc3_script_tools.Vm.Triple.Perform.{IsPerformed, perform-keeps}

-- How a run may end: with VM_RES_ADDR_MCR the clock's status bit is clear.
abbrev pub IsEnd : Build → VmResult → Vm → Type 0
IsEnd b success vm = ⊥
IsEnd b opcode_nop vm = Unit
IsEnd b res_addr_mcr vm = bit_and (vm.mem addr_mcr) (status_bit b) ≡ 0
IsEnd b opcode_not_implemented vm = Unit
IsEnd b error_addres_out_of_range vm = Unit

IsEnd-IsRefusal : (b : Build) (r : VmResult) (vm : Vm) → IsRefusal r → IsEnd b r vm
IsEnd-IsRefusal b opcode_nop vm e = tt
IsEnd-IsRefusal b opcode_not_implemented vm e = tt
IsEnd-IsRefusal b error_addres_out_of_range vm e = tt
IsEnd-IsRefusal b success vm e = e
IsEnd-IsRefusal b res_addr_mcr vm e = absurd e

returned_keeps :
    (b : Build) (I : Vm → Type 0) (p : VmResult × Vm)
    → I p.1 × IsPerformed p.0
    → I (returned p).1 × Returns (IsEnd b) Any (returned p)
returned_keeps b I (success, vm) h = (h.0, tt)
returned_keeps b I (opcode_nop, vm) h = (h.0, tt)
returned_keeps b I (res_addr_mcr, vm) h = absurd (not_mcr h.1)
  where
    not_mcr : IsPerformed res_addr_mcr → ⊥
    not_mcr (inl e) = cc
    not_mcr (inr e) = e
returned_keeps b I (opcode_not_implemented, vm) h = (h.0, tt)
returned_keeps b I (error_addres_out_of_range, vm) h = (h.0, tt)

-- The clock's register is a plain cell.
read-mcr :
    (b : Build) (console : Console) (vm : Vm)
    → vm_read b console addr_mcr vm ≡ (ok (vm.mem addr_mcr), vm)
unfolding vm_read
read-mcr lc3_16bit console vm = refl
read-mcr lc3_32bit console vm = refl

-- What holds of the result and the state that a run ends in, if the fuel is enough for it to end.
abbrev pub Ends : (VmResult → Vm → Type 0) → Option (VmResult × Vm) → Type 0
Ends P none = Unit
Ends P (some (r, vm)) = P r vm

module _ {b : Build} {I : Vm → Type 0} (valid : (vm : Vm) → I vm → IsValid b vm)
    (s : IsStable b I) where
  module _ (console : Console) where
    Keeps-perform :
        (instr : ℕ) → Keeps I (IsEnd b) Any (λ vm. returned (vm_perform b console instr vm))
    Keeps-perform instr = record {
      run = λ vm h.
          returned_keeps b I (vm_perform b console instr vm)
            (perform-keeps valid s console instr h);
    }

    Keeps-read :
        (addr : ℕ) → Keeps I (IsEnd b) (λ v. v < 2 ^ register_bits b) (vm_read b console addr)
    Keeps-read addr = Keeps-weaken (IsEnd-IsRefusal b) (Keeps-vm_read valid s console addr)

    status-keeps :
        (vm : Vm)
        → I vm
        → I (check_status b console (vm.mem addr_mcr) vm).1
          × Returns (IsEnd b) Any (check_status b console (vm.mem addr_mcr) vm)
    unfolding check_status
    status-keeps vm h = elim (Bool-cases (ltb 0 (bit_and (vm.mem addr_mcr) (status_bit b)))) [
      | inl set ↦ rw set (h, tt)
      | inr clear ↦ rw clear (h, ground arith)
    ]

    Keeps-clock : Keeps I (IsEnd b) Any (vm_read b console addr_mcr >>= check_status b console)
    Keeps-clock = record { run = λ vm h. rw (read-mcr, continue) (status-keeps vm h) }

    pub Keeps-round : Keeps I (IsEnd b) Any (vm_round b console)
    unfolding vm_round
    Keeps-round = Keeps->>= Keeps-clock λ _ _. Keeps->>= (Keeps-get_reg valid s reg_pc) λ pc _.
        Keeps->>= (Keeps-read pc) λ instr _.
          Keeps->>= (Keeps-set_reg valid s reg_pc _ (omega arith) (word-lt b (pc + 1)))
            λ _ _. Keeps-perform instr

    next_keeps :
        (fuel : ℕ)
        → ((vm : Vm) → I vm → Ends (λ r vm'. I vm' × IsEnd b r vm') (vm_run b console fuel vm))
        → (p : Res (Unit {0}) × Vm) → I p.1 × Returns (IsEnd b) Any p
        → Ends (λ r vm'. I vm' × IsEnd b r vm') (next_round p (λ vm. vm_run b console fuel vm))
    next_keeps fuel again (ok u, vm) h = again vm h.0
    next_keeps fuel again (stop r, vm) h = h

    pub run-keeps :
        (fuel : ℕ) (vm : Vm)
        → I vm
        → Ends (λ r vm'. I vm' × IsEnd b r vm') (vm_run b console fuel vm)
    unfolding vm_run
    run-keeps zero vm h = tt
    run-keeps (suc fuel) vm h =
        next_keeps fuel (run-keeps fuel) (vm_round b console vm) (Keeps-round.run vm h)
