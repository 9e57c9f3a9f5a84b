-- ===== src/Vm/Invariant.antt =====
-- Invariants of the machine of lc3sim-c/vm.c: its words, its flags, the cells behind the device
-- registers, and what was put out.
use mathlib.Core.Path.{subst}
use mathlib.Core.List.{append_assoc, append-nil}
use lc3_script_tools.Base.{
  ℕ, ◌≤◌, ◌≡◌, refl, sym, ◌∙◌, ap, arith, List, [], ◌∷◌, ◌++◌, inl, inr, update_ne,
}
use lc3_script_tools.Vm.Types.{Build, lc3_16bit, lc3_32bit}
use lc3_script_tools.Vm.State.{Console, Vm}
use lc3_script_tools.Vm.Memory.{vm_create}
use lc3_script_tools.Vm.Perform.{vm_perform}
use lc3_script_tools.Vm.Run.{vm_run}
use lc3_script_tools.Vm.Triple.{IsValid, IsCell, IsStable, IsValid-IsStable, ×-IsStable}
use lc3_script_tools.Vm.Triple.Perform.{IsPerformed, perform-keeps}
use lc3_script_tools.Vm.Triple.Run.{IsEnd, Ends, run-keeps}

-- The machine that vm_create makes is well formed.
pub create-IsValid : (b : Build) → IsValid b (vm_create b)
unfolding vm_create
create-IsValid lc3_16bit = record {
  regs = λ i. ground arith;
  cells = λ a. ground arith;
  psr = inr (inl refl);
}
create-IsValid lc3_32bit = record {
  regs = λ i. ground arith;
  cells = λ a. ground arith;
  psr = inr (inl refl);
}

-- `vm` came from `start`: what was put out is still there, no input is given back, and the cells that
-- no store reaches are as they were.
pub record Follows (b : Build) (start vm : Vm) : Type 0 where
  put_out : (more : List ℕ) × (vm.output ≡ start.output ++ more)
  reads_grow : start.reads ≤ vm.reads
  polls_grow : start.polls ≤ vm.polls
  devices : (a : ℕ) → ¬ IsCell b a → vm.mem a ≡ start.mem a

Follows-IsStable : {b : Build} (start : Vm) → IsStable b (Follows b start)
Follows-IsStable {b} start = record {
  on_reg = λ vm i v lt w h. record {
    put_out = h.put_out;
    reads_grow = h.reads_grow;
    polls_grow = h.polls_grow;
    devices = h.devices;
  };
  on_psr = λ vm v f h. record {
    put_out = h.put_out;
    reads_grow = h.reads_grow;
    polls_grow = h.polls_grow;
    devices = h.devices;
  };
  on_cell = λ vm a v c w h. record {
    put_out = h.put_out;
    reads_grow = h.reads_grow;
    polls_grow = h.polls_grow;
    devices = λ a' n. update_ne vm.mem a a' v (λ e. n (subst (IsCell b) e c)) ∙ h.devices a' n;
  };
  on_polls = λ vm h. record {
    put_out = h.put_out;
    reads_grow = h.reads_grow;
    polls_grow = omega arith;
    devices = h.devices;
  };
  on_reads = λ vm h. record {
    put_out = h.put_out;
    reads_grow = omega arith;
    polls_grow = h.polls_grow;
    devices = h.devices;
  };
  on_output = λ vm c h. record {
    put_out = (
      h.put_out.0 ++ c ∷ [],
      ap (λ o. o ++ c ∷ []) h.put_out.1 ∙ append_assoc start.output h.put_out.0 (c ∷ []),
    );
    reads_grow = h.reads_grow;
    polls_grow = h.polls_grow;
    devices = h.devices;
  };
}

pub Follows-refl : (b : Build) (vm : Vm) → Follows b vm vm
Follows-refl b vm = record {
  put_out = ([], sym (append-nil vm.output));
  reads_grow = omega arith;
  polls_grow = omega arith;
  devices = λ a n. refl;
}

module _ (b : Build) (console : Console) where
  abbrev StaysBehind : Vm → Vm → Type 0
  StaysBehind start vm = IsValid b vm × Follows b start vm

  pub both : (start : Vm) → IsStable b (StaysBehind start)
  both start = ×-IsStable (IsValid-IsStable b) (Follows-IsStable start)

  -- One instruction, whatever its word, keeps a well-formed machine well formed (every register and
  -- cell holds a word of the build, the status register exactly one flag), and only appends to the
  -- output, takes input and polls, and writes memory cells: those behind the device registers
  -- KBSR, KBDR, DSR and DDR and those past the memory stay as they were. The result is VM_SUCCESS,
  -- or one of VM_OPCODE_NOP, VM_OPCODE_NOT_IMPLEMENTED and VM_ERROR_ADDRES_OUT_OF_RANGE.
  pub perform_invariant :
      (instr : ℕ) {vm : Vm}
      → IsValid b vm
      → IsValid b (vm_perform b console instr vm).1
        × Follows b vm (vm_perform b console instr vm).1
        × IsPerformed (vm_perform b console instr vm).0
  perform_invariant instr {vm} h =
      let k =
        perform-keeps {I = StaysBehind vm} (λ v p. p.0) (both vm) console instr
          (h, Follows-refl b vm) in
      (k.0.0, k.0.1, k.1)

  -- Whenever a run from a well-formed machine ends, the machine is well formed, has only appended to
  -- the output and left the cells behind the device registers alone, the result is not VM_SUCCESS,
  -- and if it is VM_RES_ADDR_MCR then the status bit of MCR is clear.
  pub run_invariant :
      (fuel : ℕ) {vm : Vm}
      → IsValid b vm
      → Ends
          (λ r vm'. (IsValid b vm' × Follows b vm vm') × IsEnd b r vm')
          (vm_run b console fuel vm)
  run_invariant fuel {vm} h =
      run-keeps {I = StaysBehind vm} (λ v p. p.0) (both vm) console fuel vm (h, Follows-refl b vm)
