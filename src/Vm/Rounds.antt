-- ===== src/Vm/Rounds.antt =====
-- The loop of vm_run in lc3sim-c/vm.c as a relation: the rounds that a run makes, ended or not.
use mathlib.Core.Path.{subst}
use lc3_script_tools.Base.{ℕ, suc, ◌≡◌}
use lc3_script_tools.Vm.Types.{Build}
use lc3_script_tools.Vm.State.{Console, Vm, Res, ok}
use lc3_script_tools.Vm.Run.{vm_round}
use lc3_script_tools.Vm.Triple.{IsValid, IsStable}
use lc3_script_tools.Vm.Triple.Run.{Keeps-round}
use lc3_script_tools.Vm.Invariant.{Follows, Follows-refl, both}

-- `n` rounds lead from a machine to another.
pub data Rounds (b : Build) (console : Console) : Vm → ℕ → Vm → Type 0 where
  at_start : {vm : Vm} → Rounds b console vm 0 vm
  round :
      {vm next end : Vm} {n : ℕ}
      → vm_round b console vm ≡ (ok tt, next)
      → Rounds b console next n end
      → Rounds b console vm (suc n) end

module _ (b : Build) (console : Console) where
  kept :
      {I : Vm → Type 0} (valid : (vm : Vm) → I vm → IsValid b vm) (s : IsStable b I) {vm last : Vm}
      {n : ℕ}
      → Rounds b console vm n last
      → I vm
      → I last
  kept valid s at_start h = h
  kept {I} valid s (round {vm = vm} step rs) h =
      kept valid s rs
        (subst (λ (p : Res (Unit {0}) × Vm). I p.1) step ((Keeps-round valid s console).run vm h).0)

  -- After any number of rounds, of a run that ends or of one that does not, a machine that was well
  -- formed is well formed, has only appended to the output, taken input and polled, and has the
  -- cells behind the device registers as they were.
  pub Rounds-invariant :
      {vm last : Vm} {n : ℕ}
      → Rounds b console vm n last
      → IsValid b vm
      → IsValid b last × Follows b vm last
  Rounds-invariant {vm} rs h = kept (λ v p. p.0) (both b console vm) rs (h, Follows-refl b vm)
