-- ===== src/Lc3pp/Address/Machine.antt =====
-- Code that stands in the memory of the machine of lc3sim-c/vm.c, and the rounds that run through it
-- and change one register.
use lc3_script_tools.Base.{
  ℕ, suc, ◌+◌, ◌<◌, ◌≡◌, ◌≢◌, refl, ◌∙◌, ap, arith, bit_and, true, ltb, update,
}
use lc3_script_tools.Vm.Types.{
  Build, lc3_16bit, lc3_32bit, word, status_bit, addr_mcr, reg_pc, reg_psr, success,
}
use lc3_script_tools.Vm.State.{Console, Vm, ok}
use lc3_script_tools.Vm.Perform.{vm_perform, vm_sign_flag}
use lc3_script_tools.Vm.Run.{vm_round, check_status, returned}
use lc3_script_tools.Vm.Rounds.{Rounds, at_start, round}
use lc3_script_tools.Vm.Triple.{IsCell}
use lc3_script_tools.Isa.Encoded.{with_result}
use lc3_script_tools.Isa.Cells.{read_cell}
use lc3_script_tools.Isa.Control.{read_mcr}

-- The clock runs.
abbrev pub IsOn : Build → Vm → Type 0
IsOn b vm = ltb 0 (bit_and (vm.mem addr_mcr) (status_bit b)) ≡ true

next_pc : (b : Build) (a : ℕ) → IsCell b a → word b (a + 1) ≡ a + 1
next_pc lc3_16bit a c = omega (arith, c.in_memory)
next_pc lc3_32bit a c = omega (arith, c.in_memory)

module _ (b : Build) (console : Console) (start : Vm) (on : IsOn b start) (dst : ℕ) where
  -- The machine with other registers.
  abbrev pub with_reg : (ℕ → ℕ) → Vm
  with_reg g = record start { reg = g }

  -- The registers when the code up to an address has run: of 0 to 7 only `dst` differs.
  pub record Here (a : ℕ) (g : ℕ → ℕ) : Type 0 where
    pub pc : g reg_pc ≡ a
    pub others : (r : ℕ) → r < 8 → r ≢ dst → g r ≡ start.reg r

  abbrev pub Reaches : (ℕ → ℕ) → ((ℕ → ℕ) → Type 0) → Type 0
  Reaches g P = (n : ℕ) × (g' : ℕ → ℕ) × Rounds b console (with_reg g) n (with_reg g') × P g'

  pub Reaches-here : {P : (ℕ → ℕ) → Type 0} → (g : ℕ → ℕ) → P g → Reaches g P
  Reaches-here g p = (0, g, at_start, p)

  pub Reaches-round :
      {P : (ℕ → ℕ) → Type 0} (g g' : ℕ → ℕ)
      → vm_round b console (with_reg g) ≡ (ok tt, with_reg g')
      → Reaches g' P
      → Reaches g P
  Reaches-round g g' e (n, last, rs, p) = (suc n, last, round e rs, p)

  pub Reaches-map :
      {P Q : (ℕ → ℕ) → Type 0} (g : ℕ → ℕ)
      → ((g' : ℕ → ℕ) → P g' → Q g')
      → Reaches g P
      → Reaches g Q
  Reaches-map g f (n, last, rs, p) = (n, last, rs, f last p)

  pub Here-at : (a a' : ℕ) (g : ℕ → ℕ) → a ≡ a' → Here a g → Here a' g
  Here-at a a' g e h = record { pc = h.pc ∙ e; others = h.others }

  pub fetched :
      (g : ℕ → ℕ) (a w : ℕ)
      → g reg_pc ≡ a
      → start.mem a ≡ w
      → IsCell b a
      → vm_round b console (with_reg g)
        ≡ returned (vm_perform b console w (with_reg (update g reg_pc (a + 1))))
  unfolding vm_round check_status
  fetched g a w pc e c =
      rw
        (
          read_mcr b console (with_reg g),
          on,
          pc,
          read_cell b console a (with_reg g) c,
          e,
          next_pc b a c,
        )
        refl

  -- A round at an instruction that leaves `x` in `dst`.
  pub Reaches-result :
      {P : (ℕ → ℕ) → Type 0} (g : ℕ → ℕ) (a w x : ℕ)
      → dst < 8
      → Here a g
      → start.mem a ≡ w
      → IsCell b a
      → vm_perform b console w (with_reg (update g reg_pc (a + 1)))
        ≡ (success, with_result b dst x (with_reg (update g reg_pc (a + 1))))
      → ((g' : ℕ → ℕ) → Here (a + 1) g' → g' dst ≡ x → Reaches g' P)
      → Reaches g P
  Reaches-result g a w x small h e c p more =
      let g' = update (update (update g reg_pc (a + 1)) dst x) reg_psr (vm_sign_flag b x) in
      Reaches-round g g' (fetched g a w h.pc e c ∙ ap returned p) (
        more g'
          (record {
            pc = ground arith;
            others = λ r lt ne. let q = h.others r lt ne in ground arith;
          })
          (ground arith))
