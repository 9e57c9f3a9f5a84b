-- ===== src/Lc3pp/Address/Steps.antt =====
-- The loops of calculate_address, and its LDR, run one instruction after the other.
use lc3_script_tools.Base.{
  ℕ, zero, suc, ◌+◌, ◌-◌, ◌^◌, ◌≤◌, ◌<◌, ◌≡◌, refl, sym, ◌∙◌, ap, arith, Bool, List, ◌∷◌, ◌++◌,
  ◌==◌, if◌then◌else◌, Bool-cases, inl, inr, ==→eq, update, update_ne, length,
}
use lc3_script_tools.Base.Int.{ℤ, Fits}
use lc3_script_tools.Vm.Types.{Build, register_bits, reg_pc}
use lc3_script_tools.Vm.State.{Console, Vm}
use lc3_script_tools.Vm.Triple.{IsCell}
use lc3_script_tools.Isa.Alu.{perform-make_add_i}
use lc3_script_tools.Lc3pp.Address.{Line, signed, least, add_bound, add_steps}
use lc3_script_tools.Lc3pp.Address.Machine.{
  IsOn, with_reg, Here, Reaches, Reaches-here, Reaches-result,
}
use lc3_script_tools.Lc3pp.Address.Encoded.{encoded, Placed, perform-make_ldr}
use lc3_script_tools.Lc3pp.Address.Sum.{
  add-Fits, plus, plus-lt, plus-zero, plus-plus, least-le, least_pos, either,
}

module _ (b : Build) (console : Console) (start : Vm) (on : IsOn b start) (dst : ℕ)
    (dst_fits : dst < 8) where
  abbrev pub Goes : ((ℕ → ℕ) → Type 0) → (ℕ → ℕ) → Type 0
  Goes P g = Reaches b console start on dst g P

  pub add_step :
      {P : (ℕ → ℕ) → Type 0} (g : ℕ → ℕ) (a base : ℕ) (v : ℤ)
      → base < 8
      → Fits 5 v
      → Here b console start on dst a g
      → start.mem a ≡ encoded b (Line.add_imm dst base v base v)
      → IsCell b a
      → ((g' : ℕ → ℕ)
          → Here b console start on dst (a + 1) g'
          → g' dst ≡ plus b (g base) v
          → Goes P g')
      → Goes P g
  unfolding encoded
  add_step g a base v small f h e c more =
      let moved = with_reg b console start on dst (update g reg_pc (a + 1)) in
      let kept : update g reg_pc (a + 1) base ≡ g base =
        update_ne g reg_pc base (a + 1) (λ q. omega arith) in
      Reaches-result b console start on dst g a (encoded b (Line.add_imm dst base v base v))
        (plus b (g base) v) dst_fits h e c
        (perform-make_add_i b console moved dst base dst_fits small v f ∙ rw kept refl) more

  -- The register that holds the sum so far.
  abbrev pub so_far : ℕ → ℕ → ℕ
  so_far base offset = if offset == 0 then base else dst

  -- The loop, in front of any lines.
  pub adds :
      {P : (ℕ → ℕ) → Type 0} (rest : List Line) (below : Bool) (from fuel base offset sum : ℕ)
      (g : ℕ → ℕ) (a : ℕ)
      → base < 8
      → offset ≤ fuel
      → g base < 2 ^ register_bits b
      → Here b console start on dst a g
      → Placed b start.mem (add_steps below from dst fuel base offset sum ++ rest) a
      → ((g' : ℕ → ℕ) (a' : ℕ)
          → Here b console start on dst a' g'
          → g' (so_far base offset) ≡ plus b (g base) (signed below offset)
          → Placed b start.mem rest a'
          → a' ≡ a + length (add_steps below from dst fuel base offset sum)
          → Goes P g')
      → Goes P g
  unfolding add_steps encoded
  adds rest below from zero base offset sum g a small enough fits h placed more =
      let z : offset ≡ 0 = omega arith in
      more g a h (rw z (plus-zero b (g base) fits)) placed (omega arith)
  adds {P} rest below from (suc fuel) base offset sum g a small enough fits h placed more =
      elim (Bool-cases (offset == 0)) [
        | inl e ↦
            let z = ==→eq offset 0 e in
            more g a h (rw z (plus-zero b (g base) fits)) (rw e at placed) (rw e (omega arith))
        | inr e ↦
            let n = least offset (add_bound below) in
            let m = offset - n in
            let here : Placed b start.mem
                (Line.add_imm dst base (signed below n) from (signed below (sum + n))
                  ∷ (add_steps below from dst fuel dst m (sum + n) ++ rest))
                a =
              rw e at placed in
            let bound : n ≤ add_bound below = least-le offset (add_bound below) in
            let less : (1 ≤ n) × (n ≤ offset) = least_pos offset below e in
            add_step {P = P} g a base (signed below n) small (add-Fits below n bound) h here.0
              here.1
              λ g' h' value.
                adds {P = P} rest below from fuel dst m (sum + n) g' (a + 1) dst_fits
                  (omega (arith, less.0, less.1)) (rw value (plus-lt b (g base) (signed below n)))
                  h' here.2
                  λ g'' a'' h'' value' placed' length'.
                    more g'' a'' h''
                      (rw e (
                        ap g'' (sym (either dst (m == 0)))
                        ∙ value'
                        ∙ ap (λ (y : ℕ). plus b y (signed below m)) value
                        ∙ plus-plus b below (g base) n m
                        ∙ ap (λ (k : ℕ). plus b (g base) (signed below k)) (omega (arith, less.1))))
                      placed' (rw e (omega (arith, length')))
      ]

  -- LDR through a register.
  pub ldr_step :
      (g : ℕ → ℕ) (a r : ℕ) (v : ℤ) (target : ℕ)
      → r < 8
      → Fits 6 v
      → Here b console start on dst a g
      → start.mem a ≡ encoded b (Line.ldr dst r v r v)
      → IsCell b a
      → plus b (g r) v ≡ target
      → IsCell b target
      → Goes (λ g'. Here b console start on dst (a + 1) g' × (g' dst ≡ start.mem target)) g
  unfolding encoded
  ldr_step g a r v target small f h e c there cell =
      let moved = with_reg b console start on dst (update g reg_pc (a + 1)) in
      let kept : plus b (update g reg_pc (a + 1) r) v ≡ target =
        ap (λ (x : ℕ). plus b x v) (update_ne g reg_pc r (a + 1) (λ q. omega arith)) ∙ there in
      Reaches-result b console start on dst g a (encoded b (Line.ldr dst r v r v))
        (start.mem target) dst_fits h e c
        (perform-make_ldr b console moved dst r dst_fits small v f (rw kept cell) ∙ rw kept refl)
        λ g' h' value. Reaches-here b console start on dst g' (h', value)
