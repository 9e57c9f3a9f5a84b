-- ===== src/Lc3pp/Address/Constant.antt =====
-- The constant that a branch jumps over, run.
use lc3_script_tools.Base.{
  ℕ, ◌+◌, ◌<◌, ◌≡◌, ◌≢◌, refl, ◌∙◌, ap, arith, bit_and, true, List, ◌++◌, ltb, inl, inr, update,
  update_ne,
}
use lc3_script_tools.Base.Int.{ℤ, pos, negsuc, of_signed}
use lc3_script_tools.Vm.Types.{Build, lc3_16bit, lc3_32bit, register_bits, word, reg_pc, reg_psr}
use lc3_script_tools.Vm.State.{Console, Vm}
use lc3_script_tools.Vm.Triple.{IsCell}
use lc3_script_tools.Lc3pp.Address.{Line, constant_lines}
use lc3_script_tools.Lc3pp.Address.Machine.{
  IsOn, with_reg, Here, Reaches-round, Reaches-result, fetched,
}
use lc3_script_tools.Lc3pp.Address.Encoded.{encoded, Placed, perform-make_add_r, perform-make_ld}
use lc3_script_tools.Lc3pp.Address.Sum.{plus}
use lc3_script_tools.Lc3pp.Address.Steps.{Goes}
use lc3_script_tools.Isa.Branch.{perform-make_br}
use lc3_script_tools.Vm.Triple.{IsFlag}
use lc3_script_tools.Vm.Perform.{vm_perform}
use lc3_script_tools.Vm.Types.{success}
use lc3_script_tools.Vm.Run.{returned}
use lc3_script_tools.Instr.Maker.{make_ri}

any_flag : (f : ℕ) → IsFlag f → ltb 0 (bit_and (bit_and f 7) 7) ≡ true
any_flag f (inl e) = rw e refl
any_flag f (inr (inl e)) = rw e refl
any_flag f (inr (inr e)) = rw e refl

after_next :
    (b : Build) (a : ℕ)
    → IsCell b (a + 1 + 1)
    → word b (a + 1 + of_signed (register_bits b) (pos 1)) ≡ a + 1 + 1
after_next lc3_16bit a c = omega (arith, c.in_memory)
after_next lc3_32bit a c = omega (arith, c.in_memory)

one_back : (b : Build) (a : ℕ) → IsCell b (a + 1 + 1) → plus b (a + 1 + 1 + 1) (negsuc 1) ≡ a + 1
one_back lc3_16bit a c = omega (arith, c.in_memory)
one_back lc3_32bit a c = omega (arith, c.in_memory)

module _ (b : Build) (console : Console) (start : Vm) (on : IsOn b start) (dst : ℕ)
    (dst_fits : dst < 8) where
  jump :
      {P : (ℕ → ℕ) → Type 0} (g : ℕ → ℕ) (a : ℕ)
      → IsFlag (g reg_psr)
      → Here b console start on dst a g
      → start.mem a ≡ encoded b Line.br_over
      → IsCell b a
      → IsCell b (a + 1 + 1)
      → ((g' : ℕ → ℕ)
          → Here b console start on dst (a + 1 + 1) g'
          → Goes b console start on dst dst_fits P g')
      → Goes b console start on dst dst_fits P g
  unfolding encoded make_ri
  jump g a flag h e c next more =
      let moved = with_reg b console start on dst (update g reg_pc (a + 1)) in
      let g' = update (update g reg_pc (a + 1)) reg_pc (a + 1 + 1) in
      let p : vm_perform b console (encoded b Line.br_over) moved
          ≡ (success, with_reg b console start on dst g') =
        perform-make_br b console moved 7 (omega arith) (pos 1) (omega arith)
        ∙ rw (any_flag (g reg_psr) flag, after_next b a next) refl in
      Reaches-round b console start on dst g g'
        (fetched b console start on dst g a (encoded b Line.br_over) h.pc e c ∙ ap returned p)
        (more g' (record {
          pc = ground arith;
          others = λ r lt ne. let q = h.others r lt ne in ground arith;
        }))

  -- The four lines, in front of any others: `dst` gets the sum.
  pub constant :
      {P : (ℕ → ℕ) → Type 0} (rest : List Line) (base : ℕ) (offset : ℤ) (g : ℕ → ℕ) (a : ℕ)
      → base < 8
      → base ≢ dst
      → IsFlag (g reg_psr)
      → Here b console start on dst a g
      → Placed b start.mem (constant_lines dst base offset ++ rest) a
      → ((g' : ℕ → ℕ)
          → Here b console start on dst (a + 1 + 1 + 1 + 1) g'
          → g' dst ≡ plus b (start.reg base) offset
          → Placed b start.mem rest (a + 1 + 1 + 1 + 1)
          → Goes b console start on dst dst_fits P g')
      → Goes b console start on dst dst_fits P g
  unfolding encoded
  constant {P} rest base offset g a small apart flag h placed more =
      let (e0, c0, (e1, c1, (e2, c2, (e3, c3, rest_placed)))) = placed in
      jump {P = P} g a flag h e0 c0 c2 λ g1 h1.
        let moved1 = with_reg b console start on dst (update g1 reg_pc (a + 1 + 1 + 1)) in
        let cell : plus b (update g1 reg_pc (a + 1 + 1 + 1) reg_pc) (negsuc 1) ≡ a + 1 =
          one_back b a c2 in
        Reaches-result b console start on dst {P = P} g1 (a + 1 + 1) (encoded b (Line.ld_back dst))
          (of_signed (register_bits b) offset) dst_fits h1 e2 c2
          (perform-make_ld b console moved1 dst dst dst_fits dst_fits (negsuc 1) (omega arith)
              (rw cell c1)
            ∙ rw (cell, e1) refl)
          λ g2 h2 value.
            let moved2 = with_reg b console start on dst (update g2 reg_pc (a + 1 + 1 + 1 + 1)) in
            let own : update g2 reg_pc (a + 1 + 1 + 1 + 1) dst
                ≡ of_signed (register_bits b) offset =
              update_ne g2 reg_pc dst (a + 1 + 1 + 1 + 1) (λ q. omega arith) ∙ value in
            let other : update g2 reg_pc (a + 1 + 1 + 1 + 1) base ≡ start.reg base =
              update_ne g2 reg_pc base (a + 1 + 1 + 1 + 1) (λ q. omega arith)
              ∙ h2.others base small apart in
            Reaches-result b console start on dst {P = P} g2 (a + 1 + 1 + 1)
              (encoded b (Line.add_reg dst base dst)) (plus b (start.reg base) offset) dst_fits h2
              e3 c3
              (perform-make_add_r b console moved2 dst base dst_fits small dst dst_fits
                ∙ rw (own, other) refl)
              λ g3 h3 sum. more g3 h3 sum rest_placed
