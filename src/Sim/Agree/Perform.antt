-- ===== src/Sim/Agree/Perform.antt =====
-- The instructions that compute and those that jump: lc3tools/lc3.def beside lc3sim-c/vm.c.
use lc3_script_tools.Base.{
  ℕ, ◌+◌, ◌-◌, ◌*◌, ◌/◌, ◌%◌, ◌^◌, ◌<◌, ◌≡◌, ◌≢◌, ap, ◌∙◌, refl, arith, bit_and, bit_xor, ◌==◌, ltb,
  update, Bool-cases, ne→==, true, false, inl, inr,
}
use lc3_script_tools.Base.Bits.{and_shifted, and-le}
use lc3_script_tools.Base.Bounds.{and_word, xor_ones}
use lc3_script_tools.Vm.Types.{lc3_16bit, reg_psr}
use lc3_script_tools.Vm.State.{Vm}
use lc3_script_tools.Vm.Perform.{
  sextend, operand, perform_add, perform_and, perform_not, perform_lea, perform_jmp, perform_jsr,
  perform_br, take_branch, stop_at_zero, field_dr, result_of,
}
use lc3_script_tools.Vm.Triple.{IsFlag}
use lc3_script_tools.Sim.Inst.{f_sr1, f_sr2, f_imm5, f_imm9, f_imm11, f_cc, r_psr}
use lc3_script_tools.Sim.Table.{add_r, add_i, and_r, and_i, br, jmp, jsr, jsrr, lea, not}
use lc3_script_tools.Sim.State.{World, Sim}
use lc3_script_tools.Sim.Code.{run_code}
use lc3_script_tools.Sim.Agree.Immediate.{imm5-sextend, imm9-sextend, imm11-sextend}
use lc3_script_tools.Sim.Agree.Result.{Same, Agree, field-lt, Same-write, results-Agree}

-- Sums of equal words and equal offsets.
sum_agrees : (x x' y y' : ℕ) → x ≡ x' → y % 2 ^ 16 ≡ y' → (x + y) % 65536 ≡ (x' + y') % 2 ^ 16
sum_agrees x x' y y' e d = omega arith

flag_below : (f : ℕ) → IsFlag f → bit_and f 7 ≡ f
flag_below f (inl e) = rw e refl
flag_below f (inr (inl e)) = rw e refl
flag_below f (inr (inr e)) = rw e refl

module _ (world : World) (w : ℕ) (s : Sim) (vm : Vm) (word : w < 2 ^ 16) (h : Same s vm) where
  same : (n : ℕ) → s.reg (bit_and n 7) ≡ vm.reg (bit_and n 7)
  same n = h.general (bit_and n 7) (omega (arith, field-lt n))

  below : (n : ℕ) → vm.reg (bit_and n 7) < 2 ^ 16
  below n = h.words (bit_and n 7) (omega (arith, field-lt n))

  pub add_register_agrees :
      bit_and w (2 ^ 5) ≡ 0
      → Agree (run_code world add_r w s) (result_of (perform_add lc3_16bit w vm))
  unfolding run_code perform_add operand
  add_register_agrees low = rw low (
      results-Agree w ((s.reg (f_sr1 w) + s.reg (f_sr2 w)) % 65536)
        ((vm.reg (f_sr1 w) + vm.reg (f_sr2 w)) % 2 ^ 16) s vm h
        (omega (arith, same (w / 2 ^ 6), same w)) (omega arith))

  pub add_immediate_agrees :
      bit_and w (2 ^ 5) ≡ 2 ^ 5
      → Agree (run_code world add_i w s) (result_of (perform_add lc3_16bit w vm))
  unfolding run_code perform_add operand
  add_immediate_agrees low = rw low (
      results-Agree w ((s.reg (f_sr1 w) + f_imm5 w) % 65536)
        ((vm.reg (f_sr1 w) + sextend lc3_16bit w 5) % 2 ^ 16) s vm h
        (omega (arith, same (w / 2 ^ 6), imm5-sextend w word)) (omega arith))

  pub and_register_agrees :
      bit_and w (2 ^ 5) ≡ 0
      → Agree (run_code world and_r w s) (result_of (perform_and lc3_16bit w vm))
  unfolding run_code perform_and operand
  and_register_agrees low =
      let x = vm.reg (f_sr1 w) in
      let y = vm.reg (f_sr2 w) in
      rw low (
        results-Agree w (bit_and (s.reg (f_sr1 w)) (s.reg (f_sr2 w))) (bit_and x y) s vm h
          (rw (same (w / 2 ^ 6), same w) refl) (omega (arith, and-le x y, below (w / 2 ^ 6))))

  pub and_immediate_agrees :
      bit_and w (2 ^ 5) ≡ 2 ^ 5
      → Agree (run_code world and_i w s) (result_of (perform_and lc3_16bit w vm))
  unfolding run_code perform_and operand
  and_immediate_agrees low =
      let x = vm.reg (f_sr1 w) in
      let y = sextend lc3_16bit w 5 in
      rw low (
        results-Agree w (bit_and (s.reg (f_sr1 w)) (f_imm5 w)) (bit_and x y) s vm h
          (ap (λ (t : ℕ). bit_and t (f_imm5 w)) (same (w / 2 ^ 6))
            ∙ and_word 16 x (f_imm5 w) (below (w / 2 ^ 6))
            ∙ ap (bit_and x) (imm5-sextend w word))
          (omega (arith, and-le x y, below (w / 2 ^ 6))))

  pub not_agrees : Agree (run_code world not w s) (result_of (perform_not lc3_16bit w vm))
  unfolding run_code perform_not
  not_agrees =
      let x = vm.reg (f_sr1 w) in
      results-Agree w (bit_xor (s.reg (f_sr1 w)) 0xffff) (2 ^ 16 - 1 - x) s vm h
        (ap (λ (t : ℕ). bit_xor t 0xffff) (same (w / 2 ^ 6)) ∙ xor_ones 16 x (below (w / 2 ^ 6)))
        (omega arith)

  pub lea_agrees : Agree (run_code world lea w s) (result_of (perform_lea lc3_16bit w vm))
  unfolding run_code perform_lea
  lea_agrees =
      results-Agree w ((s.reg 8 + f_imm9 w) % 65536) ((vm.reg 8 + sextend lc3_16bit w 9) % 2 ^ 16) s
        vm h (omega (arith, h.general 8 (omega arith), imm9-sextend w word)) (omega arith)

  -- A call leaves the PC in R7.
  linked :
      (v v' : ℕ)
      → v ≡ v'
      → v' < 2 ^ 16
      → Same
          (record s { reg = update (update s.reg 7 (s.reg 8)) 8 v })
          (record vm { reg = update (update vm.reg 7 (vm.reg 8)) 8 v' })
  linked v v' e small =
      Same-write 8 v v' (record s { reg = update s.reg 7 (s.reg 8) })
        (record vm { reg = update vm.reg 7 (vm.reg 8) })
        (Same-write 7 (s.reg 8) (vm.reg 8) s vm h (omega arith) (h.general 8 (omega arith))
          (h.words 8 (omega arith)))
        (omega arith) e small

  pub jmp_agrees : Agree (run_code world jmp w s) (result_of (perform_jmp lc3_16bit w vm))
  unfolding run_code perform_jmp
  jmp_agrees =
      let jumped =
        Same-write 8 (s.reg (f_sr1 w)) (vm.reg (f_sr1 w)) s vm h (omega arith) (same (w / 2 ^ 6))
          (below (w / 2 ^ 6)) in
      elim (Bool-cases (f_sr1 w == 7)) [
        | inl e ↦ rw e (
          refl,
          (
            refl,
            record {
              general = jumped.general;
              words = jumped.words;
              status = jumped.status;
              flag = jumped.flag;
              memory = jumped.memory;
            },
          ),
        )
        | inr e ↦ rw e (refl, (refl, jumped))
      ]

  pub jsr_agrees :
      bit_and w (2 ^ 11) ≡ 2 ^ 11
      → Agree (run_code world jsr w s) (result_of (perform_jsr lc3_16bit w vm))
  unfolding run_code perform_jsr
  jsr_agrees low = rw low (
    refl,
    (
      refl,
      linked ((s.reg 8 + f_imm11 w) % 65536) ((vm.reg 8 + sextend lc3_16bit w 11) % 2 ^ 16)
          (omega (arith, h.general 8 (omega arith), imm11-sextend w word)) (omega arith),
    ),
  )

  pub jsrr_agrees :
      bit_and w (2 ^ 11) ≡ 0
      → Agree (run_code world jsrr w s) (result_of (perform_jsr lc3_16bit w vm))
  unfolding run_code perform_jsr
  jsrr_agrees low = rw low (
    refl,
    (refl, linked (s.reg (f_sr1 w)) (vm.reg (f_sr1 w)) (same (w / 2 ^ 6)) (below (w / 2 ^ 6))),
  )

  -- The flags of the word beside those of the status register.
  flags_tested :
      bit_and (s.reg r_psr) (f_cc w) ≡ bit_and (bit_and (vm.reg reg_psr) 7) (field_dr w) * 2 ^ 9
  flags_tested =
      let f = vm.reg reg_psr in
      let m = field_dr w in
      let low : bit_and f 7 ≡ f = flag_below f h.flag in
      ap (λ (x : ℕ). bit_and x (f_cc w)) h.status
      ∙ ap (bit_and (f * 2 ^ 9)) (and_shifted 9 w 7)
      ∙ and_shifted 9 (f * 2 ^ 9) m
      ∙ ap (λ (x : ℕ). bit_and x m * 2 ^ 9) (omega (arith, low))

  -- The word 0 is left out: it ends a run of lc3sim-c.
  pub br_agrees : w ≢ 0 → Agree (run_code world br w s) (result_of (perform_br lc3_16bit w vm))
  unfolding run_code perform_br take_branch stop_at_zero
  br_agrees ne =
      let z = bit_and (bit_and (vm.reg reg_psr) 7) (field_dr w) in
      let word_ne : (w == 0) ≡ false = ne→== w 0 ne in
      elim (Bool-cases (ltb 0 z)) [
        | inl e ↦
            let t : (bit_and (s.reg r_psr) (f_cc w) == 0) ≡ false =
              rw flags_tested (ground arith) in
            rw (t, e, word_ne)
              (
                refl,
                (
                  refl,
                  Same-write 8 ((s.reg 8 + f_imm9 w) % 65536)
                      ((vm.reg 8 + sextend lc3_16bit w 9) % 2 ^ 16) s vm h (omega arith)
                      (omega (arith, h.general 8 (omega arith), imm9-sextend w word)) (omega arith),
                ),
              )
        | inr e ↦
            let t : (bit_and (s.reg r_psr) (f_cc w) == 0) ≡ true = rw flags_tested (ground arith) in
            rw (t, e, word_ne) (refl, (refl, h))
      ]
