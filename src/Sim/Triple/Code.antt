-- ===== src/Sim/Triple/Code.antt =====
-- Rules for the code blocks of lc3tools/lc3.def.
use native.Mathlib.Nat.{div-le_self}
use lc3_script_tools.Base.{
  ℕ, ◌+◌, ◌-◌, ◌/◌, ◌%◌, ◌^◌, arith, Bool, true, false, bit_and, bit_or, bit_xor, ltb, ◌==◌, inl,
  inr, Bool-cases, not,
}
use lc3_script_tools.Base.Bits.{and-le, and_mask}
use lc3_script_tools.Base.Bounds.{or-lt, xor-lt}
use lc3_script_tools.Sim.Inst.{
  f_dr, f_sr1, f_sr2, f_cc, f_vec8, f_immu3, f_imm5, f_imm6, f_imm9, f_imm11, flg_return, r_r7,
  r_pc, r_psr,
}
use lc3_script_tools.Sim.Table.{
  Code, add_r, add_i, and_r, and_i, br, jmp, jsr, jsrr, ld, ldi, ldr, lea, not as code_not, rti, st,
  sti, str, trap, sll_r, sra_r, div_r, mod_r, mul_r, sll_i, sra_i,
}
use lc3_script_tools.Sim.State.{World, Sim, Stop, undefined, M, set_reg, get_reg}
use lc3_script_tools.Sim.Memory.{read_memory_traced}
use lc3_script_tools.Sim.Store.{write_memory_traced}
use lc3_script_tools.Sim.Code.{
  cc_flag, set_cc, finish, pc_plus, word_of, differ, negative, magnitude16, quotient, remainder,
  rti_text, product, shift_left, shift_right, check_shift, check_divisor, operands, run_code,
}
use lc3_script_tools.Sim.Triple.{
  IsValid, IsStable, IsFault, Keeps, Any, Word, Keeps-pure, Keeps-fail, Keeps-modify, Keeps->>=,
  Keeps->>, Keeps-if, Keeps-when, Keeps-print, Keeps-set_reg, Keeps-get_reg,
}
use lc3_script_tools.Sim.Triple.Memory.{Keeps-read_traced, Keeps-write_traced}

cc_flag-Word : (v : ℕ) → Word (cc_flag v)
unfolding cc_flag
cc_flag-Word v = ground arith

word_of-Word : (minus : Bool) (n : ℕ) → Word (word_of minus n)
word_of-Word true n = omega arith
word_of-Word false n = omega arith

quotient-Word : (x y : ℕ) → Word (quotient x y)
unfolding quotient
quotient-Word x y = word_of-Word (differ (negative x) (negative y)) (magnitude16 x / magnitude16 y)

remainder-Word : (x y : ℕ) → Word (remainder x y)
unfolding remainder
remainder-Word x y = word_of-Word (negative x) (magnitude16 x % magnitude16 y)

product-Word : (x y : ℕ) → Word (product x y)
unfolding product
product-Word x y = word_of-Word (differ (negative x) (negative y)) _

shift_left-Word : (x n : ℕ) → Word (shift_left x n)
unfolding shift_left
shift_left-Word x n = omega arith

shift_right-Word : (x n : ℕ) → Word (shift_right x n)
unfolding shift_right
shift_right-Word x n = elim (Bool-cases (negative x)) [
  | inl minus ↦ rw minus (word_of-Word true _)
  | inr plus ↦ rw plus (omega (arith, div-le_self (x % 2 ^ 16) (2 ^ n)))
]

vec8-Word : (i : ℕ) → Word (f_vec8 i)
vec8-Word i = omega (arith, and_mask 8 i)

module _ {I : Sim → Type 0} {E : Stop → Type 0} (stable : IsStable I)
    (valid : (s : Sim) → I s → IsValid s) (faults : (r : Stop) → IsFault r → E r)
    (world : World) where
  get : (i : ℕ) → Keeps I E Word (get_reg i)
  get i = Keeps-get_reg valid i

  set : (i v : ℕ) → Word v → Keeps I E Any (set_reg i v)
  set i v w = Keeps-set_reg stable i v w

  Keeps-set_cc : (dr : ℕ) → Keeps I E Any (set_cc dr)
  unfolding set_cc
  Keeps-set_cc dr = Keeps->>= (get r_psr) λ psr w.
      Keeps->>
        (set r_psr (bit_and psr (2 ^ 32 - 1 - 0x0e00))
          (omega (arith, and-le psr (2 ^ 32 - 1 - 0x0e00))))
        (Keeps->>= (get dr) λ v _.
          Keeps->>= (get r_psr)
            λ p w'. set r_psr (bit_or p (cc_flag v)) (or-lt 16 p (cc_flag v) w' (cc_flag-Word v)))

  Keeps-finish : (i v : ℕ) → Word v → Keeps I E Any (finish i v)
  unfolding finish
  Keeps-finish i v w = Keeps->> (set (f_dr i) v w) (Keeps-set_cc (f_dr i))

  Keeps-pc_plus : (offset : ℕ) → Keeps I E Word (pc_plus offset)
  Keeps-pc_plus offset =
      Keeps->>= (get r_pc) λ pc _. Keeps-pure ((pc + offset) % 65536) (omega arith)

  Keeps-operands :
      (i : ℕ) (f : ℕ → ℕ → M (Unit {0}))
      → ((x y : ℕ) → Word x → Word y → Keeps I E Any (f x y))
      → Keeps I E Any (operands i f)
  Keeps-operands i f k =
      Keeps->>= (get (f_sr1 i)) λ x w. Keeps->>= (get (f_sr2 i)) λ y w'. k x y w w'

  Keeps-check_shift : (n : ℕ) → Keeps I E Any (check_shift n)
  Keeps-check_shift n = Keeps-if (ltb n 32) (Keeps-pure tt tt) (Keeps-fail (faults undefined tt))

  Keeps-check_divisor : (y : ℕ) → Keeps I E Any (check_divisor y)
  Keeps-check_divisor y =
      Keeps-if (y % 2 ^ 16 == 0) (Keeps-fail (faults undefined tt)) (Keeps-pure tt tt)

  read : (addr : ℕ) → Word addr → Keeps I E Word (read_memory_traced world addr)
  read addr w = Keeps-read_traced stable.shown valid faults world addr w

  write : (addr v : ℕ) → Word addr → Word v → Keeps I E Any (write_memory_traced world addr v)
  write addr v w w' = Keeps-write_traced stable.shown valid faults world addr v w w'

  pub Keeps-run_code : (c : Code) (i : ℕ) → Keeps I E Any (run_code world c i)
  unfolding run_code
  Keeps-run_code add_r i =
      Keeps-operands i _ λ x y _ _. Keeps-finish i ((x + y) % 65536) (omega arith)
  Keeps-run_code add_i i =
      Keeps->>= (get (f_sr1 i)) λ x _. Keeps-finish i ((x + f_imm5 i) % 65536) (omega arith)
  Keeps-run_code and_r i =
      Keeps-operands i _ λ x y w _. Keeps-finish i (bit_and x y) (omega (arith, and-le x y))
  Keeps-run_code and_i i =
      Keeps->>= (get (f_sr1 i))
        λ x w. Keeps-finish i (bit_and x (f_imm5 i)) (omega (arith, and-le x (f_imm5 i)))
  Keeps-run_code br i = Keeps->>= (get r_psr) λ psr _.
      Keeps-when (not (bit_and psr (f_cc i) == 0))
        (Keeps->>= (Keeps-pc_plus (f_imm9 i)) λ pc w. set r_pc pc w)
  Keeps-run_code jmp i =
      Keeps->>
        (Keeps-when (f_sr1 i == r_r7) (
          Keeps-modify (λ s. record s { last_flags = bit_or s.last_flags flg_return })
            (λ s h. stable.on_flags s _ h)))
        (Keeps->>= (get (f_sr1 i)) λ target w. set r_pc target w)
  Keeps-run_code jsr i =
      Keeps->>= (get r_pc) λ pc w.
        Keeps->> (set r_r7 pc w) (Keeps->>= (Keeps-pc_plus (f_imm11 i)) λ t w'. set r_pc t w')
  Keeps-run_code jsrr i =
      Keeps->>= (get (f_sr1 i))
        λ tmp w. Keeps->>= (get r_pc) λ pc w'. Keeps->> (set r_r7 pc w') (set r_pc tmp w)
  Keeps-run_code ld i =
      Keeps->>= (Keeps-pc_plus (f_imm9 i))
        λ addr w. Keeps->>= (read addr w) λ v w'. Keeps-finish i v w'
  Keeps-run_code ldi i = Keeps->>= (Keeps-pc_plus (f_imm9 i)) λ at w.
      Keeps->>= (read at w) λ addr w'. Keeps->>= (read addr w') λ v w''. Keeps-finish i v w''
  Keeps-run_code ldr i =
      Keeps->>= (get (f_sr1 i)) λ base _.
        Keeps->>= (read ((base + f_imm6 i) % 65536) (omega arith)) λ v w. Keeps-finish i v w
  Keeps-run_code lea i = Keeps->>= (Keeps-pc_plus (f_imm9 i)) λ v w. Keeps-finish i v w
  Keeps-run_code code_not i =
      Keeps->>= (get (f_sr1 i))
        λ x w. Keeps-finish i (bit_xor x 0xffff) (xor-lt 16 x 0xffff w (omega arith))
  Keeps-run_code rti i =
      Keeps->>= (get (f_dr i))
        λ x _. Keeps->>= (get (f_sr1 i)) λ y _. Keeps-print stable.shown (rti_text x y (f_imm9 i))
  Keeps-run_code st i =
      Keeps->>= (Keeps-pc_plus (f_imm9 i))
        λ addr w. Keeps->>= (get (f_dr i)) λ v w'. write addr v w w'
  Keeps-run_code sti i =
      Keeps->>= (Keeps-pc_plus (f_imm9 i)) λ at w.
        Keeps->>= (read at w) λ addr w'. Keeps->>= (get (f_dr i)) λ v w''. write addr v w' w''
  Keeps-run_code str i =
      Keeps->>= (get (f_sr1 i)) λ base _.
        Keeps->>= (get (f_dr i)) λ v w. write ((base + f_imm6 i) % 65536) v (omega arith) w
  Keeps-run_code trap i = Keeps->>= (get r_pc) λ pc w.
      Keeps->> (set r_r7 pc w)
        (Keeps->>= (read (f_vec8 i) (vec8-Word i)) λ target w'. set r_pc target w')
  Keeps-run_code sll_r i = Keeps-operands i _ λ x y _ _.
      Keeps->> (Keeps-check_shift y) (Keeps-finish i (shift_left x y) (shift_left-Word x y))
  Keeps-run_code sra_r i = Keeps-operands i _ λ x y _ _.
      Keeps->> (Keeps-check_shift y) (Keeps-finish i (shift_right x y) (shift_right-Word x y))
  Keeps-run_code div_r i = Keeps-operands i _ λ x y _ _.
      Keeps->> (Keeps-check_divisor y) (Keeps-finish i (quotient x y) (quotient-Word x y))
  Keeps-run_code mod_r i = Keeps-operands i _ λ x y _ _.
      Keeps->> (Keeps-check_divisor y) (Keeps-finish i (remainder x y) (remainder-Word x y))
  Keeps-run_code mul_r i =
      Keeps-operands i _ λ x y _ _. Keeps-finish i (product x y) (product-Word x y)
  Keeps-run_code sll_i i =
      Keeps->>= (get (f_sr1 i))
        λ x _. Keeps-finish i (shift_left x (f_immu3 i)) (shift_left-Word x (f_immu3 i))
  Keeps-run_code sra_i i =
      Keeps->>= (get (f_sr1 i))
        λ x _. Keeps-finish i (shift_right x (f_immu3 i)) (shift_right-Word x (f_immu3 i))
