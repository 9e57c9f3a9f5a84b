-- ===== src/Instr/OneRegister.antt =====
-- LC3_MAKE_INSTR_RI of lc3sim_cpp/instr_maker.h, taken apart by lc3sim_cpp/instr_parser.h.
use lc3_script_tools.Base.{ℕ, ◌+◌, ◌*◌, ◌/◌, ◌^◌, ◌<◌, ◌≡◌, ap, ◌∙◌, arith}
use lc3_script_tools.Base.Bits.{and_mask, or_fields}
use lc3_script_tools.Base.Int.{ℤ, to_signed, Fits}
use lc3_script_tools.Base.Fields.{or_op_reg, div_field, mod_field, shr_add}
use lc3_script_tools.Instr.Layout.{
  Layout, IsLayout, oper_code_move_bit, reg_num1_move_bit, reg_num2_move_bit,
}
use lc3_script_tools.Instr.Parser.{oper_code, reg_num1, int_after_num1}
use lc3_script_tools.Instr.Maker.{make_ri}
use lc3_script_tools.Instr.RoundTrip.{low_bits, low_bits-lt, read_int}
use native.Mathlib.Nat.{mod-eq_of_lt}

shr_at : (m n k x : ℕ) → m ≡ n + k → x / 2 ^ m ≡ x / 2 ^ k / 2 ^ n
shr_at m n k x e = rw e (shr_add n k x)

module _ {l : Layout} (ok : IsLayout l) (op r1 : ℕ) (op_fits : op < 2 ^ l.op_bc)
    (r1_fits : r1 < 2 ^ l.rn_bc) (v : ℤ) where
  abbrev pub at : ℕ
  at = reg_num1_move_bit l

  abbrev pub over : ℕ
  over = op * 2 ^ l.rn_bc + r1

  abbrev ri_word : ℕ
  ri_word = over * 2 ^ at + low_bits at v

  at_oper : oper_code_move_bit l ≡ l.rn_bc + at
  at_oper = omega arith

  pub ri-word : make_ri l op r1 v ≡ ri_word
  unfolding make_ri
  ri-word =
      rw
        (or_op_reg l.op_bc l.rn_bc (reg_num2_move_bit l) at (oper_code_move_bit l) (omega arith)
          at_oper (omega arith) op r1 op_fits r1_fits)
        (or_fields at over (low_bits at v) (low_bits-lt at v))

  above : ri_word / 2 ^ at ≡ over
  above = div_field at over (low_bits at v) (low_bits-lt at v)

  above_num1 : ri_word / 2 ^ oper_code_move_bit l ≡ op
  above_num1 =
      shr_at (oper_code_move_bit l) l.rn_bc at ri_word at_oper
      ∙ ap (λ (x : ℕ). x / 2 ^ l.rn_bc) above
      ∙ div_field l.rn_bc op r1 r1_fits

  -- What LC3_MAKE_INSTR_RI puts together is read back, when the code and the register number fit
  -- their fields and the value fits the field after them as a two's complement number.
  pub ri_round_trip :
      Fits at v
      → (oper_code l (make_ri l op r1 v) ≡ op)
        × (reg_num1 l (make_ri l op r1 v) ≡ r1)
        × (to_signed 64 (int_after_num1 l (make_ri l op r1 v)) ≡ v)
  unfolding oper_code reg_num1 int_after_num1
  ri_round_trip f = rw ri-word (
    and_mask l.op_bc (ri_word / 2 ^ oper_code_move_bit l) ∙ rw above_num1 (mod-eq_of_lt op_fits),
    and_mask l.rn_bc (ri_word / 2 ^ at) ∙ rw above (mod_field l.rn_bc op r1 r1_fits),
    read_int at over v (omega arith) (omega arith) f,
  )
