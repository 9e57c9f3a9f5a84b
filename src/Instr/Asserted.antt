-- ===== src/Instr/Asserted.antt =====
-- The assertions of the macros of lc3sim_cpp/instr_maker.h: a word is made only if they hold. An
-- operation code and a register number are cast to uint64_t.
pub mod RoundTrip
use mathlib.Core.Bool.{false≢true}
use native.Mathlib.Nat.{mod-eq_of_lt, div-lt_iff_lt-mul, suc-mul}
use lc3_script_tools.Base.{
  ℕ, zero, suc, ◌+◌, ◌-◌, ◌*◌, ◌/◌, ◌%◌, ◌^◌, ◌≤◌, ◌<◌, ◌≡◌, refl, sym, ◌∙◌, ap, arith, bit_and,
  Bool, true, false, ◌&&◌, Option, none, some, ◌==◌, if◌then◌else◌, ==→eq,
}
use lc3_script_tools.Base.Bits.{and_shifted, and_mask, two_pow_pos}
use lc3_script_tools.Base.Powers.{two_pow_add}
use lc3_script_tools.Base.Int.{ℤ, pos, negsuc, to_signed, Fits}
use lc3_script_tools.Symbol.Names.{and-true}
use lc3_script_tools.Instr.Layout.{
  Layout, IsLayout, oper_code_move_bit, reg_num1_move_bit, reg_num2_move_bit,
  param_after_num2_move_bit,
}
use lc3_script_tools.Instr.Parser.{int_after_num2}
use lc3_script_tools.Instr.Maker.{
  outside_mask, magnitude, to_oper_type, check_int_with_mask, make_rrr, make_rri,
  make_rri_with_flag, make_rr, make_ri, make_ri_with_flag, make_r2, make_i_with_flag, make_t,
  make_rrpi,
}
use lc3_script_tools.Instr.Checks.{outside-eq}
use lc3_script_tools.Instr.RoundTrip.{Reads, rri_round_trip}

-- No digit of an unsigned number is outside the lowest ones.
unfoldable pub check_digits : ℕ → ℕ → Bool
check_digits n digits = bit_and n (outside_mask (2 ^ digits - 1)) == 0

-- The value of the comma expression.
abbrev pub asserted : Bool → ℕ → Option ℕ
asserted true word = some word
asserted false word = none

module _ (l : Layout) where
  abbrev pub check_opcode : ℕ → Bool
  check_opcode opcode = check_digits opcode l.op_bc

  abbrev pub check_regnum : ℕ → Bool
  check_regnum num = check_digits num l.rn_bc

  abbrev pub check_int_after_oper_with_flag : ℤ → Bool
  check_int_after_oper_with_flag v = check_int_with_mask v (2 ^ (oper_code_move_bit l - 1) - 1)

  abbrev pub check_int_after_num1 : ℤ → Bool
  check_int_after_num1 v = check_int_with_mask v (2 ^ reg_num1_move_bit l - 1)

  abbrev pub check_int_after_num1_with_flag : ℤ → Bool
  check_int_after_num1_with_flag v = check_int_with_mask v (2 ^ (reg_num1_move_bit l - 1) - 1)

  -- With the mask of a value under a flag, as the next one.
  abbrev pub check_int_after_num2 : ℤ → Bool
  check_int_after_num2 v = check_int_with_mask v (2 ^ (reg_num2_move_bit l - 1) - 1)

  abbrev pub check_int_after_num2_with_flag : ℤ → Bool
  check_int_after_num2_with_flag v = check_int_with_mask v (2 ^ (reg_num2_move_bit l - 1) - 1)

  abbrev pub check_int_trap : ℤ → Bool
  check_int_trap v = check_digits (to_oper_type v) (oper_code_move_bit l)

  abbrev pub check_param : ℤ → Bool
  check_param v = check_int_with_mask v (2 ^ l.par_bc - 1)

  abbrev pub check_uint_after_param : ℤ → Bool
  check_uint_after_param v = check_int_with_mask v (2 ^ param_after_num2_move_bit l - 1)

  -- The operation code and two registers.
  abbrev pub check_head : ℕ → ℕ → ℕ → Bool
  check_head opcode num1 num2 = check_opcode opcode && check_regnum num1 && check_regnum num2

  unfoldable asserted_rrr : ℕ → ℕ → ℕ → ℕ → Option ℕ
  unfolding make_rrr check_digits
  asserted_rrr opcode num1 num2 num3 =
      asserted (check_head opcode num1 num2 && check_regnum num3) (make_rrr l opcode num1 num2 num3)

  unfoldable pub asserted_rri : ℕ → ℕ → ℕ → ℤ → Option ℕ
  unfolding make_rri check_digits check_int_with_mask
  asserted_rri opcode num1 num2 v =
      asserted (check_head opcode num1 num2 && check_int_after_num2 v)
        (make_rri l opcode num1 num2 v)

  unfoldable asserted_rrpi : ℕ → ℕ → ℕ → ℕ → ℤ → Option ℕ
  unfolding make_rrpi check_digits check_int_with_mask
  asserted_rrpi opcode num1 num2 par v =
      asserted (check_head opcode num1 num2 && check_param (pos par) && check_uint_after_param v)
        (make_rrpi l opcode num1 num2 par v)

  unfoldable asserted_rri_with_flag : ℕ → ℕ → ℕ → ℤ → Option ℕ
  unfolding make_rri_with_flag check_digits check_int_with_mask
  asserted_rri_with_flag opcode num1 num2 v =
      asserted (check_head opcode num1 num2 && check_int_after_num2_with_flag v)
        (make_rri_with_flag l opcode num1 num2 v)

  unfoldable asserted_rr : ℕ → ℕ → ℕ → Option ℕ
  unfolding make_rr check_digits
  asserted_rr opcode num1 num2 = asserted (check_head opcode num1 num2) (make_rr l opcode num1 num2)

  unfoldable asserted_ri : ℕ → ℕ → ℤ → Option ℕ
  unfolding make_ri check_digits check_int_with_mask
  asserted_ri opcode num1 v =
      asserted (check_opcode opcode && check_regnum num1 && check_int_after_num1 v)
        (make_ri l opcode num1 v)

  unfoldable asserted_ri_with_flag : ℕ → ℕ → ℤ → Option ℕ
  unfolding make_ri_with_flag check_digits check_int_with_mask
  asserted_ri_with_flag opcode num1 v =
      asserted (check_opcode opcode && check_regnum num1 && check_int_after_num1_with_flag v)
        (make_ri_with_flag l opcode num1 v)

  unfoldable asserted_r2 : ℕ → ℕ → Option ℕ
  unfolding make_r2 check_digits
  asserted_r2 opcode num2 =
      asserted (check_opcode opcode && check_regnum num2) (make_r2 l opcode num2)

  unfoldable asserted_i_with_flag : ℕ → ℤ → Option ℕ
  unfolding make_i_with_flag check_digits check_int_with_mask
  asserted_i_with_flag opcode v =
      asserted (check_opcode opcode && check_int_after_oper_with_flag v)
        (make_i_with_flag l opcode v)

  unfoldable asserted_t : ℕ → ℤ → Option ℕ
  unfolding make_t check_digits
  asserted_t opcode v = asserted (check_opcode opcode && check_int_trap v) (make_t l opcode v)
