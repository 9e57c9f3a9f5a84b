-- ===== src/Instr/Parser.antt =====
-- The fields of an instruction word: the macros of lc3sim_cpp/instr_parser.h, in uint64_t.
use lc3_script_tools.Base.{ℕ, ◌+◌, ◌-◌, ◌/◌, ◌%◌, ◌^◌, bit_and, bit_xor}
use lc3_script_tools.Instr.Layout.{
  Layout, oper_code_move_bit, reg_num1_move_bit, reg_num2_move_bit, param_after_num2_move_bit,
}

-- INT_VALUE: the low `bit_count` bits as a signed number, in 64 bits.
unfoldable pub int_value : ℕ → ℕ → ℕ
int_value instr bit_count =
    (bit_xor (bit_and instr (2 ^ bit_count - 1)) (2 ^ (bit_count - 1))
      + 2 ^ 64
      - 2 ^ (bit_count - 1))
    % 2 ^ 64

module _ (l : Layout) where
  unfoldable pub oper_code : ℕ → ℕ
  oper_code instr = bit_and (instr / 2 ^ oper_code_move_bit l) (2 ^ l.op_bc - 1)

  unfoldable pub reg_num1 : ℕ → ℕ
  reg_num1 instr = bit_and (instr / 2 ^ reg_num1_move_bit l) (2 ^ l.rn_bc - 1)

  unfoldable pub reg_num2 : ℕ → ℕ
  reg_num2 instr = bit_and (instr / 2 ^ reg_num2_move_bit l) (2 ^ l.rn_bc - 1)

  unfoldable reg_num3 : ℕ → ℕ
  reg_num3 instr = bit_and (instr / 2 ^ 0) (2 ^ l.rn_bc - 1)

  unfoldable pub int_after_oper : ℕ → ℕ
  int_after_oper instr = int_value instr (oper_code_move_bit l)

  unfoldable int_after_oper_flag : ℕ → ℕ
  int_after_oper_flag instr = bit_and instr (2 ^ (oper_code_move_bit l - 1))

  unfoldable int_after_oper_with_flag : ℕ → ℕ
  int_after_oper_with_flag instr = int_value instr (oper_code_move_bit l - 1)

  unfoldable pub int_after_num1 : ℕ → ℕ
  int_after_num1 instr = int_value instr (reg_num1_move_bit l)

  unfoldable int_after_num1_flag : ℕ → ℕ
  int_after_num1_flag instr = bit_and instr (2 ^ (reg_num1_move_bit l - 1))

  unfoldable int_after_num1_with_flag : ℕ → ℕ
  int_after_num1_with_flag instr = int_value instr (reg_num1_move_bit l - 1)

  unfoldable pub int_after_num2 : ℕ → ℕ
  int_after_num2 instr = int_value instr (reg_num2_move_bit l)

  unfoldable pub int_after_num2_flag : ℕ → ℕ
  int_after_num2_flag instr = bit_and instr (2 ^ (reg_num2_move_bit l - 1))

  unfoldable pub int_after_num2_with_flag : ℕ → ℕ
  int_after_num2_with_flag instr = int_value instr (reg_num2_move_bit l - 1)

  unfoldable pub trap : ℕ → ℕ
  trap instr = int_after_oper instr

  unfoldable param_after_num2 : ℕ → ℕ
  param_after_num2 instr = bit_and (instr / 2 ^ param_after_num2_move_bit l) (2 ^ l.par_bc - 1)

  unfoldable uint_after_param : ℕ → ℕ
  uint_after_param instr = bit_and instr (2 ^ param_after_num2_move_bit l - 1)
