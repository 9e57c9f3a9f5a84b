-- ===== src/Instr/Maker.antt =====
-- Instruction words from fields: the macros of lc3sim_cpp/instr_maker.h, in uint64_t. An `int_val` is
-- a C integer, cast to uint64_t. The checks are assertions: they are functions of their own.
use lc3_script_tools.Base.{ℕ, suc, ◌-◌, ◌^◌, bit_and, bit_or, Bool, ◌==◌}
use lc3_script_tools.Base.Fields.{shl}
use lc3_script_tools.Base.Int.{ℤ, pos, negsuc, of_signed}
use lc3_script_tools.Instr.Layout.{
  Layout, oper_code_move_bit, reg_num1_move_bit, reg_num2_move_bit, param_after_num2_move_bit,
}

abbrev pub opcode_br : ℕ
opcode_br = 0

abbrev pub opcode_add : ℕ
opcode_add = 1

abbrev pub opcode_ld : ℕ
opcode_ld = 2

abbrev opcode_st : ℕ
opcode_st = 3

abbrev pub opcode_jsr : ℕ
opcode_jsr = 4

abbrev pub opcode_and : ℕ
opcode_and = 5

abbrev pub opcode_ldr : ℕ
opcode_ldr = 6

abbrev pub opcode_str : ℕ
opcode_str = 7

abbrev opcode_rti : ℕ
opcode_rti = 8

abbrev opcode_not : ℕ
opcode_not = 9

abbrev opcode_ldi : ℕ
opcode_ldi = 10

abbrev opcode_sti : ℕ
opcode_sti = 11

abbrev opcode_jmp : ℕ
opcode_jmp = 12

abbrev opcode_res : ℕ
opcode_res = 13

abbrev pub opcode_lea : ℕ
opcode_lea = 14

abbrev opcode_trap : ℕ
opcode_trap = 15

-- TO_OPER_TYPE of a signed value.
abbrev pub to_oper_type : ℤ → ℕ
to_oper_type v = of_signed 64 v

-- `~mask`, in uint64_t.
abbrev pub outside_mask : ℕ → ℕ
outside_mask mask = 2 ^ 64 - 1 - mask

abbrev pub magnitude : ℤ → ℕ
magnitude (pos n) = n
magnitude (negsuc n) = suc n

-- LC3_CHECK_INT_WITH_MASK: the magnitude has no digit outside the mask.
unfoldable pub check_int_with_mask : ℤ → ℕ → Bool
check_int_with_mask v mask = bit_and (magnitude v) (outside_mask mask) == 0

module _ (l : Layout) where
  unfoldable pub make_rrr : ℕ → ℕ → ℕ → ℕ → ℕ
  make_rrr opcode num1 num2 num3 =
      bit_or
        (bit_or (bit_or (shl opcode (oper_code_move_bit l)) (shl num1 (reg_num1_move_bit l)))
          (shl num2 (reg_num2_move_bit l)))
        num3

  unfoldable pub make_rri : ℕ → ℕ → ℕ → ℤ → ℕ
  make_rri opcode num1 num2 v =
      bit_or
        (bit_or (bit_or (shl opcode (oper_code_move_bit l)) (shl num1 (reg_num1_move_bit l)))
          (shl num2 (reg_num2_move_bit l)))
        (bit_and (to_oper_type v) (2 ^ reg_num2_move_bit l - 1))

  unfoldable pub make_rri_with_flag : ℕ → ℕ → ℕ → ℤ → ℕ
  make_rri_with_flag opcode num1 num2 v =
      bit_or
        (bit_or
          (bit_or (bit_or (shl opcode (oper_code_move_bit l)) (shl num1 (reg_num1_move_bit l)))
            (shl num2 (reg_num2_move_bit l)))
          (shl 1 (reg_num2_move_bit l - 1)))
        (bit_and (to_oper_type v) (2 ^ (reg_num2_move_bit l - 1) - 1))

  unfoldable pub make_rr : ℕ → ℕ → ℕ → ℕ
  make_rr opcode num1 num2 =
      bit_or (bit_or (shl opcode (oper_code_move_bit l)) (shl num1 (reg_num1_move_bit l)))
        (shl num2 (reg_num2_move_bit l))

  unfoldable pub make_ri : ℕ → ℕ → ℤ → ℕ
  make_ri opcode num1 v =
      bit_or (bit_or (shl opcode (oper_code_move_bit l)) (shl num1 (reg_num1_move_bit l)))
        (bit_and (to_oper_type v) (2 ^ reg_num1_move_bit l - 1))

  unfoldable pub make_ri_with_flag : ℕ → ℕ → ℤ → ℕ
  make_ri_with_flag opcode num1 v =
      bit_or
        (bit_or (bit_or (shl opcode (oper_code_move_bit l)) (shl num1 (reg_num1_move_bit l)))
          (shl 1 (reg_num1_move_bit l - 1)))
        (bit_and (to_oper_type v) (2 ^ (reg_num1_move_bit l - 1) - 1))

  unfoldable pub make_r2 : ℕ → ℕ → ℕ
  make_r2 opcode num2 = bit_or (shl opcode (oper_code_move_bit l)) (shl num2 (reg_num2_move_bit l))

  unfoldable pub make_i_with_flag : ℕ → ℤ → ℕ
  make_i_with_flag opcode v =
      bit_or (bit_or (shl opcode (oper_code_move_bit l)) (shl 1 (oper_code_move_bit l - 1)))
        (bit_and (to_oper_type v) (2 ^ oper_code_move_bit l - 1))

  unfoldable pub make_t : ℕ → ℤ → ℕ
  make_t opcode v =
      bit_or (shl opcode (oper_code_move_bit l))
        (bit_and (to_oper_type v) (2 ^ oper_code_move_bit l - 1))

  unfoldable pub make_rrpi : ℕ → ℕ → ℕ → ℕ → ℤ → ℕ
  make_rrpi opcode num1 num2 par v =
      bit_or
        (bit_or
          (bit_or (bit_or (shl opcode (oper_code_move_bit l)) (shl num1 (reg_num1_move_bit l)))
            (shl num2 (reg_num2_move_bit l)))
          (shl par (param_after_num2_move_bit l)))
        (bit_and (to_oper_type v) (2 ^ param_after_num2_move_bit l - 1))

  abbrev pub make_br : ℕ → ℤ → ℕ
  make_br flag_pzn v = make_ri opcode_br flag_pzn v

  abbrev make_nop : ℕ
  make_nop = make_br 0 (pos 0)

  abbrev pub make_add_i : ℕ → ℕ → ℤ → ℕ
  make_add_i num1 num2 v = make_rri_with_flag opcode_add num1 num2 v

  abbrev pub make_add_r : ℕ → ℕ → ℕ → ℕ
  make_add_r num1 num2 num3 = make_rrr opcode_add num1 num2 num3

  abbrev pub make_ld : ℕ → ℤ → ℕ
  make_ld num1 v = make_ri opcode_ld num1 v

  abbrev make_st : ℕ → ℤ → ℕ
  make_st num1 v = make_ri opcode_st num1 v

  abbrev make_jsr_i : ℤ → ℕ
  make_jsr_i v = make_i_with_flag opcode_jsr v

  abbrev make_jsr_r : ℕ → ℕ
  make_jsr_r num2 = make_r2 opcode_jsr num2

  abbrev pub make_and_i : ℕ → ℕ → ℤ → ℕ
  make_and_i num1 num2 v = make_rri_with_flag opcode_and num1 num2 v

  abbrev make_and_r : ℕ → ℕ → ℕ → ℕ
  make_and_r num1 num2 num3 = make_rrr opcode_and num1 num2 num3

  abbrev pub make_ldr : ℕ → ℕ → ℤ → ℕ
  make_ldr num1 num2 v = make_rri opcode_ldr num1 num2 v

  abbrev pub make_str : ℕ → ℕ → ℤ → ℕ
  make_str num1 num2 v = make_rri opcode_str num1 num2 v

  abbrev make_not : ℕ → ℕ → ℕ
  make_not num1 num2 = make_rr opcode_not num1 num2

  abbrev make_ldi : ℕ → ℤ → ℕ
  make_ldi num1 v = make_ri opcode_ldi num1 v

  abbrev make_sti : ℕ → ℤ → ℕ
  make_sti num1 v = make_ri opcode_sti num1 v

  abbrev pub make_jmp : ℕ → ℕ
  make_jmp num2 = make_r2 opcode_jmp num2

  abbrev pub make_lea : ℕ → ℤ → ℕ
  make_lea num1 v = make_ri opcode_lea num1 v

  abbrev make_trap : ℤ → ℕ
  make_trap trap_val = make_t opcode_trap trap_val

  abbrev make_rti : ℕ → ℕ → ℤ → ℕ
  make_rti num1 num2 v = make_rri opcode_rti num1 num2 v

  abbrev make_res : ℕ → ℕ → ℕ → ℤ → ℕ
  make_res num1 num2 par v = make_rrpi opcode_res num1 num2 par v
