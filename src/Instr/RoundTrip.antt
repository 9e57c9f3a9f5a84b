-- ===== src/Instr/RoundTrip.antt =====
-- Instructions with two registers: lc3sim_cpp/instr_maker.h against lc3sim_cpp/instr_parser.h.
use lc3_script_tools.Base.{
  ℕ, suc, ◌+◌, ◌-◌, ◌*◌, ◌%◌, ◌^◌, ◌≤◌, ◌<◌, ◌≡◌, sym, ap, ◌∙◌, arith, bit_and, bit_or,
}
use lc3_script_tools.Base.Bits.{two_pow_suc, and_mask, and_digit, or_fields, two_pow_pos}
use lc3_script_tools.Base.Powers.{two_pow_add, or_field_at}
use lc3_script_tools.Base.Int.{ℤ, to_signed, Fits}
use lc3_script_tools.Base.Sign.{extend_sign-to_signed, to_signed-of_signed}
use lc3_script_tools.Base.Fields.{
  shl, shl_fits, head, div_field, mod_field, or_head, read_reg2, read_reg1, read_op,
}
use lc3_script_tools.Instr.Layout.{
  Layout, IsLayout, oper_code_move_bit, reg_num1_move_bit, reg_num2_move_bit,
}
use lc3_script_tools.Instr.Parser.{
  int_value, oper_code, reg_num1, reg_num2, int_after_num2, int_after_num2_flag,
  int_after_num2_with_flag,
}
use lc3_script_tools.Instr.Maker.{to_oper_type, make_rri, make_rri_with_flag}

pub to_signed_congr : (n x y : ℕ) → x % 2 ^ n ≡ y % 2 ^ n → to_signed n x ≡ to_signed n y
to_signed_congr n x y e = rw e

-- The low bits of a signed value, as the makers put them in.
abbrev pub low_bits : ℕ → ℤ → ℕ
low_bits n v = bit_and (to_oper_type v) (2 ^ n - 1)

pub low_bits-eq : (n : ℕ) (v : ℤ) → low_bits n v ≡ to_oper_type v % 2 ^ n
low_bits-eq n v = and_mask n (to_oper_type v)

pub low_bits-lt : (n : ℕ) (v : ℤ) → low_bits n v < 2 ^ n
low_bits-lt n v = omega (arith, low_bits-eq n v, two_pow_pos n)

-- A signed value that fits its field is read back.
pub read_int :
    (n q : ℕ) (v : ℤ)
    → 1 ≤ n
    → n ≤ 64
    → Fits n v
    → to_signed 64 (int_value (q * 2 ^ n + low_bits n v) n) ≡ v
unfolding int_value
read_int n q v h le f =
    extend_sign-to_signed 64 (q * 2 ^ n + low_bits n v) n h le
    ∙ to_signed_congr n (q * 2 ^ n + low_bits n v) (to_oper_type v)
        (mod_field n q (low_bits n v) (low_bits-lt n v) ∙ low_bits-eq n v)
    ∙ to_signed-of_signed 64 n v h le f

-- A flag under the fields above it.
or_flag : (k q : ℕ) → bit_or (q * (2 * 2 ^ k)) (1 * 2 ^ k) ≡ (q * 2 + 1) * 2 ^ k
or_flag k q =
    let e : 2 * 2 ^ k ≡ 2 ^ (1 + k) = sym (two_pow_add 1 k) in
    rw e (or_field_at 1 k q 1 (omega arith))

odd : (q : ℕ) → (q * 2 + 1) % 2 ≡ 1
odd q = omega arith

split_flag : (q p low : ℕ) → (q * 2 + 1) * p + low ≡ q * (2 * p) + (p + low)
split_flag q p low = grind arith

module _ (l : Layout) (op r1 r2 : ℕ) where
  -- `w` has the operation code and the two register numbers.
  pub record Reads (w : ℕ) : Type 0 where
    pub opcode : oper_code l w ≡ op
    pub num1 : reg_num1 l w ≡ r1
    pub num2 : reg_num2 l w ≡ r2

module _ {l : Layout} (ok : IsLayout l) (op r1 r2 : ℕ) (op_fits : op < 2 ^ l.op_bc)
    (r1_fits : r1 < 2 ^ l.rn_bc) (r2_fits : r2 < 2 ^ l.rn_bc) where
  at_num1 : reg_num1_move_bit l ≡ l.rn_bc + reg_num2_move_bit l
  at_num1 = omega arith

  at_oper : oper_code_move_bit l ≡ l.rn_bc + reg_num1_move_bit l
  at_oper = omega arith

  room : l.op_bc + oper_code_move_bit l ≤ 64
  room = omega arith

  abbrev pub over : ℕ
  over = head l.rn_bc op r1 r2

  put_head :
      bit_or
        (bit_or (shl op (oper_code_move_bit l)) (shl r1 (reg_num1_move_bit l)))
        (shl r2 (reg_num2_move_bit l))
      ≡ over * 2 ^ reg_num2_move_bit l
  put_head =
      or_head l.op_bc l.rn_bc (reg_num2_move_bit l) (reg_num1_move_bit l) (oper_code_move_bit l)
        at_num1 at_oper room op r1 op_fits r1_fits r2 r2_fits

  -- The word of an instruction with two register numbers and `low` below them.
  abbrev pub whole : ℕ → ℕ
  whole low = over * 2 ^ reg_num2_move_bit l + low

  whole-Reads : (low : ℕ) → low < 2 ^ reg_num2_move_bit l → Reads l op r1 r2 (whole low)
  unfolding oper_code reg_num1 reg_num2
  whole-Reads low h = record {
    opcode =
        read_op l.op_bc l.rn_bc (reg_num2_move_bit l) (reg_num1_move_bit l) (oper_code_move_bit l)
          at_num1 at_oper room op r1 op_fits r1_fits r2 low r2_fits h;
    num1 =
        read_reg1 l.op_bc l.rn_bc (reg_num2_move_bit l) (reg_num1_move_bit l) (oper_code_move_bit l)
          at_num1 at_oper room op r1 op_fits r1_fits r2 low r2_fits h;
    num2 =
        read_reg2 l.op_bc l.rn_bc (reg_num2_move_bit l) (reg_num1_move_bit l) (oper_code_move_bit l)
          at_num1 at_oper room op r1 op_fits r1_fits r2 low r2_fits h;
  }

  pub rri-whole : (v : ℤ) → make_rri l op r1 r2 v ≡ whole (low_bits (reg_num2_move_bit l) v)
  unfolding make_rri
  rri-whole v = rw put_head (
      or_fields (reg_num2_move_bit l) over (low_bits (reg_num2_move_bit l) v)
        (low_bits-lt (reg_num2_move_bit l) v))

  -- What LC3_MAKE_INSTR_RRI puts together is read back, when the code and the register numbers fit
  -- their fields and the value fits the field after them as a two's complement number.
  pub rri_round_trip :
      (v : ℤ)
      → Fits (reg_num2_move_bit l) v
      → Reads l op r1 r2 (make_rri l op r1 r2 v)
        × (to_signed 64 (int_after_num2 l (make_rri l op r1 r2 v)) ≡ v)
  unfolding int_after_num2
  rri_round_trip v f = rw (rri-whole v) (
    whole-Reads (low_bits (reg_num2_move_bit l) v) (low_bits-lt (reg_num2_move_bit l) v),
    read_int (reg_num2_move_bit l) over v (omega arith) (omega arith) f,
  )

  -- The position of the flag of an immediate operand.
  abbrev flag_at : ℕ
  flag_at = reg_num2_move_bit l - 1

  flag_value : 2 ^ reg_num2_move_bit l ≡ 2 * 2 ^ flag_at
  flag_value =
      let e : reg_num2_move_bit l ≡ suc flag_at = omega arith in
      ap (λ (k : ℕ). 2 ^ k) e ∙ two_pow_suc flag_at

  with_flag-eq :
      (v : ℤ) → make_rri_with_flag l op r1 r2 v ≡ (over * 2 + 1) * 2 ^ flag_at + low_bits flag_at v
  unfolding make_rri_with_flag
  with_flag-eq v =
      rw
        (
          put_head,
          shl_fits 1 flag_at 1 (omega arith) (omega arith),
          flag_value,
          or_flag flag_at over,
        )
        (or_fields flag_at (over * 2 + 1) (low_bits flag_at v) (low_bits-lt flag_at v))

  pub with_flag-whole :
      (v : ℤ) → make_rri_with_flag l op r1 r2 v ≡ whole (2 ^ flag_at + low_bits flag_at v)
  with_flag-whole v =
      with_flag-eq v ∙ rw flag_value (split_flag over (2 ^ flag_at) (low_bits flag_at v))

  pub flag_set : (v : ℤ) → bit_and (make_rri_with_flag l op r1 r2 v) (2 ^ flag_at) ≡ 2 ^ flag_at
  flag_set v =
      and_digit flag_at (make_rri_with_flag l op r1 r2 v)
      ∙ rw
          (
            with_flag-eq v,
            div_field flag_at (over * 2 + 1) (low_bits flag_at v) (low_bits-lt flag_at v),
            odd over,
          )
          (omega arith)

  -- What LC3_MAKE_INSTR_RRI_WITH_FLAG puts together is read back, when the code and the register
  -- numbers fit and the value fits the field below the flag, which has a digit at least: the flag
  -- is set, and the value is the one that was given.
  pub rri_with_flag_round_trip :
      (v : ℤ)
      → 1 ≤ flag_at
      → Fits flag_at v
      → Reads l op r1 r2 (make_rri_with_flag l op r1 r2 v)
        × (int_after_num2_flag l (make_rri_with_flag l op r1 r2 v) ≡ 2 ^ flag_at)
        × (to_signed 64 (int_after_num2_with_flag l (make_rri_with_flag l op r1 r2 v)) ≡ v)
  unfolding int_after_num2_flag int_after_num2_with_flag
  rri_with_flag_round_trip v h f = (
    rw (with_flag-whole v) (
        whole-Reads (2 ^ flag_at + low_bits flag_at v)
          (omega (arith, flag_value, low_bits-lt flag_at v))),
    flag_set v,
    rw (with_flag-eq v) (read_int flag_at (over * 2 + 1) v h (omega arith) f),
  )
