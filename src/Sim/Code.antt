-- ===== src/Sim/Code.antt =====
-- The code blocks of lc3tools/lc3.def. The register IR does not change while one runs, so that its
-- value `i` is passed on.
use lc3_script_tools.Base.{
  ℕ, ◌+◌, ◌-◌, ◌*◌, ◌/◌, ◌%◌, ◌^◌, bit_and, bit_or, bit_xor, Bool, true, not, ◌++◌, ◌==◌, ltb, leb,
  if◌then◌else◌,
}
use lc3_script_tools.Sim.Text.{Text, text, dec}
use lc3_script_tools.Sim.Inst.{
  f_dr, f_sr1, f_sr2, f_cc, f_vec8, f_immu3, f_imm5, f_imm6, f_imm9, f_imm11, flg_return, r_r7,
  r_pc, r_psr,
}
use lc3_script_tools.Sim.Table.{
  Code, add_r, add_i, and_r, and_i, br, jmp, jsr, jsrr, ld, ldi, ldr, lea, not as code_not, rti, st,
  sti, str, trap, sll_r, sra_r, div_r, mod_r, mul_r, sll_i, sra_i,
}
use lc3_script_tools.Sim.State.{
  World, undefined, M, ◌>>=◌, ◌>>◌, pure, fail, modify, when, get_reg, set_reg, print,
}
use lc3_script_tools.Sim.Memory.{read_memory_traced}
use lc3_script_tools.Sim.Store.{write_memory_traced}

-- The flag of SET_CC for a value.
unfoldable pub cc_flag : ℕ → ℕ
cc_flag v = if not (bit_and v 0x8000 == 0) then 0x0800 else if v == 0 then 0x0400 else 0x0200

unfoldable pub set_cc : ℕ → M (Unit {0})
unfolding cc_flag
set_cc dr = do
  psr ← get_reg r_psr
  set_reg r_psr (bit_and psr (2 ^ 32 - 1 - 0x0e00))
  v ← get_reg dr
  psr ← get_reg r_psr
  set_reg r_psr (bit_or psr (cc_flag v))

-- A result and its condition codes.
unfoldable pub finish : ℕ → ℕ → M (Unit {0})
unfolding set_cc
finish i v = do set_reg (f_dr i) v; set_cc (f_dr i)

abbrev add_flags : ℕ → M (Unit {0})
add_flags value = modify (λ s. record s { last_flags = bit_or s.last_flags value })

-- `(REG (R_PC) + offset) & 0xFFFF`.
abbrev pub pc_plus : ℕ → M ℕ
pc_plus offset = do pc ← get_reg r_pc; pure ((pc + offset) % 65536)

-- An `int16_t` of a register: its sign and its magnitude.
abbrev pub negative : ℕ → Bool
negative v = leb (2 ^ 15) (v % 2 ^ 16)

abbrev pub magnitude16 : ℕ → ℕ
magnitude16 v = if negative v then 2 ^ 16 - v % 2 ^ 16 else v % 2 ^ 16

-- The low 16 bits of a number given by its sign and its magnitude.
abbrev pub word_of : Bool → ℕ → ℕ
word_of minus n = if minus then (2 ^ 16 - n % 2 ^ 16) % 2 ^ 16 else n % 2 ^ 16

abbrev pub differ : Bool → Bool → Bool
differ a b = if a then not b else b

-- `/` truncates, `%` has the sign of its first operand.
unfoldable pub quotient : ℕ → ℕ → ℕ
quotient x y = word_of (differ (negative x) (negative y)) (magnitude16 x / magnitude16 y)

unfoldable pub remainder : ℕ → ℕ → ℕ
remainder x y = word_of (negative x) (magnitude16 x % magnitude16 y)

unfoldable pub product : ℕ → ℕ → ℕ
product x y = word_of (differ (negative x) (negative y)) (magnitude16 x * magnitude16 y)

-- `<<` on an int that holds a register, and `>>` on an int16_t: a negative one is rounded down.
unfoldable pub shift_left : ℕ → ℕ → ℕ
shift_left x n = x * 2 ^ n % 2 ^ 32 % 2 ^ 16

unfoldable pub shift_right : ℕ → ℕ → ℕ
shift_right x n =
    if negative x then word_of true ((magnitude16 x + 2 ^ n - 1) / 2 ^ n) else magnitude16 x / 2 ^ n

-- A shift by the width of an int or more, and a division by 0.
abbrev pub check_shift : ℕ → M (Unit {0})
check_shift n = if ltb n 32 then pure tt else fail undefined

abbrev pub check_divisor : ℕ → M (Unit {0})
check_divisor y = if y % 2 ^ 16 == 0 then fail undefined else pure tt

unfoldable pub rti_text : ℕ → ℕ → ℕ → Text
unfolding dec
rti_text x y v =
    text "RTI Operation reg1 = "
    ++ dec x
    ++ text " reg2 = "
    ++ dec y
    ++ text " val = "
    ++ dec v
    ++ text "\n"

-- Two register operands.
abbrev pub operands : ℕ → (ℕ → ℕ → M (Unit {0})) → M (Unit {0})
operands i f = do x ← get_reg (f_sr1 i); y ← get_reg (f_sr2 i); f x y

module _ (world : World) where
  unfoldable pub run_code : Code → ℕ → M (Unit {0})
  run_code add_r i = operands i λ x y. finish i ((x + y) % 65536)
  run_code add_i i = do x ← get_reg (f_sr1 i); finish i ((x + f_imm5 i) % 65536)
  run_code and_r i = operands i λ x y. finish i (bit_and x y)
  run_code and_i i = do x ← get_reg (f_sr1 i); finish i (bit_and x (f_imm5 i))
  run_code br i = do
    psr ← get_reg r_psr
    when (not (bit_and psr (f_cc i) == 0)) (pc_plus (f_imm9 i) >>= set_reg r_pc)
  run_code jmp i = do
    when (f_sr1 i == r_r7) (add_flags flg_return)
    target ← get_reg (f_sr1 i)
    set_reg r_pc target
  run_code jsr i = do pc ← get_reg r_pc; set_reg r_r7 pc; pc_plus (f_imm11 i) >>= set_reg r_pc
  run_code jsrr i = do tmp ← get_reg (f_sr1 i); pc ← get_reg r_pc; set_reg r_r7 pc; set_reg r_pc tmp
  run_code ld i = do addr ← pc_plus (f_imm9 i); v ← read_memory_traced world addr; finish i v
  run_code ldi i = do
    at ← pc_plus (f_imm9 i)
    addr ← read_memory_traced world at
    v ← read_memory_traced world addr
    finish i v
  run_code ldr i = do
    base ← get_reg (f_sr1 i)
    v ← read_memory_traced world ((base + f_imm6 i) % 65536)
    finish i v
  run_code lea i = do v ← pc_plus (f_imm9 i); finish i v
  run_code code_not i = do x ← get_reg (f_sr1 i); finish i (bit_xor x 0xffff)
  run_code rti i = do x ← get_reg (f_dr i); y ← get_reg (f_sr1 i); print (rti_text x y (f_imm9 i))
  run_code st i = do
    addr ← pc_plus (f_imm9 i)
    v ← get_reg (f_dr i)
    write_memory_traced world addr v
  run_code sti i = do
    at ← pc_plus (f_imm9 i)
    addr ← read_memory_traced world at
    v ← get_reg (f_dr i)
    write_memory_traced world addr v
  run_code str i = do
    base ← get_reg (f_sr1 i)
    v ← get_reg (f_dr i)
    write_memory_traced world ((base + f_imm6 i) % 65536) v
  run_code trap i = do
    pc ← get_reg r_pc
    set_reg r_r7 pc
    target ← read_memory_traced world (f_vec8 i)
    set_reg r_pc target
  run_code sll_r i = operands i λ x y. check_shift y >> finish i (shift_left x y)
  run_code sra_r i = operands i λ x y. check_shift y >> finish i (shift_right x y)
  run_code div_r i = operands i λ x y. check_divisor y >> finish i (quotient x y)
  run_code mod_r i = operands i λ x y. check_divisor y >> finish i (remainder x y)
  run_code mul_r i = operands i λ x y. finish i (product x y)
  run_code sll_i i = do x ← get_reg (f_sr1 i); finish i (shift_left x (f_immu3 i))
  run_code sra_i i = do x ← get_reg (f_sr1 i); finish i (shift_right x (f_immu3 i))
