-- ===== src/Sim/Inst.antt =====
-- The fields of an instruction, the output formats, the flags and the register numbers of
-- lc3tools/lc3sim.h. An `int` is its 32 bits.
use lc3_script_tools.Base.{ℕ, ◌-◌, ◌/◌, ◌^◌, Bool, not, bit_and, bit_or, ◌==◌, if◌then◌else◌}

abbrev pub f_dr : ℕ → ℕ
f_dr i = bit_and (i / 2 ^ 9) 7

abbrev pub f_sr1 : ℕ → ℕ
f_sr1 i = bit_and (i / 2 ^ 6) 7

abbrev pub f_sr2 : ℕ → ℕ
f_sr2 i = bit_and i 7

abbrev pub f_cc : ℕ → ℕ
f_cc i = bit_and i 0xe00

abbrev pub f_vec8 : ℕ → ℕ
f_vec8 i = bit_and i 0xff

abbrev pub f_immu3 : ℕ → ℕ
f_immu3 i = bit_and i 7

-- What the four macros of signed immediates have in common.
unfoldable pub f_imm : ℕ → ℕ → ℕ → ℕ
f_imm sign mask i = if bit_and i sign == 0 then bit_and i mask else bit_or i (2 ^ 32 - 1 - mask)

abbrev pub f_imm5 : ℕ → ℕ
f_imm5 i = f_imm 0x010 0x00f i

abbrev pub f_imm6 : ℕ → ℕ
f_imm6 i = f_imm 0x020 0x01f i

abbrev pub f_imm9 : ℕ → ℕ
f_imm9 i = f_imm 0x100 0x1ff i

abbrev pub f_imm11 : ℕ → ℕ
f_imm11 i = f_imm 0x400 0x3ff i

-- `field_t`.
abbrev pub fmt_r1 : ℕ
fmt_r1 = 0x001

abbrev pub fmt_r2 : ℕ
fmt_r2 = 0x002

abbrev pub fmt_r3 : ℕ
fmt_r3 = 0x004

abbrev pub fmt_cc : ℕ
fmt_cc = 0x008

abbrev pub fmt_imm5 : ℕ
fmt_imm5 = 0x010

abbrev pub fmt_imm6 : ℕ
fmt_imm6 = 0x020

abbrev pub fmt_vec8 : ℕ
fmt_vec8 = 0x040

abbrev pub fmt_asc8 : ℕ
fmt_asc8 = 0x080

abbrev pub fmt_imm9 : ℕ
fmt_imm9 = 0x100

abbrev pub fmt_imm11 : ℕ
fmt_imm11 = 0x200

abbrev pub fmt_imm16 : ℕ
fmt_imm16 = 0x400

abbrev pub fmt_immu3 : ℕ
fmt_immu3 = 0x800

-- `format_t`.
abbrev pub fmt_none : ℕ
fmt_none = 0

abbrev pub fmt_rrr : ℕ
fmt_rrr = bit_or (bit_or fmt_r1 fmt_r2) fmt_r3

abbrev pub fmt_rri : ℕ
fmt_rri = bit_or (bit_or fmt_r1 fmt_r2) fmt_imm5

abbrev pub fmt_cl : ℕ
fmt_cl = bit_or fmt_cc fmt_imm9

abbrev pub fmt_r : ℕ
fmt_r = fmt_r2

abbrev pub fmt_l : ℕ
fmt_l = fmt_imm11

abbrev pub fmt_rl : ℕ
fmt_rl = bit_or fmt_r1 fmt_imm9

abbrev pub fmt_rriu3 : ℕ
fmt_rriu3 = bit_or (bit_or fmt_r1 fmt_r2) fmt_immu3

abbrev pub fmt_rri6 : ℕ
fmt_rri6 = bit_or (bit_or fmt_r1 fmt_r2) fmt_imm6

abbrev pub fmt_rr : ℕ
fmt_rr = bit_or fmt_r1 fmt_r2

abbrev pub fmt_v : ℕ
fmt_v = fmt_vec8

abbrev pub fmt_a : ℕ
fmt_a = fmt_asc8

abbrev pub fmt_16 : ℕ
fmt_16 = fmt_imm16

-- `x & bit` as a condition.
abbrev pub has_bit : ℕ → ℕ → Bool
has_bit x bit = not (bit_and x bit == 0)

-- `inst_flag_t`.
abbrev pub flg_none : ℕ
flg_none = 0

abbrev pub flg_subroutine : ℕ
flg_subroutine = 1

abbrev pub flg_return : ℕ
flg_return = 2

-- `reg_num_t`.
abbrev pub r_r7 : ℕ
r_r7 = 7

abbrev pub r_pc : ℕ
r_pc = 8

abbrev pub r_ir : ℕ
r_ir = 9

abbrev pub r_psr : ℕ
r_psr = 10

abbrev pub num_regs : ℕ
num_regs = 11
