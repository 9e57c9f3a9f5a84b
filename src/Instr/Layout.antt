-- ===== src/Instr/Layout.antt =====
-- The bit positions of lc3sim_cpp/instr_parser.h.
use lc3_script_tools.Base.{ℕ, ◌+◌, ◌-◌, ◌≤◌}

-- The arguments `instr_bc`, `op_bc`, `rn_bc` and `par_bc` of the macros.
pub record Layout : Type 0 where
  pub instr_bc : ℕ
  pub op_bc : ℕ
  pub rn_bc : ℕ
  pub par_bc : ℕ

-- Room for an operation code, two register numbers, and a flag and a register number (or a
-- parameter) after them, in a uint64_t. Register numbers have at least one digit.
pub record IsLayout (l : Layout) : Type 0 where
  pub some_regs : 1 ≤ l.rn_bc
  pub room : l.op_bc + (l.rn_bc + (l.rn_bc + (l.rn_bc + 1))) ≤ l.instr_bc
  pub param_room : l.op_bc + (l.rn_bc + (l.rn_bc + (l.par_bc + l.rn_bc))) ≤ l.instr_bc
  pub in_uint64 : l.instr_bc ≤ 64

module _ (l : Layout) where
  abbrev pub oper_code_move_bit : ℕ
  oper_code_move_bit = l.instr_bc - l.op_bc

  abbrev pub reg_num1_move_bit : ℕ
  reg_num1_move_bit = oper_code_move_bit - l.rn_bc

  abbrev pub reg_num2_move_bit : ℕ
  reg_num2_move_bit = reg_num1_move_bit - l.rn_bc

  abbrev pub param_after_num2_move_bit : ℕ
  param_after_num2_move_bit = reg_num2_move_bit - l.par_bc

-- lc3sim_cpp/instr_config.h, for instructions of `instr_bc` bits: 16, 32 or 64.
abbrev pub config : ℕ → Layout
config instr_bc = record { instr_bc = instr_bc; op_bc = 4; rn_bc = 3; par_bc = 3 }
