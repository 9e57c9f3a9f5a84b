-- ===== src/Sim/Disassemble.antt =====
-- Disassembly: print_operands, disassemble_one_int, disassemble_one and disassemble of
-- lc3tools/lc3sim.c.
use lc3_script_tools.Base.{
  ℕ, zero, suc, ◌+◌, ◌-◌, ◌%◌, ◌/◌, ◌^◌, Bool, true, false, not, ◌&&◌, Option, none, some, List, [],
  ◌∷◌, ◌++◌, ◌==◌, if◌then◌else◌, length,
}
use lc3_script_tools.Symbol.Table.{Table}
use lc3_script_tools.Sim.Text.{Text, text, hex, dec, pad_left, pad_right, cut, is_print}
use lc3_script_tools.Sim.Inst.{
  f_dr, f_sr1, f_sr2, f_cc, f_vec8, f_immu3, f_imm5, f_imm6, f_imm9, f_imm11, fmt_r1, fmt_r2,
  fmt_r3, fmt_cc, fmt_imm5, fmt_imm6, fmt_vec8, fmt_asc8, fmt_imm9, fmt_imm11, fmt_imm16, fmt_immu3,
  has_bit, r_pc,
}
use lc3_script_tools.Sim.Table.{Definition, definitions, find_definition}
use lc3_script_tools.Sim.State.{
  World, Sim, out_of_fuel, M, ◌>>=◌, ◌>>◌, pure, fail, gets, when, check_index, Out, stdout, fprint,
  is_stdout,
}
use lc3_script_tools.Sim.Memory.{read_memory}

-- The name of the symbol that was linked last at an address.
unfoldable pub name_at : Table → ℕ → Option Text
name_at t addr = elim (t.sym_names addr) [ [] ↦ none | p ∷ more ↦ some (t.symbols p).name ]

-- The target of a reference: its name, or its address.
unfoldable pub label : Table → ℕ → Text
unfolding name_at hex
label t tgt = elim (name_at t tgt) [ some name ↦ name | none ↦ 120 ∷ hex 4 tgt ]

-- The operand of `.FILL` as a character.
unfoldable pub char_text : ℕ → Text
unfolding is_print hex
char_text c =
    if c == 7
    then text "'\\a'"
    else if c == 8
    then text "'\\b'"
    else if c == 9
    then text "'\\t'"
    else if c == 10
    then text "'\\n'"
    else if c == 11
    then text "'\\v'"
    else if c == 12
    then text "'\\f'"
    else if c == 13
    then text "'\\r'"
    else if c == 27
    then text "'\\e'"
    else if c == 34
    then text "'\\\"'"
    else if c == 44
    then text "'\\''"
    else if c == 92
    then text "'\\\\'"
    else if is_print c
    then 39 ∷ c ∷ 39 ∷ []
    else 120 ∷ hex 2 c

abbrev register_text : ℕ → Text
register_text n = 82 ∷ dec n

abbrev immediate_text : ℕ → Text
immediate_text v = 35 ∷ dec v

-- The operands that the format asks for, with commas between.
unfoldable pub operands : Bool → List (Bool × Text) → Text
operands found [] = []
operands found (t ∷ ts) =
    let more = operands true ts in
    let rest = operands found ts in
    if t.0 then if found then 44 ∷ t.1 ++ more else t.1 ++ more else rest

unfoldable pub print_operands : Table → ℕ → ℕ → ℕ → Text
unfolding operands
print_operands t addr inst fmt = operands false (
    (has_bit fmt fmt_r1, register_text (f_dr inst))
    ∷ (has_bit fmt fmt_r2, register_text (f_sr1 inst))
    ∷ (has_bit fmt fmt_r3, register_text (f_sr2 inst))
    ∷ (has_bit fmt fmt_immu3, immediate_text (f_immu3 inst))
    ∷ (has_bit fmt fmt_imm5, immediate_text (f_imm5 inst))
    ∷ (has_bit fmt fmt_imm6, immediate_text (f_imm6 inst))
    ∷ (has_bit fmt fmt_vec8, 120 ∷ hex 2 (f_vec8 inst))
    ∷ (has_bit fmt fmt_asc8, char_text (f_vec8 inst))
    ∷ (has_bit fmt fmt_imm9, label t ((addr + 1 + f_imm9 inst) % 65536))
    ∷ (has_bit fmt fmt_imm11, label t ((addr + 1 + f_imm11 inst) % 65536))
    ∷ (has_bit fmt fmt_imm16, label t inst)
    ∷ [])

abbrev opcode_width : ℕ
opcode_width = 6

-- dis_cc.
unfoldable dis_cc : ℕ → Text
dis_cc cc =
    (if has_bit cc 4 then text "N" else [])
    ++ (if has_bit cc 2 then text "Z" else [])
    ++ (if has_bit cc 1 then text "P" else [])

unfoldable pub mnemonic : Definition → ℕ → Text
unfolding dis_cc
mnemonic d inst =
    if has_bit d.format fmt_cc
    then d.name ++ pad_right (opcode_width - length d.name) (dis_cc (f_cc inst / 2 ^ 9))
    else pad_right opcode_width d.name

-- What disassemble_one_int writes after `CODE`: the break point, the label, the address and the
-- word, then the instruction.
unfoldable pub line_text : Sim → ℕ → ℕ → Text
line_text s addr inst =
    (if s.breakpoints addr then 66 else 32) ∷ 32 ∷ elim (name_at s.symbols addr) [
      | some name ↦ pad_left 16 (cut 16 name) ++ 32 ∷ []
      | none ↦ pad_left 17 []
    ]
    ++ text "x"
    ++ hex 4 addr
    ++ text " x"
    ++ hex 4 inst
    ++ text " "
    ++ elim (find_definition inst definitions) [
      | some d ↦ mnemonic d inst ++ print_operands s.symbols addr inst d.format
      | none ↦ pad_right opcode_width (text "???")
    ]
    ++ text "\n"

module _ (world : World) where
  -- The GUI's prefix marks the line of the PC.
  unfoldable pub gui_prefix : Out → ℕ → M (Unit {0})
  gui_prefix out addr s =
      when (s.gui_mode && is_stdout out)
        (fprint stdout (
          text "CODE"
          ++ (if not s.in_init && addr == s.reg r_pc then 80 else 32)
            ∷ pad_left 5 (dec (addr + 1))))
        s

  -- Only the format of data takes the word as an address.
  unfoldable pub check_word : ℕ → M (Unit {0})
  check_word inst = elim (find_definition inst definitions) [
    | none ↦ pure tt
    | some d ↦ when (has_bit d.format fmt_imm16) (check_index inst)
  ]

  unfoldable pub disassemble_one_int : Out → ℕ → M (Unit {0})
  unfolding gui_prefix line_text read_memory
  disassemble_one_int out addr = do
    inst ← read_memory world addr
    gui_prefix out addr
    check_index addr
    check_word inst
    line ← gets (λ s. line_text s addr inst)
    fprint out line

  unfoldable pub disassemble_one : ℕ → M (Unit {0})
  disassemble_one addr = disassemble_one_int stdout addr

  -- The loop of disassemble, on fuel.
  unfoldable pub disassemble_loop : ℕ → ℕ → ℕ → M (Unit {0})
  disassemble_loop zero addr_s addr_e = fail out_of_fuel
  disassemble_loop (suc fuel) addr_s addr_e =
      let rest = disassemble_loop fuel ((addr_s + 1) % 65536) addr_e in
      do disassemble_one addr_s; if (addr_s + 1) % 65536 == addr_e then pure tt else rest

  -- 65536 rounds visit every address.
  unfoldable pub disassemble : ℕ → ℕ → M (Unit {0})
  disassemble addr_s addr_e = disassemble_loop 65536 addr_s addr_e
