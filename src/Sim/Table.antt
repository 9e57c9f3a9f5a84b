-- ===== src/Sim/Table.antt =====
-- The instruction table: the DEF_INST and DEF_P_OP entries of lc3tools/lc3.def, in their order.
use lc3_script_tools.Base.{ℕ, Bool, Option, none, some, List, [], ◌∷◌, bit_and, ◌==◌, if◌then◌else◌}
use lc3_script_tools.Sim.Text.{Text, text}
use lc3_script_tools.Sim.Inst.{
  fmt_none, fmt_rrr, fmt_rri, fmt_cl, fmt_r, fmt_l, fmt_rl, fmt_rriu3, fmt_rri6, fmt_rr, fmt_v,
  fmt_a, fmt_16, flg_none, flg_subroutine,
}

-- The code blocks: one for each DEF_INST.
pub data Code : Type 0 where
  add_r add_i and_r and_i br jmp jsr jsrr ld ldi ldr lea not rti st sti str trap : Code
  sll_r sra_r div_r mod_r mul_r sll_i sra_i : Code

-- A pseudo-op has no code.
pub record Definition : Type 0 where
  pub name : Text
  pub format : ℕ
  pub mask : ℕ
  pub match : ℕ
  pub flags : ℕ
  pub code : Option Code

abbrev def_inst : Text → ℕ → ℕ → ℕ → ℕ → Code → Definition
def_inst n f m v g c = record {
  name = n;
  format = f;
  mask = m;
  match = v;
  flags = g;
  code = some c;
}

abbrev def_p_op : Text → ℕ → ℕ → ℕ → Definition
def_p_op n f m v = record {
  name = n;
  format = f;
  mask = m;
  match = v;
  flags = flg_none;
  code = none;
}

unfoldable pub definitions : List Definition
definitions =
    def_inst (text "ADD") fmt_rrr 0xf038 0x1000 flg_none add_r
    ∷ def_inst (text "ADD") fmt_rri 0xf020 0x1020 flg_none add_i
    ∷ def_inst (text "AND") fmt_rrr 0xf038 0x5000 flg_none and_r
    ∷ def_inst (text "AND") fmt_rri 0xf020 0x5020 flg_none and_i
    ∷ def_p_op (text "NOP") fmt_none 0xffff 0x0000
    ∷ def_p_op (text ".FILL") fmt_a 0xff00 0x0000
    ∷ def_p_op (text "NOP") fmt_none 0xf1ff 0x0000
    ∷ def_p_op (text "NOP") fmt_none 0xfe00 0x0000
    ∷ def_inst (text "BR") fmt_cl 0xf000 0x0000 flg_none br
    ∷ def_p_op (text "RET") fmt_none 0xffff 0xc1c0
    ∷ def_inst (text "JMP") fmt_r 0xfe3f 0xc000 flg_none jmp
    ∷ def_inst (text "JSR") fmt_l 0xf800 0x4800 flg_subroutine jsr
    ∷ def_inst (text "JSRR") fmt_r 0xfe3f 0x4000 flg_subroutine jsrr
    ∷ def_inst (text "LD") fmt_rl 0xf000 0x2000 flg_none ld
    ∷ def_inst (text "LDI") fmt_rl 0xf000 0xa000 flg_none ldi
    ∷ def_inst (text "LDR") fmt_rri6 0xf000 0x6000 flg_none ldr
    ∷ def_inst (text "LEA") fmt_rl 0xf000 0xe000 flg_none lea
    ∷ def_inst (text "NOT") fmt_rr 0xf03f 0x903f flg_none not
    ∷ def_inst (text "RTI") fmt_rri6 0xf000 0x8000 flg_none rti
    ∷ def_inst (text "ST") fmt_rl 0xf000 0x3000 flg_none st
    ∷ def_inst (text "STI") fmt_rl 0xf000 0xb000 flg_none sti
    ∷ def_inst (text "STR") fmt_rri6 0xf000 0x7000 flg_none str
    ∷ def_p_op (text "GETC") fmt_none 0xffff 0xf020
    ∷ def_p_op (text "OUT") fmt_none 0xffff 0xf021
    ∷ def_p_op (text "PUTS") fmt_none 0xffff 0xf022
    ∷ def_p_op (text "IN") fmt_none 0xffff 0xf023
    ∷ def_p_op (text "PUTSP") fmt_none 0xffff 0xf024
    ∷ def_p_op (text "HALT") fmt_none 0xffff 0xf025
    ∷ def_inst (text "TRAP") fmt_v 0xff00 0xf000 flg_subroutine trap
    ∷ def_inst (text "SLL") fmt_rrr 0xd038 0xd000 flg_none sll_r
    ∷ def_inst (text "SRA") fmt_rrr 0xd038 0xd008 flg_none sra_r
    ∷ def_inst (text "DIV") fmt_rrr 0xd038 0xd010 flg_none div_r
    ∷ def_inst (text "MOD") fmt_rrr 0xd038 0xd018 flg_none mod_r
    ∷ def_inst (text "MUL") fmt_rrr 0xd038 0xd020 flg_none mul_r
    ∷ def_inst (text "SLL") fmt_rriu3 0xd038 0xd028 flg_none sll_i
    ∷ def_inst (text "SRA") fmt_rriu3 0xd038 0xd030 flg_none sra_i
    ∷ def_p_op (text ".FILL") fmt_16 0x0000 0x0000
    ∷ []

-- The chain of tests that the table makes in disassemble_one_int.
unfoldable pub find_definition : ℕ → List Definition → Option Definition
find_definition inst [] = none
find_definition inst (d ∷ ds) =
    let rest = find_definition inst ds in if bit_and inst d.mask == d.match then some d else rest

-- What the table makes of an entry in execute_instruction: its flags and its code.
pub record Action : Type 0 where
  pub flags : ℕ
  pub code : Code

-- An entry whose test passed, if it has a code; else what the rest gives.
abbrev pub choose : Option Code → ℕ → Bool → Option Action → Option Action
choose none flags passed rest = rest
choose (some c) flags passed rest =
    if passed then some (record { flags = flags; code = c }) else rest

-- The chain of tests in execute_instruction, where a pseudo-op is nothing.
unfoldable pub find_action : ℕ → List Definition → Option Action
find_action inst [] = none
find_action inst (d ∷ ds) =
    choose d.code d.flags (bit_and inst d.mask == d.match) (find_action inst ds)
