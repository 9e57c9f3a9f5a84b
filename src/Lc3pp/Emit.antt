-- ===== src/Lc3pp/Emit.antt =====
-- The third part of main of lcc-1.3/lc3pp/lc3pp.c: the code is put out, with the lines .LC3GLOBAL
-- replaced by the code for an address in the global data, and the variables after it.
pub mod Run
use lc3_script_tools.Base.{
  ℕ, zero, suc, ◌+◌, ◌%◌, ◌^◌, Bool, true, false, ◌||◌, none, some, List, [], ◌∷◌, ◌++◌, ◌==◌,
  if◌then◌else◌, length,
}
use lc3_script_tools.Base.Int.{to_signed}
use lc3_script_tools.Sim.Text.{Text, text, dec}
use lc3_script_tools.Lc3pp.Lines.{
  Res, ok, stop, forever, aborted, ◌>>=◌, starts_with, from, take_name, strtol, line_of,
}
use lc3_script_tools.Lc3pp.Address.{Line, calculate_address, printed_all}
use lc3_script_tools.Lc3pp.Ldr.{check_ldr}
use lc3_script_tools.Lc3pp.Split.{Variable, is_end, glob_offset}

-- A `.LC3GLOBAL` line: the name, the sum of the offsets and the register.
record Global : Type 0 where
  pub name : Text
  pub offset : ℕ
  pub register : ℕ

abbrev is_sign : ℕ → Bool
is_sign c = (c == 43) || (c == 45)

-- `while (*s == '+' || *s == '-')`. A turn takes two characters at least, or, where no number stands
-- after the sign, none, and then there is no end. The fuel is the length of the text.
unfoldable pub offsets : ℕ → ℕ → Text → Res (ℕ × Text)
unfolding strtol
offsets fuel sum [] = ok (sum, [])
offsets zero sum (c ∷ t) = if is_sign c then stop forever else ok (sum, c ∷ t)
offsets (suc fuel) sum (c ∷ t) =
    if is_sign c
    then elim (strtol 10 (c ∷ t)) [
      | none ↦ stop forever
      | some p ↦ offsets fuel ((sum + p.0) % 2 ^ 32) p.1
    ]
    else ok (sum, c ∷ t)

-- The two assertions, and the register between them.
unfoldable register_at : Text → Res ℕ
unfolding strtol
register_at [] = stop aborted
register_at (c ∷ t) =
    if c == 32
    then elim (strtol 10 t) [
      | none ↦ if length t == 0 then ok 0 else stop aborted
      | some p ↦ if length p.1 == 0 then ok p.0 else stop aborted
    ]
    else stop aborted

unfoldable parse_global : Text → Res Global
unfolding offsets register_at take_name
parse_global line = from 11 line >>= λ s. take_name (λ c. (c == 32) || is_sign c) s >>= λ n.
    offsets (length n.1) 0 n.1 >>= λ o.
    register_at o.1 >>= λ r. ok (record { name = n.0; offset = o.0; register = r })

-- The code for the address of a variable and an offset in it.
unfoldable pub global_code : ℕ → ℕ → ℕ → Bool → List Line
unfolding calculate_address
global_code register var_offset glob with_ldr =
    calculate_address register 4 (to_signed 32 ((var_offset + glob) % 2 ^ 32)) with_ldr

-- The comment, and the code after it: `var_offset` is the sum that the code is for.
unfoldable global_text : Global → ℕ → ℕ → Bool → Text
unfolding global_code printed_all
global_text g var_offset glob with_ldr =
    let word = if with_ldr then text "ld" else text "lea" in
    let plus = if var_offset == 0 then [] else text "+" ++ dec var_offset in
    text ";     <"
    ++ word
    ++ text " R"
    ++ dec g.register
    ++ text ", "
    ++ g.name
    ++ plus
    ++ text "\t;GLOBALS["
    ++ dec glob
    ++ text "]"
    ++ plus
    ++ text ">\n"
    ++ printed_all (global_code g.register var_offset glob with_ldr)
    ++ text ";     </"
    ++ word
    ++ text ">\n"

-- Without an LDR after it, and with one whose offset is `n`.
unfoldable global_lea : List Variable → Global → Text
unfolding global_text glob_offset
global_lea vs g = global_text g g.offset (glob_offset vs g.name) false

unfoldable global_ld : List Variable → Global → ℕ → Text
unfolding global_text glob_offset
global_ld vs g n = global_text g ((g.offset + n) % 2 ^ 32) (glob_offset vs g.name) true

abbrev is_global : Text → Bool
is_global line = starts_with line (text ".LC3GLOBAL")

abbrev pub before : Text → Res Text → Res Text
before t r = r >>= λ rest. ok (t ++ rest)

-- The loop over the code. `handle_line` is a turn without a Readline before it.
unfoldable code_text : List Variable → List Text → Res Text
unfolding parse_global global_lea global_ld check_ldr
code_text vs [] = stop forever
code_text vs (line ∷ []) =
    if is_end line
    then ok []
    else if is_global line
    then (parse_global line >>= λ g. stop forever)
    else stop forever
code_text vs (line ∷ next ∷ lines) =
    let on_next = code_text vs (next ∷ lines) in
    let after = code_text vs lines in
    if is_end line
    then ok []
    else if is_global line
    then (parse_global line >>= λ g. elim (check_ldr next g.register) [
      | none ↦ before (global_lea vs g) on_next
      | some n ↦ before (global_ld vs g n) after
    ])
    else before (line_of line) on_next

-- The variables, up to their `.END`.
unfoldable variable_text : List Text → Res Text
variable_text [] = stop forever
variable_text (line ∷ lines) =
    let rest = variable_text lines in
    if is_end line then ok (line_of line) else before (line_of line) rest

-- The header, with an empty line after its last newline.
unfoldable header_text : List Text → Text
header_text [] = []
header_text (line ∷ lines) = line_of line ++ header_text lines

unfoldable pub output_text : List Text → List Variable → List Text → List Text → Res Text
unfolding header_text code_text variable_text
output_text header vs code vars = code_text vs code >>= λ c.
    variable_text vars >>= λ v. ok (header_text header ++ c ++ text "\nGLOBAL_DATA_START\n" ++ v)
