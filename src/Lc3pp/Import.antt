-- ===== src/Lc3pp/Import.antt =====
-- What resolve_externs of lcc-1.3/lc3pp/lc3pp.c takes from the file that defines a name: the lines of a
-- variable, or those of a function with the variables that it uses.
use lc3_script_tools.Base.{
  ℕ, Bool, true, false, not, ◌&&◌, ◌||◌, Option, none, some, List, [], ◌∷◌, ◌++◌, ◌==◌, ltb,
  if◌then◌else◌, length,
}
use lc3_script_tools.Sim.Text.{Text, text, same_text}
use lc3_script_tools.Lc3pp.Lines.{
  Res, ok, stop, forever, undefined, ◌>>=◌, starts_with, from, take_name, line_of,
}
use lc3_script_tools.Lc3pp.Split.{is_end}

pub record UsedVariable : Type 0 where
  pub name : Text
  pub label : Bool

-- Where an import stands: the lines that the file has left, and what was put out.
pub record Import : Type 0 where
  pub rest : List Text
  pub out : Text
  pub used : List UsedVariable

abbrev pub flag_word : Text
flag_word = text "LC3_GFLAG "

abbrev is_fill : Text → Bool
is_fill line = starts_with line (text "LC3_GFLAG .FILL")

abbrev pub put : Text → Import → Import
put line i = record i { out = i.out ++ line_of line }

-- The name after a directive of `n` characters.
unfoldable name_after : ℕ → Text → Res Text
unfolding take_name
name_after n line = from n line >>= λ s. take_name (λ c. (c == 32) || (c == 43)) s >>= λ p. ok p.0

unfoldable is_used : Text → List UsedVariable → Bool
is_used name [] = false
is_used name (u ∷ us) = let rest = is_used name us in if same_text name u.name then true else rest

-- `realloc (used_var, used_max)` makes the table of 100 entries smaller.
abbrev table_full : List UsedVariable → Bool
table_full us = not (ltb (length us) 100)

-- A variable that the function uses.
unfoldable note_use : Text → Import → Res Import
unfolding name_after is_used
note_use line i = name_after 11 line >>= λ name.
    if table_full i.used
    then stop undefined
    else if is_used name i.used
    then ok i
    else ok (record i { used = i.used ++ record { name = name; label = false } ∷ [] })

-- The first entry that the line is a label of is marked; `none` is no such entry.
unfoldable mark_label : Text → List UsedVariable → Option (List UsedVariable)
mark_label line [] = none
mark_label line (u ∷ us) =
    let rest = mark_label line us in
    if starts_with line (flag_word ++ u.name)
    then some (record u { label = true } ∷ us)
    else elim rest [ none ↦ none | some vs ↦ some (u ∷ vs) ]

unfoldable note_label : Text → Import → Res Import
unfolding name_after mark_label
note_label line i =
    if table_full i.used
    then stop undefined
    else (name_after 10 line >>= λ name. elim (mark_label line i.used) [
      | none ↦ ok (record i { used = i.used ++ record { name = name; label = true } ∷ [] })
      | some us ↦ ok (record i { used = us })
    ])

unfoldable note_line : Text → Import → Res Import
unfolding note_use note_label
note_line line i =
    if starts_with line (text ".LC3GLOBAL")
    then note_use line i
    else if starts_with line (text "LC3_GFLAG")
    then note_label line i
    else ok i

abbrev is_return : Text → Bool
is_return line =
    not (starts_with line (text ".LC3GLOBAL") || starts_with line (text "LC3_GFLAG"))
    && starts_with line (text "RET")

-- The lines of the function, up to its RET.
unfoldable pub function_body : List Text → Import → Res Import
unfolding note_line
function_body [] i = stop forever
function_body (line ∷ lines) i = note_line line (put line i) >>= λ j. elim (is_return line) [
  | true ↦ ok (record j { rest = lines })
  | false ↦ function_body lines j
]

-- What follows a variable: its lines .FILL, and the first line that is none.
unfoldable pub fill_lines : List Text → Import → Res (Text × Import)
fill_lines [] i = ok ([], record i { rest = [] })
fill_lines (line ∷ lines) i =
    let more = fill_lines lines (put line i) in
    if is_fill line then more else ok (line, record i { rest = lines })

-- The lines from `buf` on up to the one that begins with `word`, or to `.END`: true is found. The
-- line and the lines after it are given.
unfoldable pub search : Text → Text → List Text → Res (Bool × Text × List Text)
search word buf [] =
    if starts_with buf word
    then ok (true, buf, [])
    else if is_end buf
    then ok (false, buf, [])
    else stop forever
search word buf (next ∷ lines) =
    let later = search word next lines in
    if starts_with buf word
    then ok (true, buf, next ∷ lines)
    else if is_end buf
    then ok (false, buf, next ∷ lines)
    else later

-- Readline.
abbrev pub read_line : List Text → Text × List Text
read_line [] = ([], [])
read_line (line ∷ lines) = (line, lines)
