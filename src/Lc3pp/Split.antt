-- ===== src/Lc3pp/Split.antt =====
-- The second part of main of lcc-1.3/lc3pp/lc3pp.c: variables and code go into two files, and the
-- sizes of the variables into a table. A file that is written and read again is a list of lines.
pub mod Layout
use lc3_script_tools.Base.{
  ℕ, zero, suc, ◌+◌, ◌%◌, ◌^◌, Bool, true, false, List, [], ◌∷◌, ◌++◌, ◌==◌, if◌then◌else◌, map,
}
use lc3_script_tools.Sim.Text.{Text, text, same_text}
use lc3_script_tools.Lc3pp.Lines.{
  Res, ok, stop, forever, undefined, ◌>>=◌, starts_with, from, get_word, atoi,
}

-- The sizes are ints, by their 32 bits.
pub record Variable : Type 0 where
  pub name : Text
  pub size : ℕ

-- The lines of var_file and code_file, and g_vars, the last variable first.
pub record Parts : Type 0 where
  pub vars : List Text
  pub code : List Text
  pub g_vars : List Variable

abbrev add_var : Text → Parts → Parts
add_var l p = record p { vars = p.vars ++ l ∷ [] }

abbrev add_code : Text → Parts → Parts
add_code l p = record p { code = p.code ++ l ∷ [] }

-- `g_vars[g_num].size += n`, where g_num may be -1.
unfoldable grow : ℕ → Parts → Res Parts
grow n p = elim p.g_vars [
  | [] ↦ stop undefined
  | v ∷ vs ↦ ok (record p { g_vars = record v { size = (v.size + n) % 2 ^ 32 } ∷ vs })
]

abbrev new_variable : Text → ℕ → Parts → Parts
new_variable name n p = record p { g_vars = record { name = name; size = n } ∷ p.g_vars }

-- More words for the last variable; `l` is the line from its column 10 on.
unfoldable more_fill : Text → Parts → Res Parts
unfolding grow
more_fill l p = grow 1 (add_var l p)

unfoldable more_blkw : Text → Text → Parts → Res Parts
unfolding grow atoi
more_blkw line l p = from 16 line >>= λ n. grow (atoi n) (add_var l p)

unfoldable more_stringz : Text → Parts → Res Parts
unfolding grow atoi get_word
more_stringz line p = from 19 line >>= λ l.
    let word = get_word l in
    from word.0 l >>= λ t. grow (atoi l) (add_var (text ".STRINGZ " ++ t) p)

-- The declaration of a new variable.
unfoldable declaration : Text → Text → Parts → Res Parts
unfolding get_word atoi
declaration line l p =
    let word = get_word l in
    from (word.0 + 21) line >>= λ t.
    if starts_with t (text ".FILL")
    then ok (new_variable word.1 1 (add_var (word.1 ++ text " " ++ t) p))
    else if starts_with t (text ".BLKW")
    then (from (word.0 + 26) line >>= λ n.
        ok (new_variable word.1 (atoi n) (add_var (word.1 ++ text " " ++ t) p)))
    else (from (word.0 + 30) line >>= λ n.
        let size_word = get_word n in
        from (word.0 + size_word.0 + 31) line >>= λ s.
        ok (new_variable word.1 (atoi size_word.1) (add_var (word.1 ++ text " .STRINGZ " ++ s) p)))

unfoldable variable_line : Text → Parts → Res Parts
unfolding more_fill more_blkw more_stringz declaration
variable_line line p = from 10 line >>= λ l.
    if starts_with l (text ".FILL")
    then more_fill l p
    else if starts_with l (text ".BLKW")
    then more_blkw line l p
    else if starts_with l (text ".STRINGZ")
    then more_stringz line p
    else declaration line l p

abbrev pub is_end : Text → Bool
is_end line = starts_with line (text ".END")

-- A line of code, unless it is an `.extern`.
abbrev code_line : Text → Parts → Parts
code_line line p = if starts_with line (text ".extern") then p else add_code line p

-- The loop over the complete file.
unfoldable pub split : List Text → Parts → Res Parts
unfolding variable_line
split [] p = stop forever
split (line ∷ lines) p =
    let variable = variable_line line p >>= λ q. split lines q in
    let code = split lines (code_line line p) in
    if starts_with line (text "LC3_GFLAG")
    then variable
    else if is_end line
    then ok (add_var line (code_line line p))
    else code

abbrev pub no_parts : Parts
no_parts = record { vars = []; code = []; g_vars = [] }

-- The table in its order.
unfoldable pub in_order : List Variable → List Variable
in_order [] = []
in_order (v ∷ vs) = in_order vs ++ v ∷ []

-- `for (i=0; i<g_num; i++)`: the last variable is not compared, so that its place is also that of a
-- name that is not there.
unfoldable pub glob_offset : List Variable → Text → ℕ
glob_offset [] name = 0
glob_offset (v ∷ []) name = 0
glob_offset (v ∷ w ∷ vs) name =
    let rest = glob_offset (w ∷ vs) name in
    if same_text v.name name then 0 else (v.size + rest) % 2 ^ 32
