-- ===== src/Lc3pp/Paste.antt =====
-- lcc-1.3/lc3pp/SourcePaste.c: the lines of C put in front of their code. The file that is written is
-- none of those that are read.
pub mod Sequence
pub mod Listing
pub mod Files
pub mod Directives
pub mod Invariant
pub mod Main
use lc3_script_tools.Base.{
  ℕ, zero, suc, ◌+◌, ◌-◌, ◌^◌, Bool, true, false, not, ◌&&◌, ◌||◌, Option, none, some, List, [],
  ◌∷◌, ◌++◌, ◌==◌, ltb, leb, if◌then◌else◌, length,
}
use lc3_script_tools.Sim.Text.{Text, text, dec, pad_right, skip_spaces}
use lc3_script_tools.Sim.Scan.{take_word, scan_dec}
use lc3_script_tools.Lc3pp.Lines.{
  Res, ok, stop, undefined, exited, ◌>>=◌, strings, starts_with, from,
}

abbrev max_file_count : ℕ
max_file_count = 10

abbrev line_size : ℕ
line_size = 512

-- An entry of srcNames, srcFiles and srcLastLineNo: what fgets will read from the file, and the number
-- of the line read last.
pub record SourceFile : Type 0 where
  pub name : Text
  pub rest : List Text
  pub last : ℕ

pub record Pasting : Type 0 where
  pub sources : List SourceFile
  pub out : Text

-- The pieces that fgets reads, where `room` bytes are left in the buffer.
abbrev add_in_front : ℕ → List Text → List Text
add_in_front c [] = (c ∷ []) ∷ []
add_in_front c (l ∷ ls) = (c ∷ l) ∷ ls

unfoldable pieces : ℕ → Text → List Text
pieces room [] = []
pieces room (c ∷ t) =
    let new = pieces (line_size - 1) t in
    let more = pieces (room - 1) t in
    if (c == 10) || (room == 1) then (c ∷ []) ∷ new else add_in_front c more

unfoldable pub file_pieces : Text → List Text
unfolding pieces strings
file_pieces t = strings (pieces (line_size - 1) t)

unfoldable is_blank : Text → Bool
unfolding skip_spaces
is_blank line = elim (skip_spaces line) [ [] ↦ true | c ∷ t ↦ false ]

abbrev numbered_line : Text → ℕ → Text → Text
numbered_line name i line =
    text ";|" ++ name ++ text ":" ++ pad_right 3 (dec i) ++ text "| " ++ line

-- The text of a line that is not empty.
unfoldable pub pasted : Text → ℕ → Text → Text
unfolding is_blank
pasted name i line = if is_blank line then [] else numbered_line name i line

-- The loop, from line `i` on: the number of the last line, the lines left, and what is put out.
unfoldable pub output_lines : ℕ → Text → ℕ → List Text → ℕ × List Text × Text
unfolding pasted
output_lines until_line name i [] = (i, [], [])
output_lines until_line name i (line ∷ lines) =
    let rest = output_lines until_line name (i + 1) lines in
    if ltb i until_line
    then (rest.0, rest.1, pasted name (i + 1) line ++ rest.2)
    else (i, line ∷ lines, [])

unfoldable pub output_source : ℕ → SourceFile → SourceFile × Text
unfolding output_lines
output_source until_line s =
    let done = output_lines until_line s.name s.last s.rest in
    (record s { rest = done.1; last = done.0 }, done.2)

-- OutputSource of a file by its number.
unfoldable pub output_nth : ℕ → ℕ → List SourceFile → List SourceFile × Text
unfolding output_source
output_nth n until_line [] = ([], [])
output_nth zero until_line (s ∷ ss) = let done = output_source until_line s in (done.0 ∷ ss, done.1)
output_nth (suc n) until_line (s ∷ ss) =
    let done = output_nth n until_line ss in (s ∷ done.0, done.1)

-- A number, and what follows the colon after it: `%d:`.
unfoldable scan_id : Text → Option (ℕ × Text)
unfolding scan_dec
scan_id args = elim (scan_dec (skip_spaces args)) [
  | none ↦ none
  | some p ↦ elim p.1 [ [] ↦ none | c ∷ t ↦ if c == 58 then some (p.0, t) else none ]
]

-- `sscanf (args, "%d:%s\n", &id, srcLine) == 2`.
unfoldable pub scan_file_args : Text → Option (ℕ × Text)
unfolding scan_id take_word
scan_file_args args = elim (scan_id args) [
  | none ↦ none
  | some p ↦
      let word = take_word (length p.1) (skip_spaces p.1) in
      elim word.0 [ [] ↦ none | c ∷ t ↦ some (p.0, c ∷ t) ]
]

-- `sscanf (args, "%d:%d\n", &id, &line) == 2`.
unfoldable pub scan_line_args : Text → Option (ℕ × ℕ)
unfolding scan_id scan_dec
scan_line_args args = elim (scan_id args) [
  | none ↦ none
  | some p ↦ elim (scan_dec (skip_spaces p.1)) [ none ↦ none | some q ↦ some (p.0, q.0) ]
]

abbrev pub put_text : Text → Pasting → Pasting
put_text t p = record p { out = p.out ++ t }

abbrev wrong_format : Text
wrong_format = text "; ERROR: wrong format of debug directive arguments:\n"

unfoldable pub add_source : Text → Text → Pasting → Res Pasting
unfolding file_pieces
add_source name bytes p =
    if ltb (length p.sources) max_file_count
    then ok (record p {
      sources = p.sources ++ record { name = name; rest = file_pieces bytes; last = 0 } ∷ [];
    })
    else stop undefined

-- What fopen finds, and an eleventh file is written past the ends of the arrays.
abbrev pub open_source : Text → Text → Option Text → Pasting → Res Pasting
open_source line name none p =
    ok (put_text (text "; ERROR: Unable to open \"" ++ name ++ text "\" file :\n" ++ line) p)
open_source line name (some bytes) p = add_source name bytes p

abbrev wrong_id : Text → ℕ → ℕ → Text
wrong_id line id expected =
    text "; ERROR: Unexpected file id ("
    ++ dec id
    ++ text ") should be "
    ++ dec expected
    ++ text ":\n"
    ++ line

-- `.debug file`, with what sscanf finds.
abbrev pub file_found : (Text → Option Text) → Text → Option (ℕ × Text) → Pasting → Res Pasting
file_found files line none p = ok (put_text (wrong_format ++ line) p)
file_found files line (some a) p =
    let expected = length p.sources + 1 in
    if not (a.0 == expected)
    then ok (put_text (wrong_id line a.0 expected) p)
    else open_source line a.1 (files a.1) p

unfoldable pub file_directive : (Text → Option Text) → Text → Text → Pasting → Res Pasting
unfolding scan_file_args
file_directive files line args p = file_found files line (scan_file_args args) p

-- An int that is not below 0, and 0 for one that is.
abbrev pub not_below_zero : ℕ → ℕ
not_below_zero v = if ltb v (2 ^ 31) then v else 0

unfoldable pub paste_to : ℕ → ℕ → Pasting → Pasting
unfolding output_nth
paste_to n until_line p =
    let done = output_nth n until_line p.sources in
    record { sources = done.0; out = p.out ++ done.1 }

abbrev unknown_id : Text → ℕ → ℕ → Text
unknown_id line id count =
    text "; ERROR: Unexpected file id ("
    ++ dec id
    ++ text ") should be less in [1,"
    ++ dec count
    ++ text "]:\n"
    ++ line

-- `.debug line`, with what sscanf finds.
abbrev pub line_found : Text → Option (ℕ × ℕ) → Pasting → Pasting
line_found line none p = put_text (wrong_format ++ line) p
line_found line (some a) p =
    if (not_below_zero a.0 == 0) || ltb (length p.sources) (not_below_zero a.0)
    then put_text (unknown_id line a.0 (length p.sources)) p
    else paste_to (a.0 - 1) (not_below_zero a.1) p

unfoldable pub line_directive : Text → Text → Pasting → Pasting
unfolding scan_line_args
line_directive line args p = line_found line (scan_line_args args) p

unfoldable pub debug_line : (Text → Option Text) → Text → Pasting → Res Pasting
unfolding file_directive line_directive
debug_line files line p = from 7 line >>= λ directive.
    if starts_with directive (text "file ")
    then (from 5 directive >>= λ args. file_directive files line args p)
    else if starts_with directive (text "line ")
    then (from 5 directive >>= λ args. ok (line_directive line args p))
    else ok p

-- A line of the assembly.
unfoldable pub paste_line : (Text → Option Text) → Bool → Text → Pasting → Res Pasting
unfolding debug_line
paste_line files omit line p =
    if starts_with line (text ".debug ")
    then debug_line files line (if omit then p else put_text line p)
    else if omit && starts_with line (text "; .debug ")
    then ok p
    else ok (put_text line p)

unfoldable pub paste_lines : (Text → Option Text) → Bool → List Text → Pasting → Res Pasting
unfolding paste_line
paste_lines files omit [] p = ok p
paste_lines files omit (line ∷ lines) p =
    paste_line files omit line p >>= λ q. paste_lines files omit lines q
