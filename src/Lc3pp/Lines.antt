-- ===== src/Lc3pp/Lines.antt =====
-- What lcc-1.3/lc3pp/lc3pp.c reads: Readline, Getword, and the functions of the C library that take
-- texts apart. A buffer that grows to any line is not modelled, so that a line is a text.
use lc3_script_tools.Base.{
  ℕ, zero, suc, ◌==◌, Bool, true, false, ◌&&◌, Option, none, some, List, [], ◌∷◌, ◌++◌,
  if◌then◌else◌,
}
use lc3_script_tools.Sim.Text.{Text, skip_spaces, cut}
use lc3_script_tools.Sim.Scan.{take_sign, take_digits, starts_with_digit, after_prefix, clamped_int}

-- How the program ends other than by going on: a loop that reads past the end of a file for ever, an
-- access outside an array or a text, a failed assertion, and an exit code. `out_of_fuel` is a loop of
-- this model with too little fuel.
pub data Ending : Type 0 where
  forever undefined aborted out_of_fuel : Ending
  exited : ℕ → Ending

pub data Res {ℓ} (A : Type ℓ) : Type ℓ where
  ok : A → Res A
  stop : Ending → Res A

infixl 5 ◌>>=◌
abbrev pub ◌>>=◌ : {A B : Type 0} → Res A → (A → Res B) → Res B
◌>>=◌ (ok a) f = f a
◌>>=◌ (stop r) f = stop r

abbrev pub pure : {A : Type 0} → A → Res A
pure a = ok a

-- A file is the lines that Readline will read from it. Past them it reads the empty line, for ever.
abbrev add_to_first : ℕ → List Text → List Text
add_to_first c [] = (c ∷ []) ∷ []
add_to_first c (l ∷ ls) = (c ∷ l) ∷ ls

unfoldable split_lines : Text → List Text
split_lines [] = [] ∷ []
split_lines (c ∷ t) = let rest = split_lines t in if c == 10 then [] ∷ rest else add_to_first c rest

-- The string that begins a buffer.
unfoldable c_string : Text → Text
c_string [] = []
c_string (c ∷ t) = let rest = c_string t in if c == 0 then [] else c ∷ rest

unfoldable pub strings : List Text → List Text
unfolding c_string
strings [] = []
strings (l ∷ ls) = c_string l ∷ strings ls

unfoldable pub file_lines : Text → List Text
unfolding split_lines strings
file_lines t = strings (split_lines t)

-- `fprintf (file, "%s\n", line)`.
abbrev pub line_of : Text → Text
line_of l = l ++ 10 ∷ []

-- `strncmp (line, prefix, length) == 0`, where the length is that of the prefix.
unfoldable pub starts_with : Text → Text → Bool
starts_with line [] = true
starts_with [] (p ∷ prefix) = false
starts_with (c ∷ line) (p ∷ prefix) = (c == p) && starts_with line prefix

-- `line + n`, which may be the end of the line but not beyond it.
unfoldable pub from : ℕ → Text → Res Text
from zero line = ok line
from (suc n) [] = stop undefined
from (suc n) (c ∷ line) = from n line

-- Getword: the length that it returns, one too many at the end of a line, and the word.
unfoldable word_length : Text → ℕ
word_length [] = 1
word_length (c ∷ []) = 2
word_length (c ∷ d ∷ line) = let rest = word_length (d ∷ line) in if d == 32 then 1 else suc rest

unfoldable pub get_word : Text → ℕ × Text
unfolding word_length
get_word line = (word_length line, cut (word_length line) line)

-- The number at the front, its low 32 bits, with what follows it: `strtol`. `none` is no number.
unfoldable pub strtol : ℕ → Text → Option (ℕ × Text)
unfolding take_sign take_digits after_prefix clamped_int
strtol base line =
    let signed = take_sign (skip_spaces line) in
    let digits = if base == 16 then after_prefix signed.1 else signed.1 in
    let number = take_digits base 0 digits in
    if starts_with_digit base signed.1 then some (clamped_int signed.0 number.0, number.1) else none

unfoldable pub atoi : Text → ℕ
unfolding strtol
atoi line = elim (strtol 10 line) [ none ↦ 0 | some p ↦ p.0 ]

-- The characters up to the first that `ends` a name. The loops have no test for the end of the line.
unfoldable pub take_name : (ℕ → Bool) → Text → Res (Text × Text)
take_name ends [] = stop undefined
take_name ends (c ∷ line) =
    let rest = take_name ends line in
    if ends c then ok ([], c ∷ line) else (rest >>= λ p. ok (c ∷ p.0, p.1))
