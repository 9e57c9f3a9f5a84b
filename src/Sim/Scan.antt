-- ===== src/Sim/Scan.antt =====
-- The conversions of `sscanf` that lc3tools/lc3sim.c uses, as glibc makes them with a long of 64
-- bits.
use lc3_script_tools.Base.{
  ℕ, zero, suc, ◌+◌, ◌*◌, ◌-◌, ◌%◌, ◌^◌, Bool, true, false, Option, none, some, List, [], ◌∷◌, ◌==◌,
  ltb, leb, ◌&&◌, if◌then◌else◌,
}
use lc3_script_tools.Symbol.Names.{tolower}
use lc3_script_tools.Sim.Text.{Text, is_space, skip_spaces}

-- `%ws` after the white space: the word, and what is left.
unfoldable pub take_word : ℕ → Text → Text × Text
unfolding is_space
take_word zero t = ([], t)
take_word (suc w) [] = ([], [])
take_word (suc w) (c ∷ t) =
    let rest = take_word w t in if is_space c then ([], c ∷ t) else (c ∷ rest.0, rest.1)

-- The words that a format `%ws%ws...` converts.
unfoldable pub scan_words : List ℕ → Text → List Text
unfolding take_word
scan_words [] t = []
scan_words (w ∷ ws) t =
    let word = take_word w (skip_spaces t) in
    let rest = scan_words ws word.1 in elim word.0 [ [] ↦ [] | c ∷ more ↦ word.0 ∷ rest ]

-- The value of a digit, 16 for any other byte.
unfoldable pub digit_value : ℕ → ℕ
unfolding tolower
digit_value c =
    if leb 48 c && leb c 57
    then c - 48
    else if leb 97 (tolower c) && leb (tolower c) 102
    then tolower c - 87
    else 16

-- The digits at the front: their number, and what follows them.
unfoldable pub take_digits : ℕ → ℕ → Text → ℕ × Text
unfolding digit_value
take_digits base n [] = (n, [])
take_digits base n (c ∷ t) =
    let rest = take_digits base (n * base + digit_value c) t in
    if ltb (digit_value c) base then rest else (n, c ∷ t)

abbrev pub starts_with_digit : ℕ → Text → Bool
starts_with_digit base [] = false
starts_with_digit base (c ∷ t) = ltb (digit_value c) base

-- An optional sign: true is `-`.
unfoldable pub take_sign : Text → Bool × Text
take_sign [] = (false, [])
take_sign (c ∷ t) = if c == 45 then (true, t) else if c == 43 then (false, t) else (false, c ∷ t)

-- The low 32 bits of a long from strtol, which keeps to its range.
unfoldable pub clamped_int : Bool → ℕ → ℕ
clamped_int minus n =
    if leb (2 ^ 63) n
    then if minus then 0 else 2 ^ 32 - 1
    else if minus
    then (2 ^ 32 - n % 2 ^ 32) % 2 ^ 32
    else n % 2 ^ 32

-- The low 32 bits of an unsigned long from strtoul.
unfoldable pub clamped_unsigned : Bool → ℕ → ℕ
clamped_unsigned minus n =
    if leb (2 ^ 64) n
    then 2 ^ 32 - 1
    else if minus
    then (2 ^ 32 - n % 2 ^ 32) % 2 ^ 32
    else n % 2 ^ 32

-- `%d` and `%x` after the white space: the value, and what is left.
unfoldable pub scan_dec : Text → Option (ℕ × Text)
unfolding take_sign take_digits clamped_int
scan_dec t =
    let signed = take_sign t in
    let number = take_digits 10 0 signed.1 in
    if starts_with_digit 10 signed.1 then some (clamped_int signed.0 number.0, number.1) else none

-- A prefix 0x is passed over, even if no digit follows it: the number is then 0.
unfoldable pub after_prefix : Text → Text
unfolding tolower
after_prefix [] = []
after_prefix (c ∷ []) = c ∷ []
after_prefix (c ∷ d ∷ t) = if c == 48 && tolower d == 120 then t else c ∷ d ∷ t

unfoldable pub scan_hex : Text → Option (ℕ × Text)
unfolding take_sign take_digits clamped_unsigned after_prefix
scan_hex t =
    let signed = take_sign t in
    let number = take_digits 16 0 (after_prefix signed.1) in
    if starts_with_digit 16 signed.1
    then some (clamped_unsigned signed.0 number.0, number.1)
    else none

-- `%1s` after a number converts nothing: only white space is left.
unfoldable pub no_trash : Text → Bool
no_trash t = elim (skip_spaces t) [ [] ↦ true | c ∷ more ↦ false ]
