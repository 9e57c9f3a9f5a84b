-- ===== src/Sim/Address.antt =====
-- The arguments of commands: parse_address and parse_range of lc3tools/lc3sim.c. An `int` is its 32
-- bits, and the result -1 is `none`.
pub mod Range
use lc3_script_tools.Base.{
  ℕ, ◌+◌, ◌*◌, ◌-◌, ◌%◌, ◌^◌, Bool, true, false, not, Option, none, some, List, [], ◌∷◌, ◌==◌, ltb,
  leb, ◌&&◌, ◌||◌, if◌then◌else◌, length,
}
use lc3_script_tools.Symbol.Names.{tolower, same_name}
use lc3_script_tools.Symbol.Table.{Table, find_symbol}
use lc3_script_tools.Sim.Text.{Text, text}
use lc3_script_tools.Sim.Inst.{r_pc}
use lc3_script_tools.Sim.State.{M, ◌>>=◌, ◌>>◌, pure, gets, when, get_reg, puts, plainly}
use lc3_script_tools.Sim.Scan.{scan_words, scan_dec, scan_hex, no_trash}

abbrev is_negative : ℕ → Bool
is_negative v = leb (2 ^ 31) v

abbrev minus_one : ℕ
minus_one = 2 ^ 32 - 1

abbrev pub as_result : ℕ → Option ℕ
as_result v = if v == minus_one then none else some v

-- `sscanf (addr, fmt, &value, trash) == 1` with the three formats.
abbrev pub complete : Option (ℕ × Text) → Option ℕ
complete none = none
complete (some v) = if no_trash v.1 then some v.0 else none

unfoldable pub scan_value : Text → Option ℕ
unfolding scan_dec scan_hex no_trash tolower
scan_value [] = none
scan_value (c ∷ t) =
    if c == 35
    then complete (scan_dec t)
    else if tolower c == 120
    then if c == 120 then complete (scan_hex t) else none
    else complete (scan_hex (c ∷ t))

-- The values that are refused.
unfoldable pub out_of_range : Bool → ℕ → Bool
out_of_range negated v =
    (not (is_negative v) && ltb 0xffff v)
    || (negated && is_negative v)
    || (not negated && is_negative v && ltb v (2 ^ 32 - 0xffff))

-- `-value` if it is negated, then `value + 0x10000` if it is negative.
unfoldable pub as_address : Bool → ℕ → ℕ
as_address negated v =
    let w = if negated then (2 ^ 32 - v) % 2 ^ 32 else v in
    if is_negative w then (w + 0x10000) % 2 ^ 32 else w

unfoldable pub parse_number : Bool → Text → Option ℕ
unfolding scan_value out_of_range as_address
parse_number negated addr = elim (scan_value addr) [
  | none ↦ none
  | some v ↦ if out_of_range negated v then none else as_result (as_address negated v)
]

unfoldable pub parse_unsigned : Bool → Text → Table → Option ℕ
unfolding parse_number
parse_unsigned negated addr t = elim (find_symbol addr t) [
  | none ↦ parse_number negated addr
  | some p ↦ as_result (as_address negated (t.symbols p).addr)
]

unfoldable pub parse_address : Text → Table → Option ℕ
unfolding parse_unsigned
parse_address [] t = parse_unsigned false [] t
parse_address (c ∷ addr) t =
    if c == 45 then parse_unsigned true addr t else parse_unsigned false (c ∷ addr) t

unfoldable pub warn_too_many_args : M (Unit {0})
warn_too_many_args = plainly (puts (text "WARNING: Ignoring excess arguments."))

unfoldable pub no_args_allowed : Text → M (Unit {0})
no_args_allowed [] = pure tt
no_args_allowed (c ∷ args) = warn_too_many_args

unfoldable pub warn_if_more : List Text → M (Unit {0})
warn_if_more [] = pure tt
warn_if_more (w ∷ ws) = warn_too_many_args

abbrev pub bad_address : Text
bad_address = text "Addresses must be labels or values in the range x0000 to xFFFF."

-- `2 * scale`, where -1 is `none`.
abbrev pub twice : Option ℕ → ℕ
twice none = 2 ^ 32 - 2
twice (some scale) = 2 * scale

abbrev scaled : ℕ → Option ℕ → Option (ℕ × ℕ)
scaled start scale = some (start, (start + twice scale) % 65536)

-- The end that was asked for is in the range, if there is automatic scaling.
abbrev inclusive : Option ℕ → ℕ → ℕ
inclusive none end = end
inclusive (some scale) end = (end + 1) % 65536

-- After the arguments were split; the fourth is only counted.
unfoldable parse_second : ℕ → List Text → Option ℕ → M (Option (ℕ × ℕ))
parse_second start [] scale = pure (scaled start scale)
parse_second start (arg2 ∷ trash) scale = do
  parsed ← gets (λ s. parse_address arg2 s.symbols)
  elim parsed [
    | none ↦ pure none
    | some end ↦ do
      when (ltb 0 (length trash)) warn_too_many_args
      pure (some (start, inclusive scale end))
  ]

unfoldable parse_first : List Text → Option ℕ → Option ℕ → M (Option (ℕ × ℕ))
unfolding parse_second
parse_first [] last_end none = pure none
parse_first [] last_end (some scale) = do
  pc ← get_reg r_pc
  pure (some ((pc + 0x10000 - scale) % 65536, (pc + scale) % 65536))
parse_first (arg1 ∷ args) last_end scale = elim last_end [
  | none ↦ no_more
  | some end ↦
      if same_name arg1 (text "more")
      then when (ltb 0 (length args)) warn_too_many_args >> pure (scaled end scale)
      else no_more
]
  where
    no_more : M (Option (ℕ × ℕ))
    no_more = do
      parsed ← gets (λ s. parse_address arg1 s.symbols)
      elim parsed [ none ↦ pure none | some start ↦ parse_second start args scale ]

-- Without automatic scaling both ends are needed.
abbrev too_few : Option ℕ → ℕ → Bool
too_few none n = ltb n 2
too_few (some scale) n = false

unfoldable pub parse_range : Text → Option ℕ → Option ℕ → M (Option (ℕ × ℕ))
unfolding parse_first scan_words
parse_range args last_end scale =
    let words = scan_words (80 ∷ 80 ∷ 1 ∷ []) args in
    if too_few scale (length words) then pure none else parse_first words last_end scale
