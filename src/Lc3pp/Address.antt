-- ===== src/Lc3pp/Address.antt =====
-- calculate_address of lcc-1.3/lc3pp/lc3pp.c: the code for an address, or for the value at it. What
-- the function puts out is a list of lines, and `printed` the text of each.
pub mod Machine
pub mod Encoded
pub mod Sum
pub mod Steps
pub mod Constant
pub mod Cases
pub mod Correct
use lc3_script_tools.Base.{
  ℕ, zero, suc, ◌+◌, ◌-◌, ◌*◌, Bool, true, false, List, [], ◌∷◌, ◌++◌, ltb, leb, ◌==◌,
  if◌then◌else◌,
}
use lc3_script_tools.Base.Int.{ℤ, pos, negsuc, of_signed}
use lc3_script_tools.Sim.Text.{Text, text, dec, pad_right}

-- The formats of the calls of fprintf. `base` in `add_imm` and `ldr` is the register of the
-- instruction, `from` and `sum` are those of its comment.
pub data Line : Type 0 where
  add_imm : (dst base : ℕ) (add_offset : ℤ) (from : ℕ) (sum : ℤ) → Line
  add_zero : (dst base : ℕ) → Line
  br_over : Line
  fill : (offset : ℤ) → Line
  ld_back : (dst : ℕ) → Line
  add_reg : (dst base other : ℕ) → Line
  ldr : (dst base : ℕ) (offset : ℤ) (from : ℕ) (sum : ℤ) → Line

-- A number by its sign and its magnitude.
abbrev pub is_below : ℤ → Bool
is_below (pos n) = false
is_below (negsuc n) = true

abbrev pub size : ℤ → ℕ
size (pos n) = n
size (negsuc n) = suc n

abbrev pub signed : Bool → ℕ → ℤ
signed below zero = pos 0
signed true (suc n) = negsuc n
signed false (suc n) = pos (suc n)

-- MIN and MAX.
abbrev pub least : ℕ → ℕ → ℕ
least x y = if ltb x y then x else y

-- The bounds of an immediate and of an offset, and of what three ADDs can do.
abbrev pub add_bound : Bool → ℕ
add_bound below = if below then 16 else 15

abbrev pub ldr_bound : Bool → ℕ
ldr_bound below = if below then 32 else 31

-- The two loops `while (offset)`, for an offset above and below 0, given by its magnitude: every turn
-- takes at least 1 from it, so that as much fuel is enough.
unfoldable pub add_steps : Bool → ℕ → ℕ → ℕ → ℕ → ℕ → ℕ → List Line
add_steps below from dst zero base offset sum = []
add_steps below from dst (suc fuel) base offset sum =
    let n = least offset (add_bound below) in
    let rest = add_steps below from dst fuel dst (offset - n) (sum + n) in
    if offset == 0
    then []
    else add_imm dst base (signed below n) from (signed below (sum + n)) ∷ rest

-- The constant after the code that jumps over it.
abbrev pub constant_lines : ℕ → ℕ → ℤ → List Line
constant_lines dst base offset = br_over ∷ fill offset ∷ ld_back dst ∷ add_reg dst base dst ∷ []

abbrev ldr_line : Bool → ℕ → ℕ → ℤ → ℕ → ℤ → List Line
ldr_line with_ldr dst base offset from sum =
    if with_ldr then ldr dst base offset from sum ∷ [] else []

unfoldable pub calculate_address : ℕ → ℕ → ℤ → Bool → List Line
unfolding add_steps
calculate_address dst base offset with_ldr =
    let below = is_below offset in
    let ldr_offset = if with_ldr then least (size offset) (ldr_bound below) else 0 in
    let rest = size offset - ldr_offset in
    if size offset == 0
    then (if with_ldr then [] else add_zero dst base ∷ [])
      ++ ldr_line with_ldr dst base (pos 0) base (pos 0)
    else if leb rest (add_bound below * 3)
    then add_steps below base dst rest base rest 0
      ++ ldr_line with_ldr dst (if rest == 0 then base else dst) (signed below ldr_offset) base
          offset
    else constant_lines dst base offset ++ ldr_line with_ldr dst dst (pos 0) base offset

-- `%d`, and `%-4d`.
abbrev pub number : ℤ → Text
number v = dec (of_signed 32 v)

abbrev pub reg : ℕ → Text
reg r = text "R" ++ dec r

abbrev comment : ℤ → ℕ → ℤ → Text
comment v from sum =
    text "#"
    ++ pad_right 4 (number v)
    ++ text "\t; "
    ++ reg from
    ++ text "["
    ++ number sum
    ++ text "]\n"

unfoldable pub printed : Line → Text
printed (add_imm dst base v from sum) =
    text "ADD " ++ reg dst ++ text ", " ++ reg base ++ text ", " ++ comment v from sum
printed (add_zero dst base) = text "ADD " ++ reg dst ++ text ", " ++ reg base ++ text ", 0\n"
printed br_over = text "BR #1\n"
printed (fill offset) = text ".FILL #" ++ number offset ++ text "\n"
printed (ld_back dst) = text "LD " ++ reg dst ++ text ", #-2\n"
printed (add_reg dst base other) =
    text "ADD " ++ reg dst ++ text ", " ++ reg base ++ text ", " ++ reg other ++ text "\n"
printed (ldr dst base v from sum) =
    text "LDR " ++ reg dst ++ text ", " ++ reg base ++ text ", " ++ comment v from sum

unfoldable pub printed_all : List Line → Text
unfolding printed
printed_all [] = []
printed_all (l ∷ ls) = printed l ++ printed_all ls
