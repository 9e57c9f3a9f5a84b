-- ===== src/Lc3pp/Ldr.antt =====
-- check_ldr of lcc-1.3/lc3pp/lc3pp.c. The end of a line is taken for no character that is looked for.
pub mod Decimal
pub mod RoundTrip
use lc3_script_tools.Base.{
  ℕ, ◌+◌, ◌-◌, ◌%◌, ◌^◌, Bool, true, false, ◌||◌, Option, none, some, List, [], ◌∷◌, ◌==◌, ltb,
  if◌then◌else◌,
}
use lc3_script_tools.Sim.Text.{Text, skip_spaces}
use lc3_script_tools.Lc3pp.Lines.{strtol}

-- A `char`, which is signed, as the 32 bits of an int.
abbrev pub char_int : ℕ → ℕ
char_int c = if ltb c 128 then c else 2 ^ 32 + c - 256

-- `if (*c is not one of them) return 0; c++`.
abbrev expect : (ℕ → Bool) → Text → Option Text
expect is [] = none
expect is (c ∷ t) = if is c then some t else none

abbrev then_text : Option Text → (Text → Option ℕ) → Option ℕ
then_text none f = none
then_text (some t) f = f t

-- A letter, or its capital.
abbrev pub letter : ℕ → ℕ → Bool
letter small c = (c == small) || (c == small - 32)

-- R and the digit of the register, and spaces after it.
unfoldable pub expect_register : ℕ → Text → (Text → Option ℕ) → Option ℕ
expect_register reg_num t f =
    then_text (expect (letter 114) t)
      λ t. then_text (expect (λ c. char_int c == (reg_num + 48) % 2 ^ 32) t) λ t. f (skip_spaces t)

unfoldable pub expect_comma : Text → (Text → Option ℕ) → Option ℕ
expect_comma t f = then_text (expect (λ c. c == 44) t) λ t. f (skip_spaces t)

-- A number is not asked for after `x`: without one the offset is 0.
unfoldable pub ldr_offset : Text → Option ℕ
unfolding strtol
ldr_offset [] = none
ldr_offset (c ∷ t) =
    if letter 120 c
    then elim (strtol 16 t) [ none ↦ some 0 | some p ↦ some p.0 ]
    else elim (strtol 10 (if c == 35 then t else c ∷ t)) [ none ↦ none | some p ↦ some p.0 ]

-- The offset, if the line loads the register through itself.
unfoldable pub check_ldr : Text → ℕ → Option ℕ
unfolding expect_register expect_comma ldr_offset
check_ldr line reg_num = then_text (expect (letter 108) (skip_spaces line)) λ t.
    then_text (expect (letter 100) t) λ t. then_text (expect (letter 114) t) λ t.
      expect_register reg_num (skip_spaces t)
        λ t. expect_comma t λ t. expect_register reg_num t λ t. expect_comma t λ t. ldr_offset t
