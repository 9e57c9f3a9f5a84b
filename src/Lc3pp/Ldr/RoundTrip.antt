-- ===== src/Lc3pp/Ldr/RoundTrip.antt =====
-- The LDR that calculate_address prints, as check_ldr reads it.
use mathlib.Core.List.{append_assoc}
use lc3_script_tools.Base.{
  ℕ, zero, suc, ◌+◌, ◌-◌, ◌/◌, ◌%◌, ◌^◌, ◌<◌, ◌≡◌, refl, arith, true, some, [], ◌∷◌, ◌++◌, ◌==◌,
  ltb, length,
}
use lc3_script_tools.Base.Int.{ℤ, of_signed, Fits}
use lc3_script_tools.Sim.Text.{Text, text, dec, digits, repeat, pad_right, skip_spaces, is_space}
use lc3_script_tools.Symbol.Names.{tolower}
use lc3_script_tools.Sim.Scan.{digit_value}
use lc3_script_tools.Lc3pp.Address.{ldr, printed, number, reg}
use lc3_script_tools.Lc3pp.Ldr.{char_int, expect_register, expect_comma, ldr_offset, check_ldr}
use lc3_script_tools.Lc3pp.Ldr.Decimal.{Stops, strtol-number}

dec_digit : (r : ℕ) → r < 8 → dec r ≡ (48 + r) ∷ []
unfolding dec digits
dec_digit r h =
    let small : ltb r (2 ^ 31) ≡ true = ground arith in
    let one : (r / 10 == 0) ≡ true = ground arith in
    let same : r % 10 ≡ r = omega arith in
    let low : ltb r 10 ≡ true = ground arith in rw (small, one, same, low) refl

padding-Stops : (n : ℕ) (t : Text) → Stops (repeat n 32 ++ 9 ∷ t)
unfolding repeat digit_value tolower
padding-Stops zero t = refl
padding-Stops (suc n) t = refl

offset_read :
    (v : ℤ) (a b c d : Text)
    → Fits 32 v
    → ldr_offset (text "#" ++ (pad_right 4 (number v) ++ text "\t; " ++ a ++ b ++ c ++ d))
      ≡ some (of_signed 32 v)
unfolding ldr_offset pad_right text
offset_read v a b c d f =
    let n = number v in
    let gap = repeat (4 - length n) 32 in
    let after = 59 ∷ 32 ∷ (a ++ (b ++ (c ++ d))) in
    let e : n ++ gap ++ text "\t; " ++ a ++ b ++ c ++ d ≡ n ++ (gap ++ 9 ∷ after) =
      simp append_assoc in
    rw (e, strtol-number v (gap ++ 9 ∷ after) f (padding-Stops (4 - length n) after)) refl

same_char : (r : ℕ) → r < 8 → (char_int (48 + r) == (r + 48) % 2 ^ 32) ≡ true
same_char r h = ground arith

-- The line that calculate_address prints for an LDR of a register 0 to 7 through itself, whatever its
-- comment and its offset of 32 bits: check_ldr takes it for one, and reads the offset.
pub check_ldr-printed :
    (r : ℕ) (v : ℤ) (from : ℕ) (sum : ℤ)
    → r < 8
    → Fits 32 v
    → check_ldr (printed (ldr r r v from sum)) r ≡ some (of_signed 32 v)
unfolding check_ldr printed expect_register expect_comma text skip_spaces is_space
check_ldr-printed r v from sum h f =
    rw (dec_digit r h, same_char r h, same_char r h)
      (offset_read v (reg from) (text "[") (number sum) (text "]\n") f)
