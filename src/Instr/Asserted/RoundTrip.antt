-- ===== src/Instr/Asserted/RoundTrip.antt =====
-- Words that LC3_MAKE_INSTR_RRI of lc3sim_cpp/instr_maker.h makes with its assertions, read by
-- lc3sim_cpp/instr_parser.h.
use mathlib.Core.Bool.{false≢true}
use native.Mathlib.Nat.{mod-eq_of_lt, div-lt_iff_lt-mul, suc-mul}
use lc3_script_tools.Base.{
  ℕ, zero, suc, ◌+◌, ◌-◌, ◌*◌, ◌/◌, ◌%◌, ◌^◌, ◌≤◌, ◌<◌, ◌≡◌, refl, sym, ◌∙◌, ap, arith, bit_and,
  Bool, true, false, ◌&&◌, none, some, ==→eq,
}
use lc3_script_tools.Base.Bits.{and_shifted, and_mask, two_pow_pos}
use lc3_script_tools.Base.Powers.{two_pow_add}
use lc3_script_tools.Base.Int.{ℤ, pos, negsuc, to_signed, Fits}
use lc3_script_tools.Symbol.Names.{and-true}
use lc3_script_tools.Instr.Layout.{Layout, IsLayout, reg_num2_move_bit}
use lc3_script_tools.Instr.Parser.{int_after_num2}
use lc3_script_tools.Instr.Maker.{outside_mask, magnitude, check_int_with_mask, make_rri}
use lc3_script_tools.Instr.Checks.{outside-eq}
use lc3_script_tools.Instr.RoundTrip.{Reads, rri_round_trip}
use lc3_script_tools.Instr.Asserted.{
  check_digits, asserted, check_opcode, check_regnum, check_int_after_num2, check_head,
  asserted_rri,
}

-- A number of 64 bits without digits above the lowest `k`.
check_digits-lt : (n k : ℕ) → k ≤ 64 → n < 2 ^ 64 → check_digits n k ≡ true → n < 2 ^ k
unfolding check_digits
check_digits-lt n k h small e =
    let p : 2 ^ 64 ≡ 2 ^ (64 - k) * 2 ^ k =
      ap (λ (i : ℕ). 2 ^ i) {x = 64} {y = 64 - k + k} (omega arith) ∙ two_pow_add (64 - k) k in
    let zero' : bit_and n (outside_mask (2 ^ k - 1)) ≡ 0 = ==→eq _ 0 e in
    let split : bit_and n (outside_mask (2 ^ k - 1)) ≡ n / 2 ^ k % 2 ^ (64 - k) * 2 ^ k =
      ap (bit_and n) (outside-eq k h)
      ∙ and_shifted k n (2 ^ (64 - k) - 1)
      ∙ ap (λ (i : ℕ). i * 2 ^ k) (and_mask (64 - k) (n / 2 ^ k)) in
    no_high n (2 ^ (64 - k)) (2 ^ k) (two_pow_pos (64 - k)) (two_pow_pos k) (rw (sym p) small)
      (sym split ∙ zero')
  where
    no_product : (q b : ℕ) → 1 ≤ b → q * b ≡ 0 → q < 1
    no_product zero b h e = omega arith
    no_product (suc q) b h e = absurd (omega (arith, suc-mul q b))

    no_high : (n a b : ℕ) → 1 ≤ a → 1 ≤ b → n < a * b → n / b % a * b ≡ 0 → n < b
    no_high n a b ha hb lt e =
        let quotient : n / b < a = (div-lt_iff_lt-mul hb).1 lt in
        let none_above : n / b * b ≡ 0 = rw (sym (mod-eq_of_lt quotient)) e in
        let zero' : n / b < 1 = no_product (n / b) b hb none_above in
        let below : n < 1 * b = (div-lt_iff_lt-mul hb).0 zero' in omega arith

-- What an assertion let through.
asserted-some :
    (holds : Bool) (word w : ℕ) → asserted holds word ≡ some w → (holds ≡ true) × (word ≡ w)
asserted-some true word w e = (refl, ap (λ o. elim o [ none ↦ word | some x ↦ x ]) e)
asserted-some false word w e =
    absurd (false≢true (ap (λ o. elim o [ none ↦ false | some x ↦ true ]) e))

magnitude-Fits : (n : ℕ) (v : ℤ) → magnitude v < 2 ^ (n - 1) → Fits n v
magnitude-Fits n (pos m) h = h
magnitude-Fits n (negsuc m) h = omega arith

-- A word that LC3_MAKE_INSTR_RRI makes, all of its assertions passed, has the operation code, both
-- register numbers and the signed value that it was made of, in every layout with room for the
-- fields: the mask of the value's assertion is that of a field with one digit less. The arguments
-- are integers of 64 bits.
pub asserted_rri_round_trip :
    {l : Layout} (ok : IsLayout l) (opcode num1 num2 : ℕ) (v : ℤ) (w : ℕ)
    → opcode < 2 ^ 64
    → num1 < 2 ^ 64
    → num2 < 2 ^ 64
    → magnitude v < 2 ^ 64
    → asserted_rri l opcode num1 num2 v ≡ some w
    → Reads l opcode num1 num2 w × (to_signed 64 (int_after_num2 l w) ≡ v)
unfolding asserted_rri check_int_with_mask check_digits
asserted_rri_round_trip {l} ok opcode num1 num2 v w small_op small1 small2 small_v e =
    let (holds, made) =
      asserted-some (check_head l opcode num1 num2 && check_int_after_num2 l v)
        (make_rri l opcode num1 num2 v) w e in
    let (head, value) = and-true (check_head l opcode num1 num2) (check_int_after_num2 l v) holds in
    let (code_num1, second) =
      and-true (check_opcode l opcode && check_regnum l num1) (check_regnum l num2) head in
    let (code, first) = and-true (check_opcode l opcode) (check_regnum l num1) code_num1 in
    rw (sym made) (
      rri_round_trip ok opcode num1 num2
        (check_digits-lt opcode l.op_bc (omega arith) small_op code)
        (check_digits-lt num1 l.rn_bc (omega arith) small1 first)
        (check_digits-lt num2 l.rn_bc (omega arith) small2 second) v
        (magnitude-Fits (reg_num2_move_bit l) v
          (check_digits-lt (magnitude v) (reg_num2_move_bit l - 1) (omega arith) small_v value)))
