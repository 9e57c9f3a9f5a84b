-- ===== src/Sim/Address/Range.antt =====
-- What parse_address of lc3tools/lc3sim.c gives is an address.
use lc3_script_tools.Base.{
  ℕ, ◌-◌, ◌^◌, ◌<◌, ◌≡◌, refl, arith, Bool, true, false, Option, none, some, [], ◌∷◌, ◌==◌,
  if◌then◌else◌,
}
use lc3_script_tools.Symbol.Names.{tolower}
use lc3_script_tools.Symbol.Table.{Table, find_symbol}
use lc3_script_tools.Sim.Text.{Text}
use lc3_script_tools.Sim.Scan.{
  take_sign, take_digits, starts_with_digit, after_prefix, clamped_int, clamped_unsigned, scan_dec,
  scan_hex, no_trash,
}
use lc3_script_tools.Sim.Address.{
  as_result, complete, scan_value, out_of_range, as_address, parse_number, parse_unsigned,
  parse_address,
}

-- A result, if there is one, is below a bound.
abbrev pub IsBelow : ℕ → Option ℕ → Type 0
IsBelow m none = Unit {0}
IsBelow m (some v) = v < m

-- Every symbol stands for an address.
abbrev pub HasAddresses : Table → Type 0
HasAddresses t = (p : ℕ) → (t.symbols p).addr < 2 ^ 16

clamped_int-lt : (minus : Bool) (n : ℕ) → clamped_int minus n < 2 ^ 32
unfolding clamped_int
clamped_int-lt minus n = ground arith

clamped_unsigned-lt : (minus : Bool) (n : ℕ) → clamped_unsigned minus n < 2 ^ 32
unfolding clamped_unsigned
clamped_unsigned-lt minus n = ground arith

if-IsBelow :
    (m : ℕ) (b : Bool) (x y : Option ℕ)
    → (b ≡ true → IsBelow m x)
    → (b ≡ false → IsBelow m y)
    → IsBelow m (if b then x else y)
if-IsBelow m true x y h g = h refl
if-IsBelow m false x y h g = g refl

complete-IsBelow :
    (m : ℕ) (b : Bool) (v : ℕ) (t : Text)
    → v < m
    → IsBelow m (complete (if b then some (v, t) else none))
unfolding no_trash
complete-IsBelow m true v t h = if-IsBelow m (no_trash t) (some v) none (λ _. h) (λ _. tt)
complete-IsBelow m false v t h = tt

scan_dec-IsBelow : (t : Text) → IsBelow (2 ^ 32) (complete (scan_dec t))
unfolding scan_dec
scan_dec-IsBelow t =
    let signed = take_sign t in
    let number = take_digits 10 0 signed.1 in
    complete-IsBelow (2 ^ 32) (starts_with_digit 10 signed.1) (clamped_int signed.0 number.0)
      number.1 (clamped_int-lt signed.0 number.0)

scan_hex-IsBelow : (t : Text) → IsBelow (2 ^ 32) (complete (scan_hex t))
unfolding scan_hex
scan_hex-IsBelow t =
    let signed = take_sign t in
    let number = take_digits 16 0 (after_prefix signed.1) in
    complete-IsBelow (2 ^ 32) (starts_with_digit 16 signed.1) (clamped_unsigned signed.0 number.0)
      number.1 (clamped_unsigned-lt signed.0 number.0)

scan_value-IsBelow : (t : Text) → IsBelow (2 ^ 32) (scan_value t)
unfolding scan_value
scan_value-IsBelow [] = tt
scan_value-IsBelow (c ∷ t) =
    if-IsBelow (2 ^ 32) (c == 35) _ _ (λ _. scan_dec-IsBelow t)
      (λ _.
        if-IsBelow (2 ^ 32) (tolower c == 120) _ _
          (λ _. if-IsBelow (2 ^ 32) (c == 120) _ _ (λ _. scan_hex-IsBelow t) (λ _. tt))
          (λ _. scan_hex-IsBelow (c ∷ t)))

as_result-IsBelow : (m v : ℕ) → v < m → IsBelow m (as_result v)
as_result-IsBelow m v h = if-IsBelow m (v == 2 ^ 32 - 1) none (some v) (λ _. tt) (λ _. h)

-- What is not refused comes to lie in the memory.
as_address-lt :
    (negated : Bool) (v : ℕ)
    → v < 2 ^ 32
    → out_of_range negated v ≡ false
    → as_address negated v < 2 ^ 16
unfolding out_of_range as_address
as_address-lt negated v h e = ground arith

-- The address of a symbol, negated or not.
as_address-lt_word : (negated : Bool) (v : ℕ) → v < 2 ^ 16 → as_address negated v < 2 ^ 16
unfolding as_address
as_address-lt_word negated v h = ground arith

parse_number-IsBelow : (negated : Bool) (addr : Text) → IsBelow (2 ^ 16) (parse_number negated addr)
unfolding parse_number
parse_number-IsBelow negated addr = go (scan_value addr) (scan_value-IsBelow addr)
  where
    go :
        (o : Option ℕ)
        → IsBelow (2 ^ 32) o
        → IsBelow (2 ^ 16) (elim o [
          | none ↦ none
          | some v ↦ if out_of_range negated v then none else as_result (as_address negated v)
        ])
    go none h = tt
    go (some v) h =
        if-IsBelow (2 ^ 16) (out_of_range negated v) none _ (λ _. tt)
          (λ e. as_result-IsBelow (2 ^ 16) _ (as_address-lt negated v h e))

module _ (t : Table) (h : HasAddresses t) where
  parse_unsigned-IsBelow :
      (negated : Bool) (addr : Text) → IsBelow (2 ^ 16) (parse_unsigned negated addr t)
  unfolding parse_unsigned
  parse_unsigned-IsBelow negated addr = go (find_symbol addr t)
    where
      go :
          (o : Option ℕ)
          → IsBelow (2 ^ 16) (elim o [
            | none ↦ parse_number negated addr
            | some p ↦ as_result (as_address negated (t.symbols p).addr)
          ])
      go none = parse_number-IsBelow negated addr
      go (some p) = as_result-IsBelow (2 ^ 16) _ (as_address-lt_word negated _ (h p))

  pub parse_address-IsBelow : (addr : Text) → IsBelow (2 ^ 16) (parse_address addr t)
  unfolding parse_address
  parse_address-IsBelow [] = parse_unsigned-IsBelow false []
  parse_address-IsBelow (c ∷ addr) =
      if-IsBelow (2 ^ 16) (c == 45) _ _ (λ _. parse_unsigned-IsBelow true addr)
        (λ _. parse_unsigned-IsBelow false (c ∷ addr))
