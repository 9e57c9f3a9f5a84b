-- ===== src/Lc3pp/Ldr/Decimal.antt =====
-- `%d` and the functions of the C library that read a decimal number.
use lc3_script_tools.Base.{
  ℕ, zero, suc, ◌+◌, ◌*◌, ◌-◌, ◌%◌, ◌/◌, ◌^◌, ◌≤◌, ◌<◌, ◌≡◌, refl, sym, ◌∙◌, ap, arith, true, false,
  some, [], ◌∷◌, ◌++◌, ◌==◌, ltb, Bool-cases, inl, inr, lt→ltb, ==→eq, ne→==,
}
use native.Mathlib.Nat.{pow-suc}
use lc3_script_tools.Base.Int.{ℤ, pos, negsuc, of_signed, Fits}
use lc3_script_tools.Symbol.Names.{tolower}
use lc3_script_tools.Sim.Text.{Text, digit, digits, dec, skip_spaces, is_space}
use lc3_script_tools.Sim.Scan.{digit_value, take_digits, starts_with_digit, take_sign, clamped_int}
use lc3_script_tools.Lc3pp.Lines.{strtol}
use lc3_script_tools.Lc3pp.Address.{number}

digit_value-digit : (d : ℕ) → d < 10 → digit_value (digit d) ≡ d
unfolding digit_value tolower
digit_value-digit d h = ground arith

one_digit :
    (n d : ℕ) (rest : Text)
    → d < 10
    → take_digits 10 n (digit d ∷ rest) ≡ take_digits 10 (n * 10 + d) rest
unfolding take_digits
one_digit n d rest h = rw (digit_value-digit d h, lt→ltb d 10 h) refl

-- The digits of a number, put before a text, are read back.
take_digits-digits :
    (most v : ℕ) (rest : Text)
    → v < 10 ^ most
    → take_digits 10 0 (digits most 10 v rest) ≡ take_digits 10 v rest
unfolding digits
take_digits-digits zero v rest h = ap (λ (x : ℕ). take_digits 10 x rest) (omega arith)
take_digits-digits (suc most) v rest h =
    let last = one_digit (v / 10) (v % 10) rest (omega arith) in
    let whole : v / 10 * 10 + v % 10 ≡ v = omega arith in
    elim (Bool-cases (v / 10 == 0)) [
      | inl z ↦
          let none : 0 ≡ v / 10 = sym (==→eq (v / 10) 0 z) in
          rw z (
            ap (λ (x : ℕ). take_digits 10 x (digit (v % 10) ∷ rest)) none
            ∙ last
            ∙ ap (λ (x : ℕ). take_digits 10 x rest) whole)
      | inr more ↦ rw more (
          take_digits-digits most (v / 10) (digit (v % 10) ∷ rest) (omega (arith, pow-suc 10 most))
          ∙ last
          ∙ ap (λ (x : ℕ). take_digits 10 x rest) whole)
    ]

front : (d : ℕ) (rest : Text) → d < 10 → starts_with_digit 10 (digit d ∷ rest) ≡ true
front d rest h = rw (digit_value-digit d h) (lt→ltb d 10 h)

-- They begin with a digit.
starts-digits :
    (most v : ℕ) (rest : Text) → starts_with_digit 10 (digits (suc most) 10 v rest) ≡ true
unfolding digits
starts-digits zero v rest = elim (Bool-cases (v / 10 == 0)) [
  | inl z ↦ rw z (front (v % 10) rest (omega arith))
  | inr more ↦ rw more (front (v % 10) rest (omega arith))
]
starts-digits (suc most) v rest = elim (Bool-cases (v / 10 == 0)) [
  | inl z ↦ rw z (front (v % 10) rest (omega arith))
  | inr more ↦ rw more (starts-digits most (v / 10) (digit (v % 10) ∷ rest))
]

digits-append :
    (most v : ℕ) (rest more : Text)
    → digits most 10 v rest ++ more ≡ digits most 10 v (rest ++ more)
unfolding digits
digits-append zero v rest more = refl
digits-append (suc most) v rest more = elim (Bool-cases (v / 10 == 0)) [
  | inl z ↦ rw z refl
  | inr next ↦ rw next (digits-append most (v / 10) (digit (v % 10) ∷ rest) more)
]

digit_range : (c : ℕ) → ltb (digit_value c) 10 ≡ true → (48 ≤ c) × (c ≤ 57)
unfolding digit_value tolower
digit_range c h = (ground arith, ground arith)

digit_no_space : (c : ℕ) → 48 ≤ c → c ≤ 57 → is_space c ≡ false
unfolding is_space
digit_no_space c h g = ground arith

-- A digit at the front is neither a space nor a sign.
no_space :
    (t : Text) → starts_with_digit 10 t ≡ true → (skip_spaces t ≡ t) × (take_sign t ≡ (false, t))
unfolding skip_spaces take_sign
no_space [] h = (refl, refl)
no_space (c ∷ t) h =
    let (low, high) = digit_range c h in
    (
      rw (digit_no_space c low high) refl,
      rw (ne→== c 45 (λ e. omega arith), ne→== c 43 (λ e. omega arith)) refl,
    )

-- The text begins with no digit.
abbrev pub Stops : Text → Type 0
Stops t = starts_with_digit 10 t ≡ false

take_digits-Stops : (v : ℕ) (t : Text) → Stops t → take_digits 10 v t ≡ (v, t)
unfolding take_digits
take_digits-Stops v [] h = refl
take_digits-Stops v (c ∷ t) h = rw h refl

strtol-digits :
    (v : ℕ) (rest : Text)
    → v < 2 ^ 32
    → Stops rest
    → strtol 10 (digits 10 10 v rest) ≡ some (clamped_int false v, rest)
unfolding strtol
strtol-digits v rest h stops =
    let starts = starts-digits 9 v rest in
    let (space, sign) = no_space (digits 10 10 v rest) starts in
    rw
      (
        space,
        sign,
        starts,
        take_digits-digits 10 v rest (omega arith),
        take_digits-Stops v rest stops,
      )
      refl

strtol-minus :
    (v : ℕ) (rest : Text)
    → v < 2 ^ 32
    → Stops rest
    → strtol 10 (45 ∷ digits 10 10 v rest) ≡ some (clamped_int true v, rest)
unfolding strtol skip_spaces is_space take_sign
strtol-minus v rest h stops =
    rw
      (
        starts-digits 9 v rest,
        take_digits-digits 10 v rest (omega arith),
        take_digits-Stops v rest stops,
      )
      refl

clamped_above : (m : ℕ) → m < 2 ^ 32 → clamped_int false m ≡ m
unfolding clamped_int
clamped_above m h = ground arith

clamped_below : (m : ℕ) → 1 ≤ m → m < 2 ^ 32 → clamped_int true m ≡ 2 ^ 32 - m
unfolding clamped_int
clamped_below m l h = ground arith

-- What `%d` puts out of an int is read back, in front of anything but a digit.
pub strtol-number :
    (v : ℤ) (rest : Text)
    → Fits 32 v
    → Stops rest
    → strtol 10 (number v ++ rest) ≡ some (of_signed 32 v, rest)
unfolding dec
strtol-number (pos n) rest f stops =
    let m = n % 2 ^ 32 in
    let small : ltb m (2 ^ 31) ≡ true = lt→ltb m (2 ^ 31) (omega arith) in
    rw
      (
        small,
        digits-append 10 m [] rest,
        strtol-digits m rest (omega arith) stops,
        clamped_above m (omega arith),
      )
      refl
strtol-number (negsuc n) rest f stops =
    let m = 2 ^ 32 - 1 - n % 2 ^ 32 in
    let large : ltb m (2 ^ 31) ≡ false = ground arith in
    let back : 2 ^ 32 - (2 ^ 32 - m) ≡ m = omega arith in
    rw
      (
        large,
        digits-append 10 (2 ^ 32 - m) [] rest,
        strtol-minus (2 ^ 32 - m) rest (omega arith) stops,
        clamped_below (2 ^ 32 - m) (omega arith) (omega arith),
        back,
      )
      refl
