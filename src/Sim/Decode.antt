-- ===== src/Sim/Decode.antt =====
-- A decoder by the operation code, and the instruction table of lc3tools/lc3.def.
use lc3_script_tools.Base.{
  ℕ, zero, suc, ◌+◌, ◌*◌, ◌/◌, ◌%◌, ◌^◌, ◌<◌, ◌≡◌, refl, ap, ◌∙◌, arith, Bool, ◌&&◌, Option, none,
  some, List, [], ◌∷◌, bit_and, ◌==◌, if◌then◌else◌,
}
use lc3_script_tools.Base.Bits.{and_split, and-zero, and-le, and_mask, and_shifted, and_digit}
use lc3_script_tools.Sim.Inst.{flg_none, flg_subroutine}
use lc3_script_tools.Sim.Table.{
  Code, add_r, add_i, and_r, and_i, br, jmp, jsr, jsrr, ld, ldi, ldr, lea, not, rti, st, sti, str,
  trap, sll_r, sra_r, div_r, mod_r, mul_r, sll_i, sra_i, Definition, definitions, Action, choose,
  find_action,
}

abbrev plain : Code → Option Action
plain c = some (record { flags = flg_none; code = c })

abbrev call : Code → Option Action
call c = some (record { flags = flg_subroutine; code = c })

-- The shifts and the arithmetic of the operation codes 13 and, past the traps, 15: by bits 3 to 5.
unfoldable decode_dtu : ℕ → Option Action
decode_dtu kind =
    if kind == 0
    then plain sll_r
    else if kind == 1
    then plain sra_r
    else if kind == 2
    then plain div_r
    else if kind == 3
    then plain mod_r
    else if kind == 4
    then plain mul_r
    else if kind == 5
    then plain sll_i
    else if kind == 6
    then plain sra_i
    else none

-- An immediate operand, or two zeroes before the register.
abbrev two_forms : Code → Code → ℕ → Option Action
two_forms register immediate low =
    if low / 2 ^ 5 % 2 == 1
    then plain immediate
    else if low / 2 ^ 3 % 2 ^ 3 == 0
    then plain register
    else none

-- A base register, with zeroes around it.
abbrev base_only : ℕ → Option Action → Option Action
base_only low a = if (low / 2 ^ 9 == 0) && (low % 2 ^ 6 == 0) then a else none

-- What the operation code and the low 12 bits mean.
unfoldable pub decode : ℕ → ℕ → Option Action
unfolding decode_dtu
decode op low =
    if op == 0
    then plain br
    else if op == 1
    then two_forms add_r add_i low
    else if op == 2
    then plain ld
    else if op == 3
    then plain st
    else if op == 4
    then (if low / 2 ^ 11 % 2 == 1 then call jsr else base_only low (call jsrr))
    else if op == 5
    then two_forms and_r and_i low
    else if op == 6
    then plain ldr
    else if op == 7
    then plain str
    else if op == 8
    then plain rti
    else if op == 9
    then (if low % 2 ^ 6 == 63 then plain not else none)
    else if op == 10
    then plain ldi
    else if op == 11
    then plain sti
    else if op == 12
    then base_only low (plain jmp)
    else if op == 13
    then decode_dtu (low / 2 ^ 3 % 2 ^ 3)
    else if op == 14
    then plain lea
    else if op == 15
    then (if low / 2 ^ 8 == 0 then call trap else decode_dtu (low / 2 ^ 3 % 2 ^ 3))
    else none

-- The table with each test split at bit 12.
abbrev split_test : ℕ → ℕ → Definition → Bool
split_test op low d =
    (bit_and op (d.mask / 2 ^ 12) == d.match / 2 ^ 12)
    && (bit_and low (d.mask % 2 ^ 12) == d.match % 2 ^ 12)

find_split : ℕ → ℕ → List Definition → Option Action
find_split op low [] = none
find_split op low (d ∷ ds) = choose d.code d.flags (split_test op low d) (find_split op low ds)

split_eq :
    (a b n : ℕ) → b < 2 ^ 12 → (a * 2 ^ 12 + b == n) ≡ ((a == n / 2 ^ 12) && (b == n % 2 ^ 12))
split_eq a b n h = ground arith

test_split :
    (op low : ℕ) (d : Definition)
    → low < 2 ^ 12
    → (bit_and (op * 2 ^ 12 + low) d.mask == d.match) ≡ split_test op low d
test_split op low d h =
    let e : d.mask ≡ d.mask / 2 ^ 12 * 2 ^ 12 + d.mask % 2 ^ 12 = omega arith in
    ap (λ (m : ℕ). bit_and (op * 2 ^ 12 + low) m == d.match) e
    ∙ rw (and_split 12 op low (d.mask / 2 ^ 12) (d.mask % 2 ^ 12) h (omega arith)) (
        split_eq (bit_and op (d.mask / 2 ^ 12)) (bit_and low (d.mask % 2 ^ 12)) d.match
          (omega (arith, and-le low (d.mask % 2 ^ 12))))

find_split_lem :
    (op low : ℕ) (ds : List Definition)
    → low < 2 ^ 12
    → find_action (op * 2 ^ 12 + low) ds ≡ find_split op low ds
unfolding find_action find_split
find_split_lem op low [] h = refl
find_split_lem op low (d ∷ ds) h =
    ap (λ (b : Bool). choose d.code d.flags b (find_action (op * 2 ^ 12 + low) ds))
      (test_split op low d h)
    ∙ ap (choose d.code d.flags (split_test op low d)) (find_split_lem op low ds h)

-- The tests on the low 12 bits.
and_38 : (r : ℕ) → bit_and r 0x038 ≡ r / 2 ^ 3 % 2 ^ 3 * 2 ^ 3
and_38 r = and_shifted 3 r 7 ∙ ap (λ (x : ℕ). x * 2 ^ 3) (and_mask 3 (r / 2 ^ 3))

and_20 : (r : ℕ) → bit_and r 0x020 ≡ r / 2 ^ 5 % 2 * 2 ^ 5
and_20 r = and_digit 5 r

and_800 : (r : ℕ) → bit_and r 0x800 ≡ r / 2 ^ 11 % 2 * 2 ^ 11
and_800 r = and_digit 11 r

and_f00 : (r : ℕ) → bit_and r 0xf00 ≡ r / 2 ^ 8 % 2 ^ 4 * 2 ^ 8
and_f00 r = and_shifted 8 r 15 ∙ ap (λ (x : ℕ). x * 2 ^ 8) (and_mask 4 (r / 2 ^ 8))

and_3f : (r : ℕ) → bit_and r 0x03f ≡ r % 2 ^ 6
and_3f r = and_mask 6 r

and_e3f : (r : ℕ) → bit_and r 0xe3f ≡ r / 2 ^ 9 % 2 ^ 3 * 2 ^ 9 + r % 2 ^ 6
and_e3f r =
    let e : r ≡ r / 2 ^ 9 * 2 ^ 9 + r % 2 ^ 9 = omega arith in
    ap (λ (x : ℕ). bit_and x 0xe3f) e
    ∙ and_split 9 (r / 2 ^ 9) (r % 2 ^ 9) 7 63 (omega arith) (omega arith)
    ∙ omega (arith, and_mask 3 (r / 2 ^ 9), and_mask 6 (r % 2 ^ 9))

abbrev Agrees : ℕ → Type 0
Agrees op = (low : ℕ) → low < 2 ^ 12 → find_split op low definitions ≡ decode op low

Agrees-0 : Agrees 0
unfolding find_split definitions decode
Agrees-0 low h = rw (and-zero low) refl

Agrees-1 : Agrees 1
unfolding find_split definitions decode
Agrees-1 low h = rw (and_38 low, and_20 low) (ground arith)

Agrees-4 : Agrees 4
unfolding find_split definitions decode
Agrees-4 low h = rw (and_800 low, and_e3f low) (ground arith)

Agrees-9 : Agrees 9
unfolding find_split definitions decode
Agrees-9 low h = rw (and_3f low) (ground arith)

Agrees-13 : Agrees 13
unfolding find_split definitions decode
Agrees-13 low h = rw (and_38 low) (ground arith)

Agrees-15 : Agrees 15
unfolding find_split definitions decode
Agrees-15 low h = rw (and_38 low, and_f00 low) (ground arith)

Agrees-2 : Agrees 2
unfolding find_split definitions decode
Agrees-2 low h = rw (and-zero low) refl

Agrees-3 : Agrees 3
unfolding find_split definitions decode
Agrees-3 low h = rw (and-zero low) refl

Agrees-6 : Agrees 6
unfolding find_split definitions decode
Agrees-6 low h = rw (and-zero low) refl

Agrees-7 : Agrees 7
unfolding find_split definitions decode
Agrees-7 low h = rw (and-zero low) refl

Agrees-8 : Agrees 8
unfolding find_split definitions decode
Agrees-8 low h = rw (and-zero low) refl

Agrees-10 : Agrees 10
unfolding find_split definitions decode
Agrees-10 low h = rw (and-zero low) refl

Agrees-11 : Agrees 11
unfolding find_split definitions decode
Agrees-11 low h = rw (and-zero low) refl

Agrees-14 : Agrees 14
unfolding find_split definitions decode
Agrees-14 low h = rw (and-zero low) refl

Agrees-5 : Agrees 5
unfolding find_split definitions decode
Agrees-5 low h = rw (and_38 low, and_20 low) (ground arith)

Agrees-12 : Agrees 12
unfolding find_split definitions decode
Agrees-12 low h = rw (and_e3f low) (ground arith)

all_Agrees : (op : ℕ) → op < 16 → Agrees op
all_Agrees zero lt = Agrees-0
all_Agrees (suc zero) lt = Agrees-1
all_Agrees (suc (suc zero)) lt = Agrees-2
all_Agrees (suc (suc (suc zero))) lt = Agrees-3
all_Agrees (suc (suc (suc (suc zero)))) lt = Agrees-4
all_Agrees (suc (suc (suc (suc (suc zero))))) lt = Agrees-5
all_Agrees (suc (suc (suc (suc (suc (suc zero)))))) lt = Agrees-6
all_Agrees (suc (suc (suc (suc (suc (suc (suc zero))))))) lt = Agrees-7
all_Agrees (suc (suc (suc (suc (suc (suc (suc (suc zero)))))))) lt = Agrees-8
all_Agrees (suc (suc (suc (suc (suc (suc (suc (suc (suc zero))))))))) lt = Agrees-9
all_Agrees (suc (suc (suc (suc (suc (suc (suc (suc (suc (suc zero)))))))))) lt = Agrees-10
all_Agrees (suc (suc (suc (suc (suc (suc (suc (suc (suc (suc (suc zero))))))))))) lt = Agrees-11
all_Agrees (suc (suc (suc (suc (suc (suc (suc (suc (suc (suc (suc (suc zero)))))))))))) lt =
    Agrees-12
all_Agrees (suc (suc (suc (suc (suc (suc (suc (suc (suc (suc (suc (suc (suc zero))))))))))))) lt =
    Agrees-13
all_Agrees (suc (suc (suc (suc (suc (suc (suc (suc (suc (suc (suc (suc (suc (suc zero))))))))))))))
      lt =
    Agrees-14
all_Agrees
      (suc (suc (suc (suc (suc (suc (suc (suc (suc (suc (suc (suc (suc (suc (suc zero)))))))))))))))
      lt =
    Agrees-15
all_Agrees
      (suc
        (suc (suc (suc (suc (suc (suc (suc (suc (suc (suc (suc (suc (suc (suc (suc n))))))))))))))))
      lt =
    absurd (omega arith)

-- The instruction table, tried entry by entry as execute_instruction does, gives every 16-bit word the
-- code and the flags that its operation code and its other fields ask for, and refuses the others:
-- the order of the entries and the overlaps of their masks make no difference, but for the operation
-- code 15, where the words that are no trap are taken for shifts and arithmetic.
pub find_action-decode :
    (w : ℕ) → w < 2 ^ 16 → find_action w definitions ≡ decode (w / 2 ^ 12) (w % 2 ^ 12)
find_action-decode w h =
    let e : w ≡ w / 2 ^ 12 * 2 ^ 12 + w % 2 ^ 12 = omega arith in
    ap (λ (x : ℕ). find_action x definitions) e
    ∙ find_split_lem (w / 2 ^ 12) (w % 2 ^ 12) definitions (omega arith)
    ∙ all_Agrees (w / 2 ^ 12) (omega arith) (w % 2 ^ 12) (omega arith)
