-- ===== src/Vm/Load/Swap.antt =====
-- LC3_SWAP of lc3sim-c/types.h on the bytes of an object file.
use lc3_script_tools.Base.{
  ℕ, ◌+◌, ◌*◌, ◌/◌, ◌%◌, ◌^◌, ◌<◌, ◌≡◌, refl, ◌∙◌, arith, bit_and, some, List, [], ◌∷◌, ◌++◌,
}
use lc3_script_tools.Base.Bits.{or_fields, and_shifted, and_mask}
use lc3_script_tools.Vm.Types.{Build, lc3_16bit, lc3_32bit, register_bits, word}
use lc3_script_tools.Vm.Load.{lc3_swap, take_unit}

-- A word as the bytes of an object file, the highest first.
abbrev pub big_endian : Build → ℕ → List ℕ
big_endian lc3_16bit w = w / 2 ^ 8 ∷ w % 2 ^ 8 ∷ []
big_endian lc3_32bit w = w / 2 ^ 24 ∷ w / 2 ^ 16 % 2 ^ 8 ∷ w / 2 ^ 8 % 2 ^ 8 ∷ w % 2 ^ 8 ∷ []

-- The number that the host reads from those bytes.
abbrev host_word : Build → ℕ → ℕ
host_word lc3_16bit w = w / 2 ^ 8 + w % 2 ^ 8 * 2 ^ 8
host_word lc3_32bit w =
    w / 2 ^ 24 + w / 2 ^ 16 % 2 ^ 8 * 2 ^ 8 + w / 2 ^ 8 % 2 ^ 8 * 2 ^ 16 + w % 2 ^ 8 * 2 ^ 24

take-big_endian :
    (b : Build) (w : ℕ) (rest : List ℕ)
    → take_unit b (big_endian b w ++ rest) ≡ some (host_word b w, rest)
unfolding take_unit
take-big_endian lc3_16bit w rest = refl
take-big_endian lc3_32bit w rest = refl

-- SWAP_32 as a sum of its four bytes.
swap_32 :
    (v : ℕ)
    → v < 2 ^ 32
    → lc3_swap lc3_32bit v
      ≡ v % 2 ^ 8 * 2 ^ 24 + v / 2 ^ 8 % 2 ^ 8 * 2 ^ 16 + v / 2 ^ 16 % 2 ^ 8 * 2 ^ 8 + v / 2 ^ 24
unfolding lc3_swap
swap_32 v h =
    let x : ℕ = v % 2 ^ 8 in
    let y : ℕ = v / 2 ^ 8 % 2 ^ 8 in
    let z : ℕ = v / 2 ^ 16 % 2 ^ 8 in
    let t : ℕ = v / 2 ^ 24 in
    let top : word lc3_32bit (v * 2 ^ 24) ≡ x * 2 ^ 24 = omega arith in
    let second : bit_and (word lc3_32bit (v * 2 ^ 8)) 0x00ff_0000 ≡ y * 2 ^ 16 = omega (
      arith,
      and_shifted 16 (word lc3_32bit (v * 2 ^ 8)) 255,
      and_mask 8 (word lc3_32bit (v * 2 ^ 8) / 2 ^ 16),
    ) in
    let third : bit_and (v / 2 ^ 8) 0x0000_ff00 ≡ z * 2 ^ 8 =
      omega (arith, and_shifted 8 (v / 2 ^ 8) 255, and_mask 8 (v / 2 ^ 8 / 2 ^ 8)) in
    let two : x * 2 ^ 24 + y * 2 ^ 16 ≡ (x * 2 ^ 8 + y) * 2 ^ 16 = omega arith in
    let three : (x * 2 ^ 8 + y) * 2 ^ 16 + z * 2 ^ 8 ≡ ((x * 2 ^ 8 + y) * 2 ^ 8 + z) * 2 ^ 8 =
      omega arith in
    rw
      (
        top,
        second,
        third,
        or_fields 24 x (y * 2 ^ 16) (omega arith),
        two,
        or_fields 16 (x * 2 ^ 8 + y) (z * 2 ^ 8) (omega arith),
        three,
        or_fields 8 ((x * 2 ^ 8 + y) * 2 ^ 8 + z) t (omega arith),
      )
      (omega arith)

-- Swapping what the host reads gives the word that was stored.
pub swap-host_word : (b : Build) (w : ℕ) → w < 2 ^ register_bits b → lc3_swap b (host_word b w) ≡ w
unfolding lc3_swap
swap-host_word lc3_16bit w h =
    rw (or_fields 8 (host_word lc3_16bit w) (host_word lc3_16bit w / 2 ^ 8) (omega arith))
      (omega arith)
swap-host_word lc3_32bit w h = swap_32 (host_word lc3_32bit w) (omega arith) ∙ omega arith
