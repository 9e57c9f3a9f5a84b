-- ===== src/Base/Int.antt =====
-- Signed numbers over the native ones, and two's complement at any width.
use Prim.Native.Nat.{ℕ, ◌-◌, ◌%◌, ◌^◌, ◌<◌}
use lc3_script_tools.Base.Tests.{ltb, if◌then◌else◌}

-- `negsuc n` is -(n + 1).
pub data ℤ : Type 0 where
  pos : ℕ → ℤ
  negsuc : ℕ → ℤ

-- The number that the low `w` bits of `v` stand for.
abbrev pub to_signed : ℕ → ℕ → ℤ
to_signed w v =
    if ltb (v % 2 ^ w) (2 ^ (w - 1)) then pos (v % 2 ^ w) else negsuc (2 ^ w - v % 2 ^ w - 1)

-- The `w` bits that stand for a number, if it fits; else for its remainder.
abbrev pub of_signed : ℕ → ℤ → ℕ
of_signed w (pos n) = n % 2 ^ w
of_signed w (negsuc n) = 2 ^ w - 1 - n % 2 ^ w

-- `w` bits can stand for the number: it is from -2 ^ (w - 1) to 2 ^ (w - 1) - 1.
abbrev pub Fits : ℕ → ℤ → Type 0
Fits w (pos n) = n < 2 ^ (w - 1)
Fits w (negsuc n) = n < 2 ^ (w - 1)
