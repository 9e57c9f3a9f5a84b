-- ===== src/Base/Sign.antt =====
-- Sign extension by `((v & mask) ^ m) - m`, at any width, against two's complement.
use Prim.Native.Nat.{ℕ, zero, suc, ◌+◌, ◌-◌, ◌*◌, ◌%◌, ◌^◌, ◌≤◌, ◌<◌, bit_and, bit_xor}
use mathlib.Core.Path.{◌≡◌, sym, ap, ◌∙◌}
use native.Mathlib.Nat.{pow-le-pow_right, mod-eq_of_lt, add-mod_right, mul-add-mod_self_right}
use native.Mathlib.Decide.{dec_lt}
use native.Mathlib.Omega.{arith}
use lc3_script_tools.Base.Bits.{and_mask, xor_top, two_pow_suc, two_pow_pos}
use lc3_script_tools.Base.Int.{ℤ, pos, negsuc, to_signed, of_signed, Fits}
use lc3_script_tools.Base.Powers.{two_pow_add}

-- The low `n` digits of `val` extended to `w` digits. 2 ^ w is added since `-` stops at 0.
abbrev extend_sign : ℕ → ℕ → ℕ → ℕ
extend_sign w val n =
    (bit_xor (bit_and val (2 ^ n - 1)) (2 ^ (n - 1)) + 2 ^ w - 2 ^ (n - 1)) % 2 ^ w

-- A clear sign digit is set and then taken off again, a set one is cleared and borrows from above.
module _ (k r p : ℕ) (fits : 2 * 2 ^ k ≤ p) where
  flip_clear : r < 2 ^ k → (bit_xor r (2 ^ k) + p - 2 ^ k) % p ≡ r
  flip_clear h =
      let e : bit_xor r (2 ^ k) ≡ 2 ^ k + r = ground (arith, xor_top k 0 r) in
      let d : 2 ^ k + r + p - 2 ^ k ≡ r + p = omega arith in
      rw (e, d, add-mod_right r p) (mod-eq_of_lt (omega arith))

  flip_set : 2 ^ k ≤ r → r < 2 * 2 ^ k → (bit_xor r (2 ^ k) + p - 2 ^ k) % p ≡ r + p - 2 * 2 ^ k
  flip_set h lt =
      let e : bit_xor r (2 ^ k) ≡ r - 2 ^ k = ground (arith, xor_top k 1 (r - 2 ^ k)) in
      let d : r - 2 ^ k + p - 2 ^ k ≡ r + p - 2 * 2 ^ k = omega arith in
      rw (e, d) (mod-eq_of_lt (omega arith))

pred_suc : (k : ℕ) → suc k - 1 ≡ k
pred_suc k = omega arith

-- The two cases of `to_signed`, by the remainder.
signed_clear : (k v r : ℕ) → v % 2 ^ suc k ≡ r → r < 2 ^ k → to_signed (suc k) v ≡ pos r
signed_clear k v r e h = rw (e, pred_suc k) (ground arith)

signed_set :
    (k v r : ℕ) → v % 2 ^ suc k ≡ r → 2 ^ k ≤ r → to_signed (suc k) v ≡ negsuc (2 * 2 ^ k - r - 1)
signed_set k v r e h = rw (e, pred_suc k, two_pow_suc k) (ground arith)

abbrev field : ℕ → ℕ → ℕ
field val k = val % (2 * 2 ^ k)

module _ (m val k : ℕ) (fits : suc k ≤ suc m) where
  field-eq : bit_and val (2 ^ suc k - 1) ≡ field val k
  field-eq = and_mask (suc k) val ∙ ap (λ (p : ℕ). val % p) (two_pow_suc k)

  room : 2 * 2 ^ k ≤ 2 ^ suc m
  room = omega (arith, two_pow_suc k, pow-le-pow_right {n = 2} (omega arith) fits)

  extend_clear : field val k < 2 ^ k → extend_sign (suc m) val (suc k) ≡ field val k
  extend_clear h = rw (field-eq, pred_suc) (flip_clear k (field val k) (2 ^ suc m) room h)

  extend_set :
      2 ^ k ≤ field val k → extend_sign (suc m) val (suc k) ≡ field val k + 2 ^ suc m - 2 * 2 ^ k
  extend_set h =
      rw (field-eq, pred_suc)
        (flip_set k (field val k) (2 ^ suc m) room h (omega (arith, two_pow_pos k)))

  abbrev extended : ℕ
  extended = extend_sign (suc m) val (suc k)

  remainder : val % 2 ^ suc k ≡ field val k
  remainder = ap (λ (p : ℕ). val % p) (two_pow_suc k)

  field-lt : field val k < 2 * 2 ^ k
  field-lt = omega (arith, two_pow_pos k)

  extend_suc : to_signed (suc m) extended ≡ to_signed (suc k) val
  extend_suc = elim (dec_lt (field val k) (2 ^ k)) [
    | yes low ↦
        let e = extend_clear low in
        signed_clear m extended (field val k)
          (ap (λ (x : ℕ). x % 2 ^ suc m) e ∙ mod-eq_of_lt (omega (arith, room)))
          (omega (arith, room, two_pow_suc m))
        ∙ sym (signed_clear k val (field val k) remainder low)
    | no high ↦
        let r : ℕ = field val k + 2 ^ suc m - 2 * 2 ^ k in
        let e : extended ≡ r = extend_set (omega arith) in
        let same : 2 * 2 ^ m - r - 1 ≡ 2 * 2 ^ k - field val k - 1 =
          omega (arith, room, two_pow_suc m, field-lt) in
        signed_set m extended r
          (ap (λ (x : ℕ). x % 2 ^ suc m) e ∙ mod-eq_of_lt (omega (arith, room, field-lt)))
          (omega (arith, room, two_pow_suc m))
        ∙ ap negsuc same
        ∙ sym (signed_set k val (field val k) remainder (omega arith))
  ]

-- A field of at least one digit is extended to the word that stands for the same signed number.
pub extend_sign-to_signed :
    (w val n : ℕ) → 1 ≤ n → n ≤ w → to_signed w (extend_sign w val n) ≡ to_signed n val
extend_sign-to_signed w val zero h fits = absurd (omega arith)
extend_sign-to_signed zero val (suc k) h fits = absurd (omega arith)
extend_sign-to_signed (suc m) val (suc k) h fits = extend_suc m val k fits

pred_mul : (c p : ℕ) → 1 ≤ c → (c - 1) * p + p ≡ c * p
pred_mul zero p h = absurd (omega arith)
pred_mul (suc c) p h = rw (pred_suc c) (omega arith)

-- The low digits of a number counted down from 2 ^ w.
below_top : (w n x : ℕ) → n ≤ w → x < 2 ^ n → (2 ^ w - 1 - x) % 2 ^ n ≡ 2 ^ n - 1 - x
below_top w n x fits h =
    let c : ℕ = 2 ^ (w - n) in
    let split : w ≡ w - n + n = omega arith in
    let e : 2 ^ w ≡ c * 2 ^ n = ap (λ (t : ℕ). 2 ^ t) split ∙ two_pow_add (w - n) n in
    let some_c : 1 ≤ c = two_pow_pos (w - n) in
    let d : 2 ^ w - 1 - x ≡ (c - 1) * 2 ^ n + (2 ^ n - 1 - x) =
      omega (arith, pred_mul c (2 ^ n) some_c) in
    rw (d, mul-add-mod_self_right (c - 1) (2 ^ n) (2 ^ n - 1 - x)) (mod-eq_of_lt (omega arith))

-- A number that fits `n` digits comes back from the low `n` digits of its `w`.
pub to_signed-of_signed :
    (w n : ℕ) (v : ℤ) → 1 ≤ n → n ≤ w → Fits n v → to_signed n (of_signed w v) ≡ v
to_signed-of_signed w zero v h fits f = absurd (omega arith)
to_signed-of_signed w (suc k) (pos x) h fits f =
    let small : x < 2 ^ k = rw (pred_suc k) at f in
    let wide : 2 ^ suc k ≤ 2 ^ w = pow-le-pow_right {n = 2} (omega arith) fits in
    let e : x % 2 ^ w ≡ x = mod-eq_of_lt (omega (arith, two_pow_suc k)) in
    signed_clear k (x % 2 ^ w) x (rw e (mod-eq_of_lt (omega (arith, two_pow_suc k)))) small
to_signed-of_signed w (suc k) (negsuc x) h fits f =
    let small : x < 2 ^ k = rw (pred_suc k) at f in
    let wide : 2 ^ suc k ≤ 2 ^ w = pow-le-pow_right {n = 2} (omega arith) fits in
    let e : x % 2 ^ w ≡ x = mod-eq_of_lt (omega (arith, two_pow_suc k)) in
    let r : ℕ = 2 ^ suc k - 1 - x in
    let same : 2 * 2 ^ k - r - 1 ≡ x = omega (arith, two_pow_suc k) in
    signed_set k (2 ^ w - 1 - x % 2 ^ w) r
      (rw e (below_top w (suc k) x fits (omega (arith, two_pow_suc k))))
      (omega (arith, two_pow_suc k))
    ∙ ap negsuc same
