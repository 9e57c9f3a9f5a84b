-- ===== src/Lc3pp/Address/Cases.antt =====
-- What the code of calculate_address does in each of its cases: no offset, a near one and a far one,
-- for the address and for the value at it.
use lc3_script_tools.Base.{
  ℕ, zero, suc, ◌+◌, ◌^◌, ◌≤◌, ◌<◌, ◌≡◌, ◌≢◌, refl, sym, ◌∙◌, ap, arith, Bool, true, false, List,
  [], ◌∷◌, ◌++◌, ◌==◌, length, length-append,
}
use lc3_script_tools.Base.Int.{ℤ, pos, negsuc, Fits}
use lc3_script_tools.Vm.Types.{Build, register_bits, reg_pc, reg_psr}
use lc3_script_tools.Vm.State.{Console, Vm}
use lc3_script_tools.Vm.Triple.{IsCell}
use lc3_script_tools.Lc3pp.Address.{Line, is_below, size, signed, least, add_steps, constant_lines}
use lc3_script_tools.Lc3pp.Address.Machine.{IsOn, Here, Reaches, Reaches-here, Reaches-map, Here-at}
use lc3_script_tools.Lc3pp.Address.Encoded.{encoded, Placed}
use lc3_script_tools.Lc3pp.Address.Sum.{plus}
use lc3_script_tools.Vm.Triple.{IsFlag}
use lc3_script_tools.Lc3pp.Address.Sum.{plus-plus, plus-lt, plus-zero, least-le}
use lc3_script_tools.Lc3pp.Address.Steps.{so_far, adds, add_step, ldr_step}
use lc3_script_tools.Lc3pp.Address.Constant.{constant}
use lc3_script_tools.Lc3pp.Address.{ldr_bound}

signed_size : (v : ℤ) → signed (is_below v) (size v) ≡ v
signed_size (pos zero) = refl
signed_size (pos (suc n)) = refl
signed_size (negsuc n) = refl

pub ldr-Fits : (below : Bool) (n : ℕ) → Fits 6 (signed below (least n (ldr_bound below)))
ldr-Fits below n = go below (least n (ldr_bound below)) (least-le n (ldr_bound below))
  where
    go : (below : Bool) (n : ℕ) → n ≤ ldr_bound below → Fits 6 (signed below n)
    go below zero h = omega arith
    go true (suc n) h = omega arith
    go false (suc n) h = omega arith

is_zero : (v : ℤ) → size v ≡ 0 → v ≡ pos 0
is_zero (pos n) e = ap pos e
is_zero (negsuc n) e = absurd (omega arith)

pub least-le_left : (x y : ℕ) → least x y ≤ x
least-le_left x y = ground arith

module _ (b : Build) (console : Console) (start : Vm) (on : IsOn b start) (dst : ℕ)
    (dst_fits : dst < 8) (base : ℕ) (small : base < 8) (apart : base ≢ dst)
    (flag : IsFlag (start.reg reg_psr)) (word_fits : start.reg base < 2 ^ register_bits b)
    (offset : ℤ) where
  abbrev pub address : ℕ
  address = plus b (start.reg base) offset

  -- After the lines, with a value in `dst`.
  abbrev pub Ends : List Line → ℕ → (ℕ → ℕ) → Type 0
  Ends ls x g = Here b console start on dst (start.reg reg_pc + length ls) g × (g dst ≡ x)

  at_start : Here b console start on dst (start.reg reg_pc) start.reg
  at_start = record { pc = refl; others = λ r lt ne. refl }

  -- Run from the start, the lines leave `x` in `dst`.
  abbrev pub Works : List Line → ℕ → Type 0
  Works ls x =
      Placed b start.mem ls (start.reg reg_pc)
      → Reaches b console start on dst start.reg (Ends ls x)

  pub Works-zero : size offset ≡ 0 → Works (Line.add_zero dst base ∷ []) address
  unfolding encoded
  Works-zero z (e, c, rest) =
      add_step b console start on dst dst_fits {P = Ends (Line.add_zero dst base ∷ []) address}
        start.reg (start.reg reg_pc) base (pos 0) small (omega arith) at_start e c
        λ g h value.
          Reaches-here b console start on dst g
            (h, value ∙ ap (plus b (start.reg base)) (sym (is_zero offset z)))

  pub Works-zero_ldr :
      size offset ≡ 0
      → IsCell b address
      → Works (Line.ldr dst base (pos 0) base (pos 0) ∷ []) (start.mem address)
  Works-zero_ldr z cell (e, c, rest) =
      ldr_step b console start on dst dst_fits start.reg (start.reg reg_pc) base (pos 0) address
        small (omega arith) at_start e c (ap (plus b (start.reg base)) (sym (is_zero offset z)))
        cell

  abbrev steps : ℕ → List Line
  steps r = add_steps (is_below offset) base dst r base r 0

  abbrev sum_register : ℕ → ℕ
  sum_register r = so_far b console start on dst dst_fits base r

  pub Works-near : (r : ℕ) → (r == 0) ≡ false → r ≡ size offset → Works (steps r ++ []) address
  Works-near r nz e placed =
      adds b console start on dst dst_fits {P = Ends (steps r ++ []) address} [] (is_below offset)
        base r base r 0 start.reg (start.reg reg_pc) small (omega arith) word_fits at_start placed
        λ g a h value rest at.
          let there : a ≡ start.reg reg_pc + length (steps r ++ []) =
            omega (arith, at, length-append (steps r) []) in
          let all : signed (is_below offset) r ≡ offset =
            ap (signed (is_below offset)) e ∙ signed_size offset in
          Reaches-here b console start on dst g (
            Here-at b console start on dst a (start.reg reg_pc + length (steps r ++ [])) g there h,
            (rw nz at value) ∙ ap (plus b (start.reg base)) all,
          )

  pub Works-near_ldr :
      (r n : ℕ)
      → r + n ≡ size offset
      → Fits 6 (signed (is_below offset) n)
      → IsCell b address
      → let l = Line.ldr dst (sum_register r) (signed (is_below offset) n) base offset in
        Works (steps r ++ l ∷ []) (start.mem address)
  unfolding encoded
  Works-near_ldr r n e fits cell placed =
      let below = is_below offset in
      let l = Line.ldr dst (sum_register r) (signed below n) base offset in
      adds b console start on dst dst_fits {P = Ends (steps r ++ l ∷ []) (start.mem address)}
        (l ∷ []) below base r base r 0 start.reg (start.reg reg_pc) small (omega arith) word_fits
        at_start placed
        λ g a h value rest at.
          let there : a + 1 ≡ start.reg reg_pc + length (steps r ++ l ∷ []) =
            omega (arith, at, length-append (steps r) (l ∷ [])) in
          let here : plus b (g (sum_register r)) (signed below n) ≡ address =
            ap (λ (x : ℕ). plus b x (signed below n)) value
            ∙ plus-plus b below (start.reg base) r n
            ∙ ap (λ (k : ℕ). plus b (start.reg base) (signed below k)) e
            ∙ ap (plus b (start.reg base)) (signed_size offset) in
          Reaches-map b console start on dst g
            (λ g' p. (
              Here-at b console start on dst (a + 1) (start.reg reg_pc + length (steps r ++ l ∷ []))
                  g' there p.0,
              p.1,
            ))
            (ldr_step b console start on dst dst_fits g a (sum_register r) (signed below n) address
              (ground arith) fits h rest.0 rest.1 here cell)

  pub Works-far : Works (constant_lines dst base offset ++ []) address
  Works-far placed =
      constant b console start on dst dst_fits
        {P = Ends (constant_lines dst base offset ++ []) address} [] base offset start.reg
        (start.reg reg_pc) small apart flag at_start placed
        λ g h value rest. Reaches-here b console start on dst g (
          Here-at b console start on dst (start.reg reg_pc + 1 + 1 + 1 + 1) (start.reg reg_pc + 4) g
              (omega arith) h,
          value,
        )

  pub Works-far_ldr :
      IsCell b address
      → Works
          (constant_lines dst base offset ++ Line.ldr dst dst (pos 0) base offset ∷ [])
          (start.mem address)
  unfolding encoded
  Works-far_ldr cell placed =
      let l = Line.ldr dst dst (pos 0) base offset in
      constant b console start on dst dst_fits
        {P = Ends (constant_lines dst base offset ++ l ∷ []) (start.mem address)} (l ∷ []) base
        offset start.reg (start.reg reg_pc) small apart flag at_start placed
        λ g h value rest.
          let a = start.reg reg_pc + 1 + 1 + 1 + 1 in
          let lt : g dst < 2 ^ register_bits b = rw value (plus-lt b (start.reg base) offset) in
          Reaches-map b console start on dst g
            (λ g' p. (
              Here-at b console start on dst (a + 1) (start.reg reg_pc + 5) g' (omega arith) p.0,
              p.1,
            ))
            (ldr_step b console start on dst dst_fits g a dst (pos 0) address dst_fits (omega arith)
              h rest.0 rest.1 (sym (plus-zero b (g dst) lt) ∙ value) cell)
