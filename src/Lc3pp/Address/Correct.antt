-- ===== src/Lc3pp/Address/Correct.antt =====
-- The code of calculate_address, run: the register gets the address, or the value at it.
use lc3_script_tools.Base.{
  ℕ, ◌+◌, ◌-◌, ◌*◌, ◌^◌, ◌<◌, ◌≡◌, ◌≢◌, refl, arith, Bool, true, false, leb, ◌==◌, if◌then◌else◌,
  Bool-cases, inl, inr, ==→eq,
}
use lc3_script_tools.Base.Int.{ℤ}
use lc3_script_tools.Vm.Types.{Build, register_bits, reg_pc, reg_psr}
use lc3_script_tools.Vm.State.{Console, Vm}
use lc3_script_tools.Vm.Triple.{IsCell}
use lc3_script_tools.Lc3pp.Address.{is_below, size, least, add_bound}
use lc3_script_tools.Lc3pp.Address.Machine.{IsOn, Reaches}
use lc3_script_tools.Lc3pp.Address.Encoded.{Placed}
use lc3_script_tools.Lc3pp.Address.Sum.{plus}
use lc3_script_tools.Vm.Triple.{IsFlag}
use lc3_script_tools.Lc3pp.Address.{ldr_bound, calculate_address}
use lc3_script_tools.Lc3pp.Address.Cases.{
  ldr-Fits, least-le_left, Ends, Works, Works-zero, Works-zero_ldr, Works-near, Works-near_ldr,
  Works-far, Works-far_ldr,
}

module _ (b : Build) (console : Console) (start : Vm) (on : IsOn b start) (dst : ℕ)
    (dst_fits : dst < 8) (base : ℕ) (small : base < 8) (apart : base ≢ dst)
    (flag : IsFlag (start.reg reg_psr)) (word_fits : start.reg base < 2 ^ register_bits b)
    (offset : ℤ) where
  abbrev target : ℕ
  target = plus b (start.reg base) offset

  computes :
      Works b console start on dst dst_fits base small apart flag word_fits offset
        (calculate_address dst base offset false)
        target
  unfolding calculate_address
  computes = elim (Bool-cases (size offset == 0)) [
    | inl z ↦ rw z (
        Works-zero b console start on dst dst_fits base small apart flag word_fits offset
          (==→eq (size offset) 0 z))
    | inr nz ↦
        let e : size offset - 0 ≡ size offset = omega arith in
        elim (Bool-cases (leb (size offset) (add_bound (is_below offset) * 3))) [
          | inl near ↦
              rw (nz, e, near)
                (Works-near b console start on dst dst_fits base small apart flag word_fits offset
                  (size offset) nz refl)
          | inr far ↦
              rw (nz, e, far)
                (Works-far b console start on dst dst_fits base small apart flag word_fits offset)
        ]
  ]

  loads :
      IsCell b target
      → Works b console start on dst dst_fits base small apart flag word_fits offset
          (calculate_address dst base offset true)
          (start.mem target)
  unfolding calculate_address
  loads cell =
      let n = least (size offset) (ldr_bound (is_below offset)) in
      let r = size offset - n in
      let e : r + n ≡ size offset =
        omega (arith, least-le_left (size offset) (ldr_bound (is_below offset))) in
      elim (Bool-cases (size offset == 0)) [
        | inl z ↦ rw z (
            Works-zero_ldr b console start on dst dst_fits base small apart flag word_fits offset
              (==→eq (size offset) 0 z) cell)
        | inr nz ↦ elim (Bool-cases (leb r (add_bound (is_below offset) * 3))) [
          | inl near ↦
              rw (nz, near)
                (Works-near_ldr b console start on dst dst_fits base small apart flag word_fits
                  offset r n e (ldr-Fits (is_below offset) (size offset)) cell)
          | inr far ↦
              rw (nz, far)
                (Works-far_ldr b console start on dst dst_fits base small apart flag word_fits
                  offset cell)
        ]
      ]

  -- The code that calculate_address puts out, placed in memory cells from the PC of a running machine
  -- on: after some rounds the PC is past it, the register `dst` holds the base register and the
  -- offset, summed modulo the width of a register, or with `with_ldr` the value of the cell there, and
  -- nothing else has changed but the flags. In both builds, for registers 0 to 7 of which `dst` is not
  -- the base, for every offset, and with `with_ldr` where the address is a memory cell.
  pub calculate_address_runs :
      (with_ldr : Bool)
      → (with_ldr ≡ true → IsCell b target)
      → Placed b start.mem (calculate_address dst base offset with_ldr) (start.reg reg_pc)
      → Reaches b console start on dst start.reg (
          Ends b console start on dst dst_fits base small apart flag word_fits offset
            (calculate_address dst base offset with_ldr)
            (if with_ldr then start.mem target else target))
  calculate_address_runs true cell placed = loads (cell refl) placed
  calculate_address_runs false cell placed = computes placed
