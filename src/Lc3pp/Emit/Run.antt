-- ===== src/Lc3pp/Emit/Run.antt =====
-- The code that lcc-1.3/lc3pp/lc3pp.c puts in for a .LC3GLOBAL line, run by the machine of
-- lc3sim-c/vm.c.
use lc3_script_tools.Base.{
  ℕ, ◌+◌, ◌%◌, ◌^◌, ◌<◌, ◌≡◌, ◌≢◌, sym, ◌∙◌, arith, Bool, true, List, ◌∷◌, ◌++◌, if◌then◌else◌,
}
use lc3_script_tools.Base.Int.{to_signed}
use lc3_script_tools.Vm.Types.{Build, lc3_16bit, lc3_32bit, register_bits, word, reg_pc, reg_psr}
use lc3_script_tools.Vm.State.{Console, Vm}
use lc3_script_tools.Vm.Triple.{IsCell, IsFlag}
use lc3_script_tools.Lc3pp.Address.Machine.{IsOn, Reaches}
use lc3_script_tools.Lc3pp.Address.Encoded.{Placed}
use lc3_script_tools.Lc3pp.Address.Sum.{plus}
use lc3_script_tools.Lc3pp.Address.Cases.{Ends}
use lc3_script_tools.Lc3pp.Address.Correct.{calculate_address_runs}
use lc3_script_tools.Lc3pp.Split.{Variable, glob_offset}
use lc3_script_tools.Lc3pp.Split.Layout.{total, IsFresh, glob_offset-found}
use lc3_script_tools.Lc3pp.Emit.{global_code}

-- An int of 32 bits, added to a register.
plus-to_signed : (b : Build) (x n : ℕ) → plus b x (to_signed 32 (n % 2 ^ 32)) ≡ word b (x + n)
plus-to_signed lc3_16bit x n = ground arith
plus-to_signed lc3_32bit x n = ground arith

word_offset :
    (b : Build) (x o t g : ℕ) → g ≡ t % 2 ^ 32 → word b (x + (o + g)) ≡ word b (x + (t + o))
word_offset lc3_16bit x o t g e = omega (arith, e)
word_offset lc3_32bit x o t g e = omega (arith, e)

module _ (b : Build) (console : Console) (start : Vm) (on : IsOn b start) (dst : ℕ)
    (dst_fits : dst < 8) (apart : 4 ≢ dst) (flag : IsFlag (start.reg reg_psr))
    (word_fits : start.reg 4 < 2 ^ register_bits b) (us : List Variable) (v : Variable)
    (vs : List Variable) (o : ℕ) where
  -- The offset of the variable, and of a field in it.
  abbrev pub glob : ℕ
  glob = glob_offset (us ++ v ∷ vs) v.name

  -- The word of the variable, from the start of the global data on, where R4 points to.
  abbrev pub place : ℕ
  place = word b (start.reg 4 + (total us + o))

  pub four_lt : 4 < 8
  four_lt = omega arith

  -- The code that is put in for a global variable, placed in memory cells from the PC of a running
  -- machine on: after some rounds the PC is past it, the register holds R4, and the words of the
  -- variables before this one in the table, and the offset, summed modulo the width of a register, or
  -- with `with_ldr` the value of the cell there, and of the registers 0 to 7 no other has changed. In
  -- both builds, for a register 0 to 7 other than R4, the first variable of its name, every
  -- offset, and with `with_ldr` where the address is a memory cell.
  pub global_code_runs :
      (with_ldr : Bool)
      → IsFresh v.name us
      → (with_ldr ≡ true → IsCell b place)
      → Placed b start.mem (global_code dst o glob with_ldr) (start.reg reg_pc)
      → Reaches b console start on dst start.reg (
          Ends b console start on dst dst_fits 4 four_lt apart flag word_fits
            (to_signed 32 ((o + glob) % 2 ^ 32))
            (global_code dst o glob with_ldr)
            (if with_ldr then start.mem place else place))
  unfolding global_code
  global_code_runs with_ldr fresh cell placed =
      let offset = to_signed 32 ((o + glob) % 2 ^ 32) in
      let e : plus b (start.reg 4) offset ≡ place =
        plus-to_signed b (start.reg 4) (o + glob)
        ∙ word_offset b (start.reg 4) o (total us) glob (glob_offset-found us v vs fresh) in
      let runs =
        calculate_address_runs b console start on dst dst_fits 4 four_lt apart flag word_fits offset
          with_ldr in
      rw (sym e) (runs (λ h. rw e (cell h)) placed)
