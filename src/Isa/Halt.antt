-- ===== src/Isa/Halt.antt =====
-- A program that stops the clock: STR of a word to MCR, and the run of lc3sim-c/vm.c after it.
use lc3_script_tools.Base.{
  ℕ, suc, ◌+◌, ◌<◌, ◌≡◌, refl, ◌∙◌, arith, bit_and, true, ltb, some, update, update_self,
}
use lc3_script_tools.Base.Int.{ℤ, of_signed, Fits}
use lc3_script_tools.Vm.Types.{
  Build, lc3_16bit, lc3_32bit, register_bits, word, status_bit, addr_mcr, reg_pc, success,
  res_addr_mcr,
}
use lc3_script_tools.Vm.State.{Console, Vm}
use lc3_script_tools.Vm.Perform.{vm_perform}
use lc3_script_tools.Vm.Run.{check_status, vm_round, vm_run}
use lc3_script_tools.Vm.Triple.{IsCell}
use lc3_script_tools.Instr.Layout.{config}
use lc3_script_tools.Instr.Maker.{make_str}
use lc3_script_tools.Isa.Cells.{read_cell, perform-make_ldr-make_str}
use lc3_script_tools.Isa.Control.{read_mcr, bit_clear}

mcr-IsCell : (b : Build) → IsCell b addr_mcr
mcr-IsCell lc3_16bit = record {
  in_memory = omega arith;
  not_kbsr = λ e. omega arith;
  not_kbdr = λ e. omega arith;
  not_dsr = λ e. omega arith;
  not_ddr = λ e. omega arith;
}
mcr-IsCell lc3_32bit = record {
  in_memory = omega arith;
  not_kbsr = λ e. omega arith;
  not_kbdr = λ e. omega arith;
  not_dsr = λ e. omega arith;
  not_ddr = λ e. omega arith;
}

module _ (b : Build) (console : Console) (vm : Vm) (src base : ℕ) (v : ℤ) where
  -- After the STR is fetched, and after it is performed.
  abbrev fetched : Vm
  fetched = record vm { reg = update vm.reg reg_pc (word b (vm.reg reg_pc + 1)) }

  abbrev pub halted : Vm
  halted = record fetched { mem = update vm.mem addr_mcr (vm.reg src) }

  stores :
      src < 8
      → base < 8
      → Fits 6 v
      → word b (vm.reg base + of_signed (register_bits b) v) ≡ addr_mcr
      → vm_perform b console (make_str (config 16) src base v) fetched ≡ (success, halted)
  stores src_fits base_fits v_fits at_mcr =
      let same_base : fetched.reg base ≡ vm.reg base = ground arith in
      let same_src : fetched.reg src ≡ vm.reg src = ground arith in
      let at : word b (fetched.reg base + of_signed (register_bits b) v) ≡ addr_mcr =
        rw same_base at_mcr in
      let done =
        perform-make_ldr-make_str b console fetched src 0 base src_fits (omega arith) base_fits v
          v_fits (rw at (mcr-IsCell b)) in
      done.0 ∙ rw (at, same_src) refl

  -- While the clock runs, an STR in a memory cell at the PC that stores a word with the status bit
  -- clear in MCR ends the run, in either build and with any fuel from 2 rounds: the result is
  -- VM_RES_ADDR_MCR, MCR holds the word, the PC is past the STR, and nothing else has changed, since
  -- the next instruction is not fetched.
  pub vm_run_halts :
      (fuel : ℕ)
      → src < 8
      → base < 8
      → Fits 6 v
      → ltb 0 (bit_and (vm.mem addr_mcr) (status_bit b)) ≡ true
      → IsCell b (vm.reg reg_pc)
      → vm.mem (vm.reg reg_pc) ≡ make_str (config 16) src base v
      → word b (vm.reg base + of_signed (register_bits b) v) ≡ addr_mcr
      → vm.reg src < status_bit b
      → vm_run b console (suc (suc fuel)) vm ≡ some (res_addr_mcr, halted)
  unfolding vm_run vm_round check_status
  vm_run_halts fuel src_fits base_fits v_fits on cell is_str at_mcr clear =
      let stored : halted.mem addr_mcr ≡ vm.reg src = update_self vm.mem addr_mcr (vm.reg src) in
      rw
        (
          read_mcr b console vm,
          on,
          read_cell b console (vm.reg reg_pc) vm cell,
          is_str,
          stores src_fits base_fits v_fits at_mcr,
          read_mcr b console halted,
          stored,
          bit_clear b (vm.reg src) clear,
        )
        refl
