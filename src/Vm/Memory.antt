-- ===== src/Vm/Memory.antt =====
-- Creation and memory: vm_create, vm_mem_read, vm_read and vm_write of lc3sim-c/vm.c.
use lc3_script_tools.Base.{
  ℕ, ◌+◌, ◌%◌, ◌^◌, Bool, [], ◌∷◌, ◌++◌, ◌==◌, ltb, leb, if◌then◌else◌, update,
}
use lc3_script_tools.Vm.Types.{
  Build, addr_max, addr_initial, addr_kbsr, addr_kbdr, addr_dsr, addr_ddr, addr_mcr, status_bit,
  reg_pc, reg_psr, flag_zero, error_addres_out_of_range,
}
use lc3_script_tools.Vm.State.{Console, Vm, ok, M, ◌>>=◌, pure, halt, char_word}

-- `calloc` zeroes the memory and the registers. Cells past the array's end are never read.
unfoldable pub vm_create : Build → Vm
vm_create b = record {
  mem = update (λ _. 0) addr_mcr (status_bit b);
  reg = update (update (λ _. 0) reg_pc addr_initial) reg_psr flag_zero;
  polls = 0;
  reads = 0;
  output = [];
}

module _ (b : Build) where
  load : ℕ → M ℕ
  load addr vm = (ok (vm.mem addr), vm)

  unfoldable pub vm_mem_read : ℕ → M ℕ
  unfolding load
  vm_mem_read addr = if leb (addr_max b) addr then halt error_addres_out_of_range else load addr

  -- `putchar` writes its argument as an unsigned char.
  unfoldable putchar : ℕ → M (Unit {0})
  putchar val vm = (ok tt, record vm { output = vm.output ++ val % 2 ^ 8 ∷ [] })

  store : ℕ → ℕ → M (Unit {0})
  store addr val vm = (ok tt, record vm { mem = update vm.mem addr val })

  unfoldable pub vm_write : ℕ → ℕ → M (Unit {0})
  unfolding putchar store
  vm_write addr val =
      if addr == addr_kbsr
      then pure tt
      else if addr == addr_kbdr
      then pure tt
      else if addr == addr_dsr
      then pure tt
      else if addr == addr_ddr
      then putchar val
      else if leb (addr_max b) addr
      then halt error_addres_out_of_range
      else store addr val

  module _ (console : Console) where
    unfoldable pub select_stdin : M Bool
    select_stdin vm = (ok (console.select_result vm.polls), record vm { polls = vm.polls + 1 })

    unfoldable pub getchar : M ℕ
    getchar vm = (ok (char_word b (console.next_char vm.reads)), record vm { reads = vm.reads + 1 })

    unfoldable pub read_kbsr : M ℕ
    unfolding select_stdin
    read_kbsr = do ready ← select_stdin; pure (if ready then status_bit b else 0)

    unfoldable pub read_kbdr : M ℕ
    unfolding read_kbsr getchar
    read_kbdr = do kbsr ← read_kbsr; if ltb 0 kbsr then getchar else pure 0

    unfoldable pub vm_read : ℕ → M ℕ
    unfolding read_kbsr read_kbdr vm_mem_read
    vm_read addr =
        if addr == addr_kbsr
        then read_kbsr
        else if addr == addr_kbdr
        then read_kbdr
        else if addr == addr_dsr
        then pure (status_bit b)
        else if addr == addr_ddr
        then pure 0
        else vm_mem_read addr
