-- ===== src/Sim/Store.antt =====
-- write_memory, write_memory_traced and dump_delayed_mem_updates of lc3tools/lc3sim.c, in the build
-- without USE_LC3IOEMU.
use lc3_script_tools.Base.{
  ℕ, zero, suc, ◌+◌, ◌%◌, ◌^◌, bit_and, true, false, not, [], ◌∷◌, ◌++◌, ◌==◌, if◌then◌else◌,
  update,
}
use lc3_script_tools.Sim.Text.{Text, text, hex_lower}
use lc3_script_tools.Sim.State.{
  World, M, ◌>>=◌, ◌>>◌, pure, gets, modify, when, by_mode, fprint, traceout,
}
use lc3_script_tools.Sim.Memory.{kbsr, kbdr, dsr, ddr, mcr, load}
use lc3_script_tools.Sim.Disassemble.{disassemble_one}

-- `fprintf (lc3out, "%c", value)`.
unfoldable pub put_console : ℕ → M (Unit {0})
put_console value = modify (λ s. record s { console = s.console ++ value % 2 ^ 8 ∷ [] })

unfoldable pub write_ddr : ℕ → M (Unit {0})
unfolding put_console
write_ddr value = do
  last ← gets (λ s. s.last_dsr_read)
  when last (do put_console value; modify (λ s. record s { last_dsr_read = false }))

unfoldable pub write_mcr : ℕ → M (Unit {0})
write_mcr value = when (bit_and value 0x8000 == 0) (modify (λ s. record s { should_halt = true }))

unfoldable pub trace_write : ℕ → ℕ → Text
unfolding hex_lower
trace_write addr value =
    text "MEM["
    ++ hex_lower 4 (addr % 65536)
    ++ text "] WR "
    ++ hex_lower 4 (value % 65536)
    ++ text "\n"

module _ (world : World) where
  -- The GUI is shown a changed cell, at once or when the LC-3 stops.
  unfoldable pub show_change : ℕ → M (Unit {0})
  show_change addr = do
    delay ← gets (λ s. s.options.delay_mem_update)
    if not delay
        then disassemble_one world addr
        else modify
            (λ s. record s { show_later = update s.show_later addr true; have_mem_to_dump = true })

  unfoldable pub store : ℕ → ℕ → M (Unit {0})
  unfolding load show_change
  store addr value = do
    old ← load addr
    when (not (value == old)) (do
      modify (λ s. record s { mem = update s.mem addr value })
      by_mode (show_change addr) (pure tt))

  unfoldable pub write_memory : ℕ → ℕ → M (Unit {0})
  unfolding write_ddr write_mcr store
  write_memory addr value =
      if addr == kbsr
      then pure tt
      else if addr == kbdr
      then pure tt
      else if addr == dsr
      then pure tt
      else if addr == ddr
      then write_ddr value
      else if addr == mcr
      then write_mcr value
      else store addr value

  unfoldable pub write_memory_traced : ℕ → ℕ → M (Unit {0})
  unfolding write_memory trace_write
  write_memory_traced addr value = do
    tracing ← gets (λ s. s.tracing)
    when tracing (fprint traceout (trace_write addr value))
    write_memory addr value

  -- The loop of dump_delayed_mem_updates: `n` addresses from `addr`.
  unfoldable pub dump_loop : ℕ → ℕ → M (Unit {0})
  dump_loop zero addr = pure tt
  dump_loop (suc n) addr = do
    later ← gets (λ s. s.show_later addr)
    when later (do
      disassemble_one world addr
      modify (λ s. record s { show_later = update s.show_later addr false }))
    dump_loop n (addr + 1)

  unfoldable pub dump_delayed_mem_updates : M (Unit {0})
  dump_delayed_mem_updates = do
    some_later ← gets (λ s. s.have_mem_to_dump)
    when some_later (do modify (λ s. record s { have_mem_to_dump = false }); dump_loop 65536 0)
