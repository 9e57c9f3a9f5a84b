-- ===== src/Sim/Dump.antt =====
-- dump_memory and flush_console_input of lc3tools/lc3sim.c.
use lc3_script_tools.Base.{
  ℕ, zero, suc, ◌+◌, ◌*◌, ◌/◌, ◌%◌, ◌&&◌, Option, none, some, List, [], ◌∷◌, ◌++◌, ltb, leb, ◌==◌,
  if◌then◌else◌,
}
use lc3_script_tools.Sim.Text.{Text, text, hex, is_print}
use lc3_script_tools.Sim.State.{
  World, out_of_fuel, M, ◌>>=◌, ◌>>◌, pure, fail, gets, ask, print, puts,
}
use lc3_script_tools.Sim.Memory.{read_memory, poll_lc3in}

-- A cell as a character; outside of the range there is a space.
unfoldable cell_char : Option ℕ → ℕ
unfolding is_print
cell_char none = 32
cell_char (some v) = if ltb v 0x100 && is_print v then v else 46

module _ (world : World) where
  -- The cells of a row, `n` from `addr`: `none` is outside of the range.
  unfoldable dump_cells : ℕ → ℕ → ℕ → ℕ → M (List (Option ℕ))
  dump_cells zero addr addr_s addr_e = pure []
  dump_cells (suc n) addr addr_s addr_e = do
    cell ←
        if leb addr_s addr && ltb addr addr_e
        then (do v ← read_memory world (addr % 65536); print (hex 4 v ++ text " "); pure (some v))
        else (do print (text "     "); pure none)
    more ← dump_cells n (addr + 1) addr_s addr_e
    pure (cell ∷ more)

  unfoldable cell_chars : List (Option ℕ) → Text
  unfolding cell_char
  cell_chars [] = []
  cell_chars (cell ∷ more) = cell_char cell ∷ cell_chars more

  unfoldable dump_row : ℕ → ℕ → ℕ → M (Unit {0})
  unfolding dump_cells cell_chars
  dump_row start addr_s addr_e = do
    print (hex 4 (start % 65536) ++ text ": ")
    cells ← dump_cells 12 start addr_s addr_e
    print (text " ")
    print (cell_chars cells)
    puts []

  unfoldable dump_rows : ℕ → ℕ → ℕ → ℕ → M (Unit {0})
  unfolding dump_row
  dump_rows zero start addr_s addr_e = if ltb start addr_e then fail out_of_fuel else pure tt
  dump_rows (suc fuel) start addr_s addr_e =
      let rest = dump_rows fuel (start + 12) addr_s addr_e in
      if ltb start addr_e then dump_row start addr_s addr_e >> rest else pure tt

  -- A range ends below 0x20000, so that 10923 rows of 12 are enough.
  unfoldable pub dump_memory : ℕ → ℕ → M (Unit {0})
  unfolding dump_rows
  dump_memory addr_s addr_e =
      dump_rows 10923 (addr_s / 12 * 12) addr_s
        (if leb addr_e addr_s then addr_e + 0x10000 else addr_e)

  -- The input that is there is read, on fuel.
  unfoldable pub flush_loop : ℕ → M (Unit {0})
  unfolding poll_lc3in
  flush_loop zero = fail out_of_fuel
  flush_loop (suc fuel) = do
    there ← poll_lc3in world
    if there
        then (do f ← gets (λ s. s.lc3in); c ← ask (world.next_char f); flush_loop fuel)
        else pure tt

  unfoldable pub flush_console_input : ℕ → M (Unit {0})
  unfolding flush_loop
  flush_console_input fuel = do
    flush ← gets (λ s. s.options.flush_on_start && s.script_depth == 0)
    if flush then flush_loop fuel else pure tt
