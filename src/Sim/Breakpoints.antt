-- ===== src/Sim/Breakpoints.antt =====
-- The breakpoints of the user: set_breakpoint, clear_breakpoint, clear_all_breakpoints and
-- list_breakpoints of lc3tools/lc3sim.c.
use lc3_script_tools.Base.{ℕ, zero, suc, ◌+◌, Bool, true, false, not, ◌++◌, if◌then◌else◌, update}
use lc3_script_tools.Sim.Text.{text, hex, dec}
use lc3_script_tools.Sim.State.{
  World, M, ◌>>=◌, ◌>>◌, pure, gets, modify, when, print, by_mode, plainly, check_index,
}
use lc3_script_tools.Sim.Disassemble.{disassemble_one}

unfoldable pub set_breakpoint : ℕ → M (Unit {0})
set_breakpoint addr = do
  check_index addr
  there ← gets (λ s. s.breakpoints addr)
  if there then plainly (print (text "That breakpoint is already set.\n")) else (do
    modify (λ s. record s { breakpoints = update s.breakpoints addr true })
    by_mode (print (text "BREAK " ++ dec (addr + 1) ++ text "\n"))
        (print (text "Set breakpoint at x" ++ hex 4 addr ++ text ".\n")))

unfoldable pub clear_breakpoint : ℕ → M (Unit {0})
clear_breakpoint addr = do
  check_index addr
  there ← gets (λ s. s.breakpoints addr)
  if there
      then by_mode (print (text "BCLEAR " ++ dec (addr + 1) ++ text "\n"))
          (print (text "Cleared breakpoint at x" ++ hex 4 addr ++ text ".\n"))
      else plainly (print (text "No such breakpoint was set.\n"))
  modify (λ s. record s { breakpoints = update s.breakpoints addr false })

abbrev pub clear_all_breakpoints : M (Unit {0})
clear_all_breakpoints = modify (λ s. record s { breakpoints = λ _. false })

-- The loop of list_breakpoints: `n` addresses from `i`, and whether one was found.
unfoldable list_loop : World → ℕ → ℕ → Bool → M Bool
list_loop world zero i found = pure found
list_loop world (suc n) i found = do
  here ← gets (λ s. s.breakpoints i)
  if here
      then (do
        when (not found) (print (text "The following instructions are set as breakpoints:\n"))
        disassemble_one world i
        list_loop world n (i + 1) true)
      else list_loop world n (i + 1) found

unfoldable pub list_breakpoints : World → M (Unit {0})
unfolding list_loop
list_breakpoints world = do
  found ← list_loop world 65536 0 false
  when (not found) (print (text "No breakpoints are set.\n"))
