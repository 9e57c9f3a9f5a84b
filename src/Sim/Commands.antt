-- ===== src/Sim/Commands.antt =====
-- The commands of lc3tools/lc3sim.c that run or show the machine: continue, dump, finish,
-- list, memory, next, printregs, quit, step, translate and x.
use lc3_script_tools.Base.{ℕ, ◌+◌, ◌%◌, false, none, some, List, [], ◌∷◌, ◌++◌, if◌then◌else◌}
use lc3_script_tools.Sim.Text.{Text, text, hex, hex_lower}
use lc3_script_tools.Sim.Inst.{has_bit, flg_subroutine, r_pc}
use lc3_script_tools.Sim.State.{
  World, exited, M, ◌>>=◌, ◌>>◌, fail, gets, modify, print, puts, by_mode,
}
use lc3_script_tools.Sim.Memory.{read_memory}
use lc3_script_tools.Sim.Disassemble.{disassemble, disassemble_one}
use lc3_script_tools.Sim.Store.{write_memory, dump_delayed_mem_updates}
use lc3_script_tools.Sim.Execute.{execute_instruction, run_until_stopped}
use lc3_script_tools.Sim.Show.{print_registers, show_state_if_stop_visible}
use lc3_script_tools.Sim.Dump.{dump_memory, flush_console_input}
use lc3_script_tools.Sim.Scan.{scan_words}
use lc3_script_tools.Sim.Address.{
  bad_address, warn_if_more, parse_address, parse_range, no_args_allowed,
}

unfoldable dump_help : M (Unit {0})
dump_help = print (
    text "dump options include:\n"
    ++ text "  dump               -- dump memory around PC\n"
    ++ text "  dump <addr>        -- dump memory starting from an address or label\n"
    ++ text "  dump <addr> <addr> -- dump a range of memory\n"
    ++ text "  dump more          -- continue previous dump (or press <Enter>)\n")

unfoldable list_help : M (Unit {0})
list_help = print (
    text "list options include:\n"
    ++ text "  list               -- list instructions around PC\n"
    ++ text "  list <addr>        -- list instructions starting from an address or label\n"
    ++ text "  list <addr> <addr> -- list a range of instructions\n"
    ++ text "  list more          -- continue previous listing (or press <Enter>)\n")

module _ (world : World) where
  unfoldable pub cmd_continue : ℕ → Text → M (Unit {0})
  cmd_continue fuel args = do
    no_args_allowed args
    restarted ← gets (λ s. s.interrupted_at_gui_request)
    if restarted
        then modify (λ s. record s { interrupted_at_gui_request = false })
        else flush_console_input world fuel
    run_until_stopped world fuel

  unfoldable pub cmd_dump : Text → M (Unit {0})
  unfolding dump_help
  cmd_dump args = do
    last_end ← gets (λ s. s.last_dump)
    range ← parse_range args (some last_end) (some 48)
    elim range [
      | none ↦ dump_help
      | some r ↦ do dump_memory world r.0 r.1; modify (λ s. record s { last_dump = r.1 })
    ]

  unfoldable pub cmd_finish : ℕ → Text → M (Unit {0})
  cmd_finish fuel args = do
    no_args_allowed args
    flush_console_input world fuel
    modify (λ s. record s { finish_depth = 1 })
    run_until_stopped world fuel

  unfoldable pub cmd_list : Text → M (Unit {0})
  unfolding list_help
  cmd_list args = do
    last_end ← gets (λ s. s.last_list)
    range ← parse_range args (some last_end) (some 10)
    elim range [
      | none ↦ list_help
      | some r ↦ do disassemble world r.0 r.1; modify (λ s. record s { last_list = r.1 })
    ]

  unfoldable pub cmd_memory : Text → M (Unit {0})
  cmd_memory args = do
    range ← parse_range args none none
    elim range [
      | none ↦
          by_mode
            (print (text "ERR {No address or label corresponding to the desired value exists.}\n"))
            (print (text "syntax: memory <addr> <value>\n"))
      | some r ↦ do
        write_memory world r.0 r.1
        by_mode
            (print (text "TRANS x" ++ hex 4 r.0 ++ text " x" ++ hex 4 r.1 ++ text "\n")
              >> disassemble_one world r.0)
            (print (text "Wrote x" ++ hex 4 r.1 ++ text " to address x" ++ hex 4 r.0 ++ text ".\n"))
    ]

  -- True if the call was entered and the run to its return is done.
  unfoldable pub cmd_next : ℕ → Text → M (Unit {0})
  cmd_next fuel args = do
    next_pc ← gets (λ s. (s.reg r_pc + 1) % 65536)
    no_args_allowed args
    flush_console_input world fuel
    more ← execute_instruction world
    flags ← gets (λ s. s.last_flags)
    if if more then has_bit flags flg_subroutine else false
        then (do
          modify (λ s. record s { sys_bpt_addr = some next_pc })
          run_until_stopped world fuel)
        else show_state_if_stop_visible world

  unfoldable pub cmd_printregs : Text → M (Unit {0})
  cmd_printregs args = no_args_allowed args >> print_registers world

  unfoldable pub cmd_quit : Text → M (Unit {0})
  cmd_quit args = no_args_allowed args >> fail (exited 0)

  unfoldable pub cmd_step : ℕ → Text → M (Unit {0})
  cmd_step fuel args = do
    no_args_allowed args
    flush_console_input world fuel
    more ← execute_instruction world
    show_state_if_stop_visible world

  -- The value is read after the address is known.
  unfoldable show_translation : ℕ → M (Unit {0})
  show_translation value = do
    v ← read_memory world value
    by_mode (print (text "TRANS x" ++ hex 4 value ++ text " x" ++ hex 4 v ++ text "\n")) (
        print
          (text "Address x" ++ hex 4 value ++ text " has value x" ++ hex_lower 4 v ++ text ".\n"))

  unfoldable translate_words : List Text → M (Unit {0})
  unfolding show_translation warn_if_more
  translate_words [] = puts (text "syntax: translate <addr>")
  translate_words (arg1 ∷ trash) = do
    warn_if_more trash
    value ← gets (λ s. parse_address arg1 s.symbols)
    elim value [
      | none ↦ by_mode (print (text "ERR {No such address or label exists.}\n")) (puts bad_address)
      | some v ↦ show_translation v
    ]

  unfoldable pub cmd_translate : Text → M (Unit {0})
  unfolding translate_words
  cmd_translate args = translate_words (scan_words (80 ∷ 1 ∷ []) args)

  unfoldable pub gui_stop_and_dump : M (Unit {0})
  gui_stop_and_dump = do
    modify (λ s. record s {
      interrupted_at_gui_request = false;
      sys_bpt_addr = none;
      finish_depth = 0;
    })
    dump_delayed_mem_updates world
    print_registers world

  unfoldable pub cmd_lc3_stop : Text → M (Unit {0})
  unfolding gui_stop_and_dump
  cmd_lc3_stop args = gui_stop_and_dump
