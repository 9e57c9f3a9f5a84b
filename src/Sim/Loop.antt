-- ===== src/Sim/Loop.antt =====
-- The command loop of lc3tools/lc3sim.c: simple_readline, command_loop
-- and cmd_execute, in the build without readline.
use lc3_script_tools.Base.{
  ℕ, zero, suc, ◌+◌, ◌-◌, Bool, true, false, not, ◌&&◌, Option, none, some, [], ◌++◌, ◌==◌,
  if◌then◌else◌,
}
use lc3_script_tools.Sim.Text.{Text, text, dec, skip_spaces}
use lc3_script_tools.Sim.State.{
  World, stdin, socket, script, line, end_of_file, interrupted, out_of_fuel, M, ◌>>=◌, ◌>>◌, pure,
  fail, gets, modify, when, ask, print, puts,
}
use lc3_script_tools.Sim.Command.{
  Command, c_break, c_continue, c_dump, c_execute, c_file, c_tracefile, c_finish, c_help, c_list,
  c_memory, c_next, c_option, c_printregs, c_quit, c_register, c_reset, c_step, c_translate,
  c_lc3_stop, commands, find_command, strip_newline, chosen, next_last,
}
use lc3_script_tools.Sim.Scan.{take_word}
use lc3_script_tools.Sim.Break.{cmd_break}
use lc3_script_tools.Sim.Commands.{
  cmd_continue, cmd_dump, cmd_finish, cmd_list, cmd_memory, cmd_next, cmd_printregs, cmd_quit,
  cmd_step, cmd_translate, cmd_lc3_stop,
}
use lc3_script_tools.Sim.Settings.{cmd_option, cmd_register}
use lc3_script_tools.Sim.Help.{cmd_help}
use lc3_script_tools.Sim.Machine.{cmd_file, cmd_tracefile, cmd_reset}

abbrev max_script_depth : ℕ
max_script_depth = 10

module _ (world : World) where
  -- Prompts until a line, or the end of the input: `none` is NULL.
  unfoldable pub read_line : ℕ → Text → M (Option Text)
  unfolding strip_newline
  read_line zero prompt = fail out_of_fuel
  read_line (suc fuel) prompt = do
    prompts ← gets (λ s. not s.gui_mode && s.script_depth == 0)
    when prompts (print prompt)
    f ← gets (λ s. s.sim_in)
    got ← ask (world.next_line f)
    elim got [
      | line buf ↦ pure (some (strip_newline buf))
      | end_of_file ↦ pure none
      | interrupted ↦ puts [] >> read_line fuel prompt
    ]

  -- Without a command of the GUI's that waits, an interrupted run goes on.
  unfoldable goes_on_by_itself : M Bool
  goes_on_by_itself = do
    gui ← gets (λ s. s.gui_mode)
    if gui
        then (do
          f ← gets (λ s. s.sim_in)
          there ← ask (world.ready f)
          stopped ← gets (λ s. s.interrupted_at_gui_request)
          pure (not there && stopped))
        else pure false

  unfoldable simple_readline : ℕ → Text → M (Option Text)
  unfolding read_line goes_on_by_itself
  simple_readline fuel prompt = do
    on ← goes_on_by_itself
    if on then pure (some (text "c")) else read_line fuel prompt

  -- `loop` is command_loop.
  unfoldable enter_script : M (Unit {0}) → M (Unit {0})
  enter_script loop = do
    previous_input ← gets (λ s. s.sim_in)
    modify (λ s. record s { script_depth = s.script_depth + 1 })
    modify (λ s. record s { sim_in = script s.script_depth })
    modify (λ s. record s { lc3in = if not s.options.script_uses_stdin then s.sim_in else s.lc3in })
    loop
    modify (λ s. record s { sim_in = previous_input; script_depth = s.script_depth - 1 })
    outermost ← gets (λ s. s.script_depth == 0)
    if outermost
        then modify
            (λ s. record s { lc3in = if s.gui_mode then socket else stdin; stop_scripts = false })
        else modify (λ s. record s {
          lc3in = if not s.options.script_uses_stdin then previous_input else s.lc3in;
        })

  unfoldable stop_all : Text → M (Unit {0})
  stop_all message = print message >> modify (λ s. record s { stop_scripts = true })

  unfoldable pub cmd_execute : M (Unit {0}) → Text → M (Unit {0})
  unfolding enter_script stop_all
  cmd_execute loop args = do
    deep ← gets (λ s. s.script_depth == max_script_depth)
    if deep
        then stop_all (
            text "Cannot execute more than "
            ++ dec max_script_depth
            ++ text " levels of scripts!\n")
        else (do
          file ← ask (world.contents args)
          elim file [
            | none ↦ stop_all (text "Cannot open script file \"" ++ args ++ text "\".\n")
            | some bytes ↦ enter_script loop
          ])

  unfoldable run_command : ℕ → M (Unit {0}) → Command → Text → M (Unit {0})
  run_command fuel loop c_break args = cmd_break world args
  run_command fuel loop c_continue args = cmd_continue world fuel args
  run_command fuel loop c_dump args = cmd_dump world args
  run_command fuel loop c_execute args = cmd_execute loop args
  run_command fuel loop c_file args = cmd_file world args
  run_command fuel loop c_tracefile args = cmd_tracefile world args
  run_command fuel loop c_finish args = cmd_finish world fuel args
  run_command fuel loop c_help args = cmd_help args
  run_command fuel loop c_list args = cmd_list world args
  run_command fuel loop c_memory args = cmd_memory world args
  run_command fuel loop c_next args = cmd_next world fuel args
  run_command fuel loop c_option args = cmd_option world args
  run_command fuel loop c_printregs args = cmd_printregs world args
  run_command fuel loop c_quit args = cmd_quit world args
  run_command fuel loop c_register args = cmd_register args
  run_command fuel loop c_reset args = cmd_reset world fuel (cmd_execute loop) args
  run_command fuel loop c_step args = cmd_step world fuel args
  run_command fuel loop c_translate args = cmd_translate world args
  run_command fuel loop c_lc3_stop args = cmd_lc3_stop world args

  -- One command: what an empty line will repeat after it.
  unfoldable run_line : ℕ → M (Unit {0}) → Text → M (Option Text)
  unfolding run_command find_command commands next_last
  run_line fuel loop cmd = do
    let word = take_word 40 (skip_spaces cmd)
    gui ← gets (λ s. s.gui_mode)
    elim (find_command gui word.0 commands) [
      | none ↦ do print (text "Unknown command.  Type 'h' for help.\n"); pure none
      | some e ↦ do
        run_command fuel loop e.command (skip_spaces word.1)
        depth ← gets (λ s. s.script_depth)
        pure (next_last e.flag word.0 cmd depth)
    ]

  -- On fuel, which the runs of the commands and the scripts share.
  unfoldable pub command_loop : ℕ → Option Text → M (Unit {0})
  unfolding simple_readline run_line chosen
  command_loop zero last_cmd = fail out_of_fuel
  command_loop (suc fuel) last_cmd = do
    stopped ← gets (λ s. s.stop_scripts)
    if stopped then pure tt else (do
      got ← simple_readline fuel (text "(lc3sim) ")
      elim got [
        | none ↦ pure tt
        | some cmd ↦ elim (chosen cmd last_cmd) [
          | none ↦ command_loop fuel none
          | some c ↦ run_line fuel (command_loop fuel none) c >>= λ last. command_loop fuel last
        ]
      ])
