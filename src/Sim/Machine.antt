-- ===== src/Sim/Machine.antt =====
-- Loading a file, the trace and the start of the machine: cmd_file, cmd_tracefile, init_machine and
-- cmd_reset of lc3tools/lc3sim.c. What executes a script is a parameter.
use lc3_script_tools.Base.{
  ℕ, zero, suc, ◌+◌, ◌^◌, ◌*◌, Bool, true, false, not, ◌&&◌, ◌||◌, Option, none, some, [], ◌∷◌,
  ◌++◌, ltb, ◌==◌, if◌then◌else◌, length,
}
use lc3_script_tools.Symbol.Names.{same_name}
use lc3_script_tools.Sim.Text.{Text, text, hex}
use lc3_script_tools.Sim.Inst.{r_pc, r_psr}
use lc3_script_tools.Sim.State.{
  World, Sim, M, ◌>>=◌, ◌>>◌, pure, gets, modify, when, ask, set_reg, print, by_mode,
}
use lc3_script_tools.Sim.Disassemble.{disassemble}
use lc3_script_tools.Sim.Store.{write_memory}
use lc3_script_tools.Sim.Show.{print_register, show_state_if_stop_visible}
use lc3_script_tools.Sim.Execute.{run_until_stopped}
use lc3_script_tools.Sim.Files.{read_obj_file, read_sym_file}
use lc3_script_tools.Sim.Address.{no_args_allowed}
use lc3_script_tools.Sim.Commands.{cmd_continue, cmd_quit, gui_stop_and_dump}

abbrev max_file_name_len : ℕ
max_file_name_len = 251

unfoldable has_byte : ℕ → Text → Bool
has_byte c [] = false
has_byte c (d ∷ t) = (d == c) || has_byte c t

-- `strrchr (buf, '.')`: what stands before the last dot, and from it on.
unfoldable split_extension : Text → Option (Text × Text)
unfolding has_byte
split_extension [] = none
split_extension (c ∷ t) = elim (split_extension t) [
  | some parts ↦ some (c ∷ parts.0, parts.1)
  | none ↦ if c == 46 then some ([], c ∷ t) else none
]

-- A dot in the name of a directory starts no extension.
unfoldable pub extension : Text → Option (Text × Text)
unfolding split_extension has_byte
extension name = elim (split_extension name) [
  | none ↦ none
  | some parts ↦ if has_byte 47 parts.1 then none else some parts
]

-- A message of the GUI's form, or the plain one.
abbrev complain : Text → Text → M (Unit {0})
complain gui plain =
    by_mode (print (text "ERR {" ++ gui ++ text "}\n")) (print (plain ++ text "\n"))

module _ (world : World) where
  -- What is shown of a file that was loaded.
  unfoldable show_loaded : Text → Bool → ℕ × ℕ → M (Unit {0})
  show_loaded stem no_symbols range =
      by_mode
        (do
          disassemble world range.0 range.1
          print (text "TOCODE\n")
          print_register r_pc
          when no_symbols (print (text "ERR {WARNING: No symbols are available.}\n")))
        (do
          print (
              text "Loaded \""
              ++ stem
              ++ text ".obj\" and set PC to x"
              ++ hex 4 range.0
              ++ text "\n")
          when no_symbols (print (text "WARNING: No symbols are available.\n")))

  -- The name to load, and the same without its extension.
  unfoldable load_program : Text → Text → M (Unit {0})
  unfolding show_loaded
  load_program name stem = do
    range ← read_obj_file world name
    elim range [
      | none ↦
          complain (text "Failed to load \"" ++ name ++ text ".\"")
            (text "Failed to load \"" ++ name ++ text ".\"")
      | some r ↦ do
        modify (λ s. record s { start_file = some name })
        symbols ← read_sym_file world (stem ++ text ".sym")
        set_reg r_pc r.0
        show_loaded stem (not symbols) r
        stopped ← gets (λ s. s.interrupted_at_gui_request)
        when stopped (gui_stop_and_dump world)
    ]

  unfoldable load_symbols : Text → M (Unit {0})
  load_symbols name = do
    loaded ← read_sym_file world name
    print (
        (if loaded then text "Read symbols from \"" else text "Failed to read symbols from \"")
        ++ name
        ++ text ".\"\n")

  unfoldable load_named : Text → M (Unit {0})
  unfolding load_program load_symbols extension
  load_named args = elim (extension args) [
    | none ↦ load_program (args ++ text ".obj") args
    | some parts ↦ do
      gui ← gets (λ s. s.gui_mode)
      if not gui && same_name parts.1 (text ".sym")
          then load_symbols args
          else if not (same_name parts.1 (text ".obj"))
          then complain (text "Only .obj files can be loaded.")
              (text "Only .obj or .sym files can be loaded.")
          else load_program args parts.0
  ]

  unfoldable pub cmd_file : Text → M (Unit {0})
  unfolding load_named
  cmd_file args =
      if (length args == 0) || ltb 250 (length args)
      then complain (text "Could not parse file name!") (text "syntax: file <file to load>")
      else load_named args

  unfoldable pub cmd_tracefile : Text → M (Unit {0})
  cmd_tracefile args = do
    opened ← ask (world.writable args)
    modify (λ s. record s { tracing = opened; trace = [] })
    print (
        if opened
        then text "Trace of the state change during the simulation will be saved to \""
          ++ args
          ++ text "\"\n"
        else text "Error opening trace file \"" ++ args ++ text "\"\n")

  -- The state that init_machine sets to zeroes.
  abbrev pub cleared : Sim → Sim
  cleared s = record s {
    reg = λ i. if i == r_psr then 2 * 2 ^ 9 else 0;
    mem = λ _. 0;
    show_later = λ _. false;
    symbols = record s.symbols { sym_names = λ _. []; sym_hash = λ _. [] };
    breakpoints = λ _. false;
  }

  unfoldable load_os : ℕ → M (Unit {0})
  load_os fuel = do
    range ← read_obj_file world (world.install_dir ++ text "/lc3os.obj")
    elim range [
      | none ↦ do
        complain (text "Failed to read LC-3 OS code.") (text "Failed to read LC-3 OS code.")
        show_state_if_stop_visible world
      | some r ↦ do
        symbols ← read_sym_file world (world.install_dir ++ text "/lc3os.sym")
        when (not symbols) (
            complain (text "Failed to read LC-3 OS symbols.")
              (text "Failed to read LC-3 OS symbols."))
        by_mode (disassemble world r.0 r.1) (pure tt)
        set_reg r_pc 0x0200
        run_until_stopped world fuel
    ]

  abbrev if_some : Option Text → (Text → M (Unit {0})) → M (Unit {0})
  if_some none f = pure tt
  if_some (some t) f = f t

  -- The program to start with, and the run of one that is traced, which ends in `exit`.
  unfoldable start_program : ℕ → M (Unit {0})
  start_program fuel = do
    trace_file ← gets (λ s. s.trace_file)
    if_some trace_file cmd_tracefile
    start_file ← gets (λ s. s.start_file)
    if_some start_file cmd_file
    if_some trace_file (λ t. cmd_continue world fuel [] >> cmd_quit world [])

  -- `execute` is cmd_execute.
  unfoldable pub init_machine : ℕ → (Text → M (Unit {0})) → M (Unit {0})
  unfolding load_os start_program
  init_machine fuel execute = do
    modify (λ s. cleared (record s { in_init = true }))
    load_os fuel
    modify (λ s. record s { in_init = false })
    start_script ← gets (λ s. s.start_script)
    elim start_script [ none ↦ start_program fuel | some script ↦ execute script ]

  -- Zeroes are written over `n` cells from `addr`.
  unfoldable erase_loop : ℕ → ℕ → M (Unit {0})
  erase_loop zero addr = pure tt
  erase_loop (suc n) addr = write_memory world addr 0 >> erase_loop n (addr + 1)

  unfoldable reset_machine : ℕ → (Text → M (Unit {0})) → M (Unit {0})
  unfolding init_machine erase_loop
  reset_machine fuel execute = do
    by_mode
        (do
          modify (λ s. record s { interrupted_at_gui_request = false })
          erase_loop 65536 0
          gui_stop_and_dump world)
        (pure tt)
    modify (λ s. record s {
      last_kbsr_read = false;
      last_dsr_read = false;
      have_mem_to_dump = false;
      need_a_stop_notice = false;
      sys_bpt_addr = none;
      finish_depth = 0;
    })
    init_machine fuel execute
    by_mode (print (text "TOCODE\n")) (pure tt)

  unfoldable pub cmd_reset : ℕ → (Text → M (Unit {0})) → Text → M (Unit {0})
  unfolding reset_machine
  cmd_reset fuel execute args = do
    in_script ← gets (λ s. ltb 0 s.script_depth)
    if in_script
        then complain (text "Cannot reset the LC-3 from within a script.")
            (text "Cannot reset the LC-3 from within a script.")
        else no_args_allowed args >> reset_machine fuel execute
