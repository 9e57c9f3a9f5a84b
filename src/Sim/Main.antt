-- ===== src/Sim/Main.antt =====
-- main of lc3tools/lc3sim.c.
use lc3_script_tools.Base.{ℕ, true, false, none, some, List, [], ◌∷◌, if◌then◌else◌}
use lc3_script_tools.Sim.Text.{Text, text, same_text}
use lc3_script_tools.Sim.State.{
  World, stdin, socket, in_file, Sim, M, ◌>>◌, pure, modify, print, puts,
}
use lc3_script_tools.Sim.Help.{usage}
use lc3_script_tools.Sim.Machine.{init_machine}
use lc3_script_tools.Sim.Loop.{cmd_execute, command_loop}

-- The static variables before main.
unfoldable pub boot : Sim
boot = record {
  reg = λ _. 0;
  mem = λ _. 0;
  show_later = λ _. false;
  breakpoints = λ _. false;
  symbols = record {
    symbols = λ _. record { name = []; addr = 0 };
    sym_hash = λ _. [];
    sym_names = λ _. [];
    unused = 0;
  };
  start_script = none;
  start_file = none;
  trace_file = none;
  should_halt = true;
  last_kbsr_read = false;
  last_dsr_read = false;
  gui_mode = false;
  interrupted_at_gui_request = false;
  stop_scripts = false;
  in_init = false;
  have_mem_to_dump = false;
  need_a_stop_notice = false;
  sys_bpt_addr = none;
  finish_depth = 0;
  last_flags = 0;
  options = record {
    flush_on_start = true;
    keep_input_on_stop = true;
    rand_device = true;
    delay_mem_update = true;
    script_uses_stdin = true;
  };
  script_depth = 0;
  tracing = false;
  lc3in = stdin;
  sim_in = stdin;
  last_dump = 0;
  last_list = 0;
  clock = 0;
  output = [];
  console = [];
  trace = [];
}

module _ (world : World) where
  abbrev initialize : ℕ → M (Unit {0})
  initialize fuel = init_machine world fuel (cmd_execute world (command_loop world fuel none))

  -- The commands from the standard input, after the machine was started.
  unfoldable interact : ℕ → M ℕ
  interact fuel = do initialize fuel; command_loop world fuel none; puts []; pure 0

  unfoldable run_script : ℕ → Text → M ℕ
  run_script fuel file = do
    modify (λ s. record s { start_script = some file })
    initialize fuel
    pure 0

  unfoldable start_with : ℕ → Text → M ℕ
  unfolding interact
  start_with fuel file = do modify (λ s. record s { start_file = some file }); interact fuel

  unfoldable start_traced : ℕ → Text → Text → M ℕ
  unfolding interact
  start_traced fuel trace file = do
    modify (λ s. record s { trace_file = some trace; start_file = some file })
    interact fuel

  abbrev refuse : M ℕ
  refuse = usage >> pure 0

  -- The arguments that are left.
  unfoldable dispatch : ℕ → List Text → M ℕ
  unfolding interact run_script start_with start_traced
  dispatch fuel [] = interact fuel
  dispatch fuel (a ∷ []) = if same_text a (text "-h") then refuse else start_with fuel a
  dispatch fuel (a ∷ b ∷ []) = if same_text a (text "-s") then run_script fuel b else refuse
  dispatch fuel (a ∷ b ∷ c ∷ []) = if same_text a (text "-t") then start_traced fuel b c else refuse
  dispatch fuel (a ∷ b ∷ c ∷ d ∷ more) = refuse

  unfoldable with_gui : ℕ → List Text → M ℕ
  unfolding dispatch
  with_gui fuel rest =
      if world.gui_connects
      then modify (λ s. record s { gui_mode = true; lc3in = socket }) >> dispatch fuel rest
      else print (text "failed to connect to GUI\n") >> pure 1

  unfoldable with_files : ℕ → List Text → M ℕ
  unfolding dispatch
  with_files fuel rest =
      modify
        (λ s. record s { options = record s.options { flush_on_start = false }; lc3in = in_file })
      >> dispatch fuel rest

  -- `args` follow the name of the program; the two files of `-fileio` are opened.
  unfoldable pub main : ℕ → List Text → M ℕ
  unfolding with_gui with_files dispatch
  main fuel [] = dispatch fuel []
  main fuel (a ∷ []) =
      if same_text a (text "-gui") then with_gui fuel [] else dispatch fuel (a ∷ [])
  main fuel (a ∷ b ∷ []) =
      if same_text a (text "-gui") then with_gui fuel (b ∷ []) else dispatch fuel (a ∷ b ∷ [])
  main fuel (a ∷ b ∷ c ∷ rest) =
      if same_text a (text "-gui")
      then with_gui fuel (b ∷ c ∷ rest)
      else if same_text a (text "-fileio")
      then with_files fuel rest
      else dispatch fuel (a ∷ b ∷ c ∷ rest)
