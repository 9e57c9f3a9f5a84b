-- ===== src/Tests/Simulator.antt =====
-- Runs of the model of lc3tools/lc3sim.c on small inputs, and its theorems at them.
use lc3_script_tools.Base.{
  ℕ, ◌/◌, ◌%◌, ◌^◌, ◌≤◌, ◌≡◌, refl, arith, true, false, none, some, [], ◌∷◌, ◌==◌, leb,
  if◌then◌else◌,
}
use lc3_script_tools.Symbol.Table.{find_symbol, find_in}
use lc3_script_tools.Sim.Text.{text, same_prefix, skip_spaces, hex, pad_left, pad_right, dec}
use lc3_script_tools.Sim.Inst.{r_pc, f_imm}
use lc3_script_tools.Sim.Table.{definitions, find_action, find_definition}
use lc3_script_tools.Sim.State.{World, Sim, end_of_file, ok}
use lc3_script_tools.Sim.Disassemble.{line_text, name_at, mnemonic, print_operands}
use lc3_script_tools.Sim.Execute.{execute_instruction, run_until_stopped}
use lc3_script_tools.Sim.Scan.{scan_words}
use lc3_script_tools.Sim.Address.{parse_address}
use lc3_script_tools.Sim.Main.{boot}
use lc3_script_tools.Sim.Triple.{IsValid, IsFault, IsRunning, frame, Post, Any}
use lc3_script_tools.Sim.Triple.Run.{After}
use lc3_script_tools.Sim.Run.Safety.{execute_instruction_safe}
use lc3_script_tools.Sim.Run.AfterLoop.{IsRunEnd, IsStopped, Notified}
use lc3_script_tools.Sim.Run.Stopped.{RanTo, run_until_stopped_lem}
use lc3_script_tools.Sim.Run.Breakpoint.{Passed, execute_instruction_goes_on}
use lc3_script_tools.Sim.Run.Interrupt.{run_until_stopped_interrupted}
use lc3_script_tools.Sim.Breakpoints.{set_breakpoint}
use lc3_script_tools.Sim.Break.{break_at}
use lc3_script_tools.Sim.Break.Effect.{breakpoints_after, break_at_lem}
use lc3_script_tools.Sim.Decode.{decode, find_action-decode}

-- No input and no files; Ctrl-C is pressed from the time 2 on.
abbrev idle : World
idle = record {
  ready = λ f t. false;
  next_char = λ f t. none;
  next_line = λ f t. end_of_file;
  random_zero = λ t. true;
  sigint = λ t. leb 2 t;
  contents = λ name t. none;
  writable = λ name t. false;
  install_dir = [];
  gui_connects = false;
}

-- At x3000 stands ADD R0,R0,#1, and after it a branch back.
abbrev start : Sim
start = record boot {
  reg = λ i. if i == r_pc then 0x3000 else 0;
  mem = λ a. if a == 0x3000 then 0x1021 else if a == 0x3001 then 0x0ffe else 0;
}

start-IsValid : IsValid start
start-IsValid = (λ i. ground arith, λ a. ground arith)

execute_instruction_safe_example :
    Post (IsRunning (frame start)) IsFault Any (execute_instruction idle start)
execute_instruction_safe_example = execute_instruction_safe idle start start-IsValid

run_until_stopped_lem_example :
    After IsRunEnd
      (λ _ s'.
        (IsRunning (frame start) s' × IsStopped s')
        × ((after_loop : Sim) × RanTo idle 5 start after_loop × Notified after_loop s'))
      (run_until_stopped idle 5 start)
run_until_stopped_lem_example = run_until_stopped_lem idle 5 start start-IsValid

execute_instruction_goes_on_example :
    After IsFault (λ more s'. more ≡ true → Passed idle start s') (execute_instruction idle start)
execute_instruction_goes_on_example = execute_instruction_goes_on idle start start-IsValid

pressed_from_2 : (t : ℕ) → 2 ≤ t → idle.sigint t ≡ true
pressed_from_2 t h = ground arith

run_until_stopped_interrupted_example :
    After IsFault
      (λ _ s'. IsRunning (frame start) s' × IsStopped s')
      (run_until_stopped idle 3 start)
run_until_stopped_interrupted_example =
    run_until_stopped_interrupted idle 2 pressed_from_2 2 start start-IsValid (omega arith)

find_action-decode_example :
    find_action 0x1021 definitions ≡ decode (0x1021 / 2 ^ 12) (0x1021 % 2 ^ 12)
find_action-decode_example = find_action-decode 0x1021 (omega arith)

line_of_add : line_text start 0x3000 0x1021 ≡ text "                   x3000 x1021 ADD   R0,R0,#1\n"
unfolding line_text definitions boot text name_at pad_left hex find_definition mnemonic pad_right
    print_operands dec f_imm
line_of_add = refl

address_of_hex : parse_address (text "x3000") boot.symbols ≡ some 0x3000
unfolding parse_address boot text find_symbol find_in skip_spaces
address_of_hex = refl

-- The capital letter that the comment allows is refused.
address_of_capital : parse_address (text "X3000") boot.symbols ≡ none
unfolding parse_address boot text find_symbol find_in skip_spaces
address_of_capital = refl

address_of_minus : parse_address (text "-#1") boot.symbols ≡ some 0xffff
unfolding parse_address boot text find_symbol find_in skip_spaces
address_of_minus = refl

words_of_line : scan_words (10 ∷ 80 ∷ 1 ∷ []) (text "clear  all ") ≡ text "clear" ∷ text "all" ∷ []
unfolding scan_words text skip_spaces
words_of_line = refl

break_at_lem_example :
    ((break_at (text "s") (text "x-1") 0 start).0 ≡ ok tt)
    × ((break_at (text "s") (text "x-1") 0 start).1.breakpoints
        ≡ breakpoints_after (text "s") (text "x-1") start.symbols start.breakpoints)
unfolding boot
break_at_lem_example = break_at_lem (text "s") (text "x-1") 0 start λ p. omega arith

-- x-1 is xFFFF.
break_at_test : (break_at (text "s") (text "x-1") 0 start).1.breakpoints 0xffff ≡ true
unfolding break_at parse_address same_prefix text find_symbol find_in boot skip_spaces
    set_breakpoint
break_at_test = refl
