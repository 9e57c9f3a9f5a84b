-- ===== src/Sim/Execute.antt =====
-- execute_instruction and run_until_stopped of lc3tools/lc3sim.c.
use lc3_script_tools.Base.{
  ℕ, zero, suc, ◌+◌, ◌-◌, ◌%◌, ◌^◌, Bool, true, false, not, ◌&&◌, Option, none, some, ◌++◌, ◌==◌,
  ltb, if◌then◌else◌,
}
use lc3_script_tools.Sim.Text.{Text, text, hex, hex_lower}
use lc3_script_tools.Sim.Inst.{has_bit, flg_subroutine, flg_return, r_pc, r_ir, r_psr}
use lc3_script_tools.Sim.Table.{Action, definitions, find_action}
use lc3_script_tools.Sim.State.{
  World, Sim, out_of_fuel, M, ◌>>=◌, ◌>>◌, pure, fail, gets, modify, when, ask, get_reg, set_reg,
  print, puts, by_mode, plainly, check_index, fprint, traceout,
}
use lc3_script_tools.Sim.Memory.{read_memory_traced}
use lc3_script_tools.Sim.Disassemble.{disassemble_one_int}
use lc3_script_tools.Sim.Show.{show_state_if_stop_visible}
use lc3_script_tools.Sim.Code.{run_code}

abbrev pub max_finish_depth : ℕ
max_finish_depth = 10_000_000

-- The line of the trace after an instruction.
unfoldable pub trace_text : Sim → Text
trace_text s =
    let r = λ (i : ℕ). text " " ++ hex_lower 4 (s.reg i % 65536) in
    text "newPC"
    ++ r r_pc
    ++ text ", PSR"
    ++ r r_psr
    ++ text ", GPR:"
    ++ r 0
    ++ r 1
    ++ r 2
    ++ r 3
    ++ text " "
    ++ r 4
    ++ r 5
    ++ r 6
    ++ r 7
    ++ text "\n"

module _ (world : World) where
  unfoldable pub illegal : M Bool
  illegal = do
    pc ← get_reg r_pc
    set_reg r_pc ((pc + 2 ^ 32 - 1) % 65536)
    pc ← get_reg r_pc
    by_mode (print (text "ERR {Illegal instruction at x" ++ hex 4 pc ++ text "!}\n"))
        (print (text "Illegal instruction at x" ++ hex 4 pc ++ text "!\n"))
    pure false

  -- A breakpoint of the user at the new PC.
  unfoldable pub at_breakpoint : M Bool
  at_breakpoint = do pc ← get_reg r_pc; check_index pc; gets (λ s. s.breakpoints pc)

  abbrev pub at_system_breakpoint : Sim → Bool
  at_system_breakpoint s = elim s.sys_bpt_addr [ none ↦ false | some addr ↦ s.reg r_pc == addr ]

  -- The depth that "finish" counts: a call, and a return. True is a stop.
  unfoldable pub count_call : M Bool
  count_call = do
    modify (λ s. record s { finish_depth = s.finish_depth + 1 })
    depth ← gets (λ s. s.finish_depth)
    if depth == max_finish_depth
        then (do
          by_mode (puts (text "ERR {Stopping due to possibly infinite recursion.}"))
              (puts (text "Stopping due to possibly infinite recursion."))
          modify (λ s. record s { finish_depth = 0 })
          pure true)
        else pure false

  unfoldable pub count_return : M Bool
  count_return = do
    modify (λ s. record s { finish_depth = s.finish_depth - 1 })
    gets (λ s. s.finish_depth == 0)

  -- The flags are looked at again after a call that did not stop.
  unfoldable pub finish_stops : M Bool
  unfolding count_call count_return
  finish_stops = do
    active ← gets (λ s. ltb 0 s.finish_depth)
    if active
        then (do
          flags ← gets (λ s. s.last_flags)
          stop ← if has_bit flags flg_subroutine then count_call else pure false
          if stop then pure true else if has_bit flags flg_return then count_return else pure false)
        else pure false

  unfoldable pub gui_stops : M Bool
  gui_stops = do
    asks ← gets (λ s. not s.in_init && s.gui_mode)
    if asks
        then (do
          f ← gets (λ s. s.sim_in)
          there ← ask (world.ready f)
          when there (modify (λ s. record s { interrupted_at_gui_request = true }))
          pure there)
        else pure false

  -- What follows the label `executed`: true goes on.
  unfoldable pub executed : M Bool
  unfolding at_breakpoint finish_stops gui_stops
  executed = do
    tracing ← gets (λ s. s.tracing)
    when tracing (gets trace_text >>= fprint traceout)
    user ← at_breakpoint
    if user then (do plainly (print (text "The LC-3 hit a breakpoint...\n")); pure false) else (do
      system ← gets at_system_breakpoint
      if system then pure false else (do
        stop ← finish_stops
        if stop then pure false else (do stop ← gui_stops; pure (not stop))))

  unfoldable pub perform : Option Action → ℕ → M Bool
  unfolding illegal executed
  perform none i = illegal
  perform (some a) i = do
    modify (λ s. record s { last_flags = a.flags })
    run_code world a.code i
    executed

  unfoldable pub fetch : M ℕ
  fetch = do
    pc ← get_reg r_pc
    i ← read_memory_traced world pc
    set_reg r_ir i
    pc ← get_reg r_pc
    set_reg r_pc ((pc + 1) % 65536)
    pure i

  unfoldable pub trace_instruction : M (Unit {0})
  trace_instruction = do
    tracing ← gets (λ s. s.tracing)
    when tracing
        (do fprint traceout (text "; "); pc ← get_reg r_pc; disassemble_one_int world traceout pc)

  unfoldable pub execute_instruction : M Bool
  unfolding perform fetch trace_instruction
  execute_instruction = do trace_instruction; i ← fetch; perform (find_action i definitions) i

  -- halt_lc3, when SIGINT was delivered.
  unfoldable pub halt_lc3 : M (Unit {0})
  halt_lc3 = do
    hit ← ask world.sigint
    when hit (modify (λ s. record s { should_halt = true; need_a_stop_notice = true }))

  -- `while (!should_halt && execute_instruction ())`, on fuel.
  unfoldable pub run_loop : ℕ → M (Unit {0})
  run_loop zero = fail out_of_fuel
  run_loop (suc fuel) = do
    halt_lc3
    halted ← gets (λ s. s.should_halt)
    if halted
        then pure tt
        else (do more ← execute_instruction; if more then run_loop fuel else pure tt)

  -- After Ctrl-C.
  unfoldable pub give_notice : M (Unit {0})
  give_notice = do
    notice ← gets (λ s. s.need_a_stop_notice)
    when notice (do
      print (text "\nLC-3 stopped.\n\n")
      modify (λ s. record s { need_a_stop_notice = false }))

  -- A stop, but not one for the GUI, forgets "next" and "finish".
  unfoldable pub forget_targets : M (Unit {0})
  forget_targets = do
    goes_on ← gets (λ s. s.interrupted_at_gui_request)
    when (not goes_on) (modify (λ s. record s { sys_bpt_addr = none; finish_depth = 0 }))

  unfoldable pub run_until_stopped : ℕ → M (Unit {0})
  unfolding run_loop give_notice forget_targets
  run_until_stopped fuel = do
    modify (λ s. record s { should_halt = false })
    by_mode (print (text "CONT\n")) (pure tt)
    run_loop fuel
    give_notice
    forget_targets
    show_state_if_stop_visible world
