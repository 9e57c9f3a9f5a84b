-- ===== src/Sim/Triple/Execute.antt =====
-- Rules for execute_instruction and run_until_stopped of lc3tools/lc3sim.c.
use lc3_script_tools.Base.{
  ℕ, ◌+◌, ◌-◌, ◌%◌, ◌^◌, ◌≡◌, refl, arith, true, false, not, ◌&&◌, Option, none, some, ◌++◌, [],
  ◌∷◌, ◌==◌, ltb,
}
use lc3_script_tools.Sim.Text.{Text, text, hex}
use lc3_script_tools.Sim.Inst.{has_bit, flg_subroutine, flg_return, r_pc, r_ir}
use lc3_script_tools.Sim.Table.{Action, definitions, find_action}
use lc3_script_tools.Sim.State.{World, Sim, Stop, modify, print, ask, set_reg, get_reg, traceout}
use lc3_script_tools.Sim.Execute.{
  max_finish_depth, trace_text, illegal, at_breakpoint, at_system_breakpoint, count_call,
  count_return, finish_stops, gui_stops, executed, perform, fetch, trace_instruction,
  execute_instruction,
}
use lc3_script_tools.Sim.Triple.{
  IsValid, IsStable, IsControlled, IsFault, Keeps, Any, Word, Keeps-Any, Keeps-pure, Keeps-look,
  Keeps-modify, Keeps->>=, Keeps->>, Keeps-if, Keeps-when, Keeps-by_mode, Keeps-check, Keeps-print,
  Keeps-fprint, Keeps-set_reg, Keeps-get_reg,
}
use lc3_script_tools.Sim.Triple.Memory.{Keeps-read_traced, Keeps-disassemble_int}
use lc3_script_tools.Sim.Triple.Code.{Keeps-run_code}

module _ {I : Sim → Type 0} {E : Stop → Type 0} (ctl : IsControlled I) (world : World) where
  set_depth : (n : Sim → ℕ) → Keeps I E Any (modify (λ s. record s { finish_depth = n s }))
  set_depth n = Keeps-modify _ (λ s h. ctl.on_depth s (n s) h)

  message : (t : Text) → Keeps I E Any (print t)
  message t = record { run = λ s h. (ctl.on_message s t h, tt) }

  asks_world : {A : Type 0} (f : ℕ → A) → Keeps I E Any (ask f)
  asks_world f = record { run = λ s h. (ctl.on_ask s h, tt) }

  Keeps-count_call : Keeps I E Any (count_call world)
  unfolding count_call
  Keeps-count_call = Keeps->> (set_depth (λ s. s.finish_depth + 1)) (
      Keeps->>= (Keeps-look (λ s. s.finish_depth)) λ depth _.
        Keeps-if (depth == max_finish_depth)
          (Keeps->>
            (Keeps-by_mode
              (message (text "ERR {Stopping due to possibly infinite recursion.}" ++ 10 ∷ []))
              (message (text "Stopping due to possibly infinite recursion." ++ 10 ∷ [])))
            (Keeps->> (set_depth (λ s. 0)) (Keeps-pure true tt)))
          (Keeps-pure false tt))

  Keeps-count_return : Keeps I E Any (count_return world)
  unfolding count_return
  Keeps-count_return =
      Keeps->> (set_depth (λ s. s.finish_depth - 1)) (Keeps-look (λ s. s.finish_depth == 0))

  pub Keeps-finish_stops : Keeps I E Any (finish_stops world)
  unfolding finish_stops
  Keeps-finish_stops = Keeps->>= (Keeps-look (λ s. ltb 0 s.finish_depth)) λ active _.
      Keeps-if active
        (Keeps->>= (Keeps-look (λ s. s.last_flags)) λ flags _.
          Keeps->>= {P = Any}
            (Keeps-if (has_bit flags flg_subroutine) Keeps-count_call (Keeps-pure false tt))
            λ stop _.
              Keeps-if stop (Keeps-pure true tt)
                (Keeps-if (has_bit flags flg_return) Keeps-count_return (Keeps-pure false tt)))
        (Keeps-pure false tt)

  pub Keeps-gui_stops : Keeps I E Any (gui_stops world)
  unfolding gui_stops
  Keeps-gui_stops = Keeps->>= (Keeps-look (λ s. not s.in_init && s.gui_mode)) λ asks _.
      Keeps-if asks
        (Keeps->>= (Keeps-look (λ s. s.sim_in)) λ f _.
          Keeps->>= (asks_world (world.ready f)) λ there _.
            Keeps->>
              (Keeps-when there (
                Keeps-modify (λ s. record s { interrupted_at_gui_request = true })
                  (λ s h. ctl.on_interrupt s h)))
              (Keeps-pure there tt))
        (Keeps-pure false tt)

module _ {I : Sim → Type 0} {E : Stop → Type 0} (stable : IsStable I)
    (valid : (s : Sim) → I s → IsValid s) (faults : (r : Stop) → IsFault r → E r)
    (world : World) where
  get : (i : ℕ) → Keeps I E Word (get_reg i)
  get i = Keeps-get_reg valid i

  set : (i v : ℕ) → Word v → Keeps I E Any (set_reg i v)
  set i v w = Keeps-set_reg stable i v w

  pub Keeps-illegal : Keeps I E (λ more. more ≡ false) (illegal world)
  unfolding illegal
  Keeps-illegal = Keeps->>= (get r_pc) λ pc _.
      Keeps->> (set r_pc ((pc + 2 ^ 32 - 1) % 65536) (omega arith)) (
        Keeps->>= (get r_pc) λ at _.
          Keeps->>
            (Keeps-by_mode
              (Keeps-print stable.shown
                (text "ERR {Illegal instruction at x" ++ hex 4 at ++ text "!}\n"))
              (Keeps-print stable.shown
                (text "Illegal instruction at x" ++ hex 4 at ++ text "!\n")))
            (Keeps-pure false refl))

  Keeps-at_breakpoint : Keeps I E Any (at_breakpoint world)
  unfolding at_breakpoint
  Keeps-at_breakpoint =
      Keeps->>= (get r_pc) λ pc w. Keeps->> (Keeps-check pc w) (Keeps-look (λ s. s.breakpoints pc))

  Keeps-executed : Keeps I E Any (executed world)
  unfolding executed
  Keeps-executed = Keeps->>= (Keeps-look (λ s. s.tracing)) λ tracing _.
      Keeps->>
        (Keeps-when tracing
          (Keeps->>= (Keeps-look trace_text) λ t _. Keeps-fprint stable.shown traceout t))
        (Keeps->>= Keeps-at_breakpoint λ user _.
          Keeps-if user
            (Keeps->>
              (Keeps-by_mode (Keeps-pure tt tt)
                (Keeps-print stable.shown (text "The LC-3 hit a breakpoint...\n")))
              (Keeps-pure false tt))
            (Keeps->>= (Keeps-look (at_system_breakpoint world)) λ system _.
              Keeps-if system (Keeps-pure false tt) (
                Keeps->>= (Keeps-finish_stops stable.controlled world) λ stop _.
                  Keeps-if stop (Keeps-pure false tt) (
                    Keeps->>= (Keeps-gui_stops stable.controlled world)
                      λ stop' _. Keeps-pure (not stop') tt))))

  Keeps-perform : (a : Option Action) (i : ℕ) → Keeps I E Any (perform world a i)
  unfolding perform
  Keeps-perform none i = Keeps-Any Keeps-illegal
  Keeps-perform (some a) i =
      Keeps->>
        (Keeps-modify (λ s. record s { last_flags = a.flags }) (λ s h. stable.on_flags s a.flags h))
        (Keeps->> (Keeps-run_code stable valid faults world a.code i) Keeps-executed)

  pub Keeps-fetch : Keeps I E Any (fetch world)
  unfolding fetch
  Keeps-fetch = Keeps->>= (get r_pc) λ pc w.
      Keeps->>= (Keeps-read_traced stable.shown valid faults world pc w) λ i w'.
        Keeps->> (set r_ir i w') (
          Keeps->>= (get r_pc)
            λ pc' _. Keeps->> (set r_pc ((pc' + 1) % 65536) (omega arith)) (Keeps-pure i tt))

  pub Keeps-trace : Keeps I E Any (trace_instruction world)
  unfolding trace_instruction
  Keeps-trace = Keeps->>= (Keeps-look (λ s. s.tracing)) λ tracing _. Keeps-when tracing (
      Keeps->> (Keeps-fprint stable.shown traceout (text "; ")) (
        Keeps->>= (get r_pc)
          λ pc w. Keeps-disassemble_int stable.shown valid faults world traceout pc w))

  pub Keeps-execute : Keeps I E Any (execute_instruction world)
  unfolding execute_instruction
  Keeps-execute =
      Keeps->> Keeps-trace
        (Keeps->>= Keeps-fetch λ i _. Keeps-perform (find_action i definitions) i)
