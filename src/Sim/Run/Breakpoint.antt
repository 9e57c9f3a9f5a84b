-- ===== src/Sim/Run/Breakpoint.antt =====
-- Where execute_instruction of lc3tools/lc3sim.c goes on.
use mathlib.Core.Bool.{false≢true}
use lc3_script_tools.Base.{
  ℕ, ◌≡◌, refl, sym, ap, ◌∙◌, Bool, true, false, not, Option, none, some, lt→ltb,
}
use lc3_script_tools.Sim.Inst.{r_pc}
use lc3_script_tools.Sim.Table.{Action, definitions, find_action}
use lc3_script_tools.Sim.Text.{text}
use lc3_script_tools.Sim.State.{World, Sim, ok, traceout, ◌>>=◌, pure}
use lc3_script_tools.Sim.Execute.{
  trace_text, at_breakpoint, at_system_breakpoint, gui_stops, executed, perform, fetch,
  trace_instruction, execute_instruction,
}
use lc3_script_tools.Sim.Triple.{
  IsValid, IsFault, IsControlled, IsRunning, IsRunning-IsStable, IsRunning-IsShown, Frame, frame,
  Any, Keeps->>=, Keeps-look, Keeps-when, Keeps-fprint,
}
use lc3_script_tools.Sim.Triple.Code.{Keeps-run_code}
use lc3_script_tools.Sim.Triple.Execute.{
  Keeps-finish_stops, Keeps-gui_stops, Keeps-illegal, Keeps-fetch, Keeps-trace,
}
use lc3_script_tools.Sim.Triple.Run.{
  After, Ends, Ends-Keeps, Ends->>=, Ends->>, Ends-if, Ends-modify, Ends-gets, Ends-pure,
  Ends-by_mode, Ends-print, Ends-weaken, Ends-recorded, Ends-with,
}

module _ (world : World) (f : Frame) where
  -- No breakpoint stands at the PC, neither the user's nor that of "next".
  abbrev IsFree : Sim → Type 0
  IsFree s =
      IsRunning f s × (s.breakpoints (s.reg r_pc) ≡ false) × (at_system_breakpoint world s ≡ false)

  -- The run goes on only where none stands.
  abbrev GoesOn : Bool → Sim → Type 0
  GoesOn more s = more ≡ true → IsFree s

  stays : (s : Sim) → GoesOn false s
  stays s e = absurd (false≢true e)

  IsFree-IsControlled : IsControlled IsFree
  IsFree-IsControlled = record {
    on_ask = λ s h. h;
    on_message = λ s t h. h;
    on_depth = λ s n h. h;
    on_interrupt = λ s h. h;
  }

  Ends-at_breakpoint :
      Ends
        (IsRunning f)
        IsFault
        (λ user s. IsRunning f s × (s.breakpoints (s.reg r_pc) ≡ user))
        (at_breakpoint world)
  unfolding at_breakpoint
  Ends-at_breakpoint = record { run = λ s h. rw (lt→ltb (s.reg r_pc) 65536 (h.0.0 r_pc)) (h, refl) }

  Ends-last : Ends IsFree IsFault GoesOn (gui_stops world >>= λ stop. pure (not stop))
  Ends-last =
      Ends->>= (Ends-Keeps (Keeps-gui_stops IsFree-IsControlled world))
        λ stop. Ends-pure (not stop) λ s h _. h.0

  Ends-executed : Ends (IsRunning f) IsFault GoesOn (executed world)
  unfolding executed
  Ends-executed = Ends->>= (Ends-gets (λ s. s.tracing)) λ tracing.
      Ends->> {Q = IsRunning f}
        (Ends-weaken (λ s h. h.0) (λ a s h. h.0)
          (Ends-Keeps (
            Keeps-when tracing (
              Keeps->>= (Keeps-look trace_text)
                λ t _. Keeps-fprint (IsRunning-IsShown f) traceout t))))
        (Ends->>= Ends-at_breakpoint λ user.
          Ends-if user
            (λ _.
              Ends->> {Q = Any}
                (Ends-by_mode (Ends-pure tt λ _ _. tt)
                  (Ends-print (text "The LC-3 hit a breakpoint...\n") λ _ _. tt))
                (Ends-pure false λ s _. stays s))
            (λ e. Ends->>= (Ends-gets (at_system_breakpoint world)) λ system.
              Ends-if system (λ _. Ends-pure false λ s _. stays s)
                (λ e'.
                  Ends->>= {Q = λ _. IsFree}
                    (Ends-weaken (λ s h. (h.0.0, h.0.1 ∙ e, h.1 ∙ e')) (λ a s h. h.0)
                      (Ends-Keeps (Keeps-finish_stops IsFree-IsControlled world)))
                    λ stop. Ends-if stop (λ _. Ends-pure false λ s _. stays s) (λ _. Ends-last))))

  -- The run goes on only after an action.
  abbrev GoesOnAfter : Option Action → Bool → Sim → Type 0
  GoesOnAfter found more s = more ≡ true → IsFree s × ((a : Action) × (found ≡ some a))

  Ends-perform :
      (found : Option Action) (i : ℕ)
      → Ends (IsRunning f) IsFault (GoesOnAfter found) (perform world found i)
  unfolding perform
  Ends-perform none i =
      Ends-weaken (λ s h. h) (λ more s h e. absurd (false≢true (sym h.1 ∙ e)))
        (Ends-Keeps (Keeps-illegal (IsRunning-IsStable f) (λ _ g. g.0) (λ _ e. e) world))
  Ends-perform (some a) i =
      Ends->> {Q = IsRunning f} (Ends-modify (λ s. record s { last_flags = a.flags }) (λ s h. h)) (
        Ends->> {Q = IsRunning f}
          (Ends-weaken (λ s h. h) (λ _ s h. h.0)
            (Ends-Keeps
              (Keeps-run_code (IsRunning-IsStable f) (λ _ g. g.0) (λ _ e. e) world a.code i)))
          (Ends-weaken (λ s h. h) (λ more s h e. (h e, (a, refl))) Ends-executed))

-- The word `i` was fetched from the state `start`, after the line of the trace.
abbrev pub Fetched : World → Sim → ℕ → Type 0
Fetched world start i =
    (traced : Sim) × (trace_instruction world start ≡ (ok tt, traced))
    × ((fetched : Sim) × (fetch world traced ≡ (ok i, fetched)))

module _ (world : World) (start : Sim) where
  abbrev f : Frame
  f = frame start

  abbrev FetchedIn : ℕ → Sim → Type 0
  FetchedIn i s = IsRunning f s × Fetched world start i

  Ends-traced :
      Ends
        (λ s. IsRunning f s × (s ≡ start))
        IsFault
        (λ _ s. IsRunning f s × (trace_instruction world start ≡ (ok tt, s)))
        (trace_instruction world)
  Ends-traced =
      Ends-weaken (λ s h. h) (λ u s h. (h.0, ap (trace_instruction world) (sym h.1.1) ∙ h.1.2))
        (Ends-recorded (λ s. s ≡ start)
          (Ends-weaken (λ s h. h) (λ _ s h. h.0)
            (Ends-Keeps (Keeps-trace (IsRunning-IsStable f) (λ _ g. g.0) (λ _ e. e) world))))

  Ends-fetched :
      Ends
        (λ s. IsRunning f s × (trace_instruction world start ≡ (ok tt, s)))
        IsFault
        FetchedIn
        (fetch world)
  Ends-fetched =
      Ends-weaken (λ s h. h) (λ i s h. (h.0, (h.1.0, h.1.1, (s, h.1.2))))
        (Ends-recorded (λ s. trace_instruction world start ≡ (ok tt, s))
          (Ends-weaken (λ s h. h) (λ _ s h. h.0)
            (Ends-Keeps (Keeps-fetch (IsRunning-IsStable f) (λ _ g. g.0) (λ _ e. e) world))))

  -- What a run that goes on has come through.
  abbrev pub Passed : Sim → Type 0
  Passed s =
      IsRunning f s
      × (s.breakpoints (s.reg r_pc) ≡ false)
      × (at_system_breakpoint world s ≡ false)
      × ((i : ℕ) × Fetched world start i × ((a : Action) × (find_action i definitions ≡ some a)))

  Ends-execute :
      Ends
        (λ s. IsRunning f s × (s ≡ start))
        IsFault
        (λ more s. more ≡ true → Passed s)
        (execute_instruction world)
  unfolding execute_instruction
  Ends-execute = Ends->> Ends-traced (
      Ends->>= Ends-fetched λ i. Ends-with λ _ fetched.
        Ends-weaken (λ s h. h)
          (λ more s h e. let (free, action) = h e in (free.0, free.1, free.2, (i, fetched, action)))
          (Ends-perform world f (find_action i definitions) i))

-- From a state whose registers and cells hold 16 bits, execute_instruction lets the run go on only
-- where the word that it fetched is that of an instruction of lc3.def, and where neither a breakpoint
-- of the user nor that of "next" stands at the new PC: the run never passes one. The breakpoints
-- themselves are as before.
pub execute_instruction_goes_on :
    (world : World) (s : Sim)
    → IsValid s
    → After IsFault (λ more s'. more ≡ true → Passed world s s') (execute_instruction world s)
execute_instruction_goes_on world s h = (Ends-execute world s).run s ((h, refl), refl)
