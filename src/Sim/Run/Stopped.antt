-- ===== src/Sim/Run/Stopped.antt =====
-- What run_until_stopped of lc3tools/lc3sim.c leaves.
use lc3_script_tools.Base.{ℕ, ◌≡◌, refl, sym, ap, ◌∙◌, ◌++◌, false}
use lc3_script_tools.Sim.Text.{text}
use lc3_script_tools.Sim.State.{World, Sim, Stop, ok, M, ◌>>◌, pure, print, by_mode}
use lc3_script_tools.Sim.Show.{show_state_if_stop_visible}
use lc3_script_tools.Sim.Execute.{run_loop, give_notice, forget_targets, run_until_stopped}
use lc3_script_tools.Sim.Triple.{IsValid, IsFault, IsRunning, IsRunning-IsStable, Frame, frame}
use lc3_script_tools.Sim.Triple.Run.{
  After, Ends, Ends-Keeps, Ends->>, Ends-pure, Ends-print, Ends-modify, Ends-by_mode, Ends-weaken,
  Ends-recorded,
}
use lc3_script_tools.Sim.Run.AfterLoop.{
  IsRunEnd, fault-IsRunEnd, Keeps-run_loop, IsStopped, IsStoppedIn, Notified, Ends-after_loop,
}

-- What run_until_stopped says before the loop.
abbrev says_cont : M (Unit {0})
says_cont = by_mode (print (text "CONT\n")) (pure tt)

-- The loop of run_until_stopped, from `start` on, left that state.
abbrev pub RanTo : World → ℕ → Sim → Sim → Type 0
RanTo world fuel start after_loop =
    (before_loop : Sim) × (says_cont (record start { should_halt = false }) ≡ (ok tt, before_loop))
    × (run_loop world fuel before_loop ≡ (ok tt, after_loop))

module _ (world : World) (f : Frame) {E : Stop → Type 0}
    (faults : (r : Stop) → IsFault r → E r) where
  abbrev pub Loop : (Sim → Type 0) → ℕ → Type 0
  Loop P fuel = Ends P E (λ _ s. IsRunning f s) (run_loop world fuel)

  abbrev pub StoppedAfter : ℕ → Sim → Sim → Type 0
  StoppedAfter fuel start s =
      IsStoppedIn f s
      × ((after_loop : Sim) × RanTo world fuel start after_loop × Notified after_loop s)

  module _ (P : Sim → Type 0) (fuel : ℕ)
      (on_run : (s : Sim) → P s → P (record s { should_halt = false }))
      (on_print : (s : Sim) → P s → P (record s { output = s.output ++ text "CONT\n" }))
      (start : Sim) where
    abbrev begun : Sim
    begun = record start { should_halt = false }

    Ends-begun :
        Ends (λ s. P s × (s ≡ begun)) E (λ _ s. P s × (says_cont begun ≡ (ok tt, s))) says_cont
    Ends-begun =
        Ends-weaken (λ s h. h) (λ u s h. (h.0, ap says_cont (sym h.1.1) ∙ h.1.2))
          (Ends-recorded (λ s. s ≡ begun)
            (Ends-by_mode (Ends-print (text "CONT\n") on_print) (Ends-pure tt λ s h. h)))

    Ends-end :
        Ends
          (λ s. IsRunning f s × RanTo world fuel start s)
          E
          (λ _ s. StoppedAfter fuel start s)
          (give_notice world >> (forget_targets world >> show_state_if_stop_visible world))
    Ends-end = record {
      run = λ s h.
          (Ends-weaken (λ t g. g) (λ _ t g. (g.0, (s, h.1, g.1)))
              (Ends-after_loop f s world faults)).run
            s (h.0, refl);
    }

    pub Ends-until_stopped :
        Loop P fuel
        → Ends
            (λ s. P s × (s ≡ start))
            E
            (λ _ s. StoppedAfter fuel start s)
            (run_until_stopped world fuel)
    unfolding run_until_stopped
    Ends-until_stopped loop =
        Ends->>
          (Ends-modify (λ s. record s { should_halt = false })
            (λ s h. (on_run s h.0, ap (λ (t : Sim). record t { should_halt = false }) h.1)))
          (Ends->> Ends-begun (
            Ends->> {Q = λ s. IsRunning f s × RanTo world fuel start s}
              (Ends-weaken (λ s h. h) (λ u s h. h)
                (Ends-recorded (λ s. says_cont begun ≡ (ok tt, s)) loop))
              Ends-end))

-- When a run of any fuel comes to its end, with 16-bit registers and cells at its start, registers and
-- cells hold 16 bits, breakpoints, symbols, options, mode and streams are as they were, and the targets
-- of "next" and "finish" are forgotten, unless the GUI interrupted. If the loop ended with a notice of
-- Ctrl-C to give, then the notice is what was put out next after the loop, and none is left to give.
-- No array was indexed out of its bounds.
pub run_until_stopped_lem :
    (world : World) (fuel : ℕ) (s : Sim)
    → IsValid s
    → After IsRunEnd
        (λ _ s'.
          (IsRunning (frame s) s' × IsStopped s')
          × ((after_loop : Sim) × RanTo world fuel s after_loop × Notified after_loop s'))
        (run_until_stopped world fuel s)
run_until_stopped_lem world fuel s h =
    (Ends-until_stopped world (frame s) fault-IsRunEnd (IsRunning (frame s)) fuel (λ _ g. g)
        (λ _ g. g) s
        (Ends-weaken (λ _ g. g) (λ _ _ g. g.0)
          (Ends-Keeps (
            Keeps-run_loop (IsRunning-IsStable (frame s)) world (λ _ g. g.0) fault-IsRunEnd tt
              fuel)))).run
      s ((h, refl), refl)
