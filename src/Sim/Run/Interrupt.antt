-- ===== src/Sim/Run/Interrupt.antt =====
-- How SIGINT ends a run of lc3tools/lc3sim.c: halt_lc3.
use mathlib.Core.Bool.{false≢true}
use lc3_script_tools.Base.{
  ℕ, zero, suc, ◌+◌, ◌-◌, ◌≤◌, ◌<◌, ◌≡◌, ◌⊎◌, inl, inr, refl, sym, ◌∙◌, arith, true, false,
  Bool-cases, ltb, ltb→lt,
}
use lc3_script_tools.Sim.State.{World, Sim}
use lc3_script_tools.Sim.Execute.{halt_lc3, run_loop, run_until_stopped}
use lc3_script_tools.Sim.Triple.{
  IsValid, IsStable, IsFault, IsRunning, IsRunning-IsStable, IsRunning-IsShown, Frame, frame,
}
use lc3_script_tools.Sim.Triple.Execute.{Keeps-execute}
use lc3_script_tools.Sim.Triple.Run.{
  After, Ends, Ends-Keeps, Ends->>=, Ends->>, Ends-if, Ends-gets, Ends-pure, Ends-weaken,
}
use lc3_script_tools.Sim.Run.AfterLoop.{IsStopped}
use lc3_script_tools.Sim.Run.Stopped.{Ends-until_stopped}

-- The invariant of a run, at a time or after it.
abbrev IsAfter : Frame → ℕ → Sim → Type 0
IsAfter f t s = IsRunning f s × (t ≤ s.clock)

IsAfter-IsStable : (f : Frame) (t : ℕ) → IsStable (IsAfter f t)
IsAfter-IsStable f t = record {
  shown = record {
    on_mem = λ s a v w h. ((IsRunning-IsShown f).on_mem s a v w h.0, h.1);
    on_kbsr = λ s b h. h;
    on_dsr = λ s b h. h;
    on_clock = λ s h. (h.0, omega (arith, h.1));
    on_output = λ s u h. h;
    on_console = λ s u h. h;
    on_trace = λ s u h. h;
    on_later = λ s g b h. h;
    on_halt = λ s h. h;
  };
  controlled = record {
    on_ask = λ s h. (h.0, omega (arith, h.1));
    on_message = λ s u h. h;
    on_depth = λ s n h. h;
    on_interrupt = λ s h. h;
  };
  on_reg = λ s i v w h. ((IsRunning-IsStable f).on_reg s i v w h.0, h.1);
  on_flags = λ s n h. h;
  on_sigint = λ s h. h;
}

late_lem : (a b : ℕ) → ltb a b ≡ false → b ≤ a
late_lem a b e = ground arith

module _ (world : World) (f : Frame) (K : ℕ)
    (pressed : (t : ℕ) → K ≤ t → world.sigint t ≡ true) where
  -- There is fuel until Ctrl-C is pressed.
  abbrev Fuelled : ℕ → Sim → Type 0
  Fuelled fuel s = IsRunning f s × (K ≤ s.clock + fuel)

  -- It stops the run, or it is still to come.
  abbrev Halting : ℕ → Sim → Type 0
  Halting fuel s = IsRunning f s × ((s.should_halt ≡ true) ⊎ ((s.clock ≤ K) × (K < s.clock + fuel)))

  Ends-halt : (fuel : ℕ) → Ends (Fuelled fuel) IsFault (λ _ s. Halting fuel s) (halt_lc3 world)
  unfolding halt_lc3
  Ends-halt fuel = record {
    run = λ s h. elim (Bool-cases (world.sigint s.clock)) [
      | inl hit ↦ rw hit (h.0, inl refl)
      | inr miss ↦ elim (Bool-cases (ltb s.clock K)) [
        | inl early ↦ rw miss (
          h.0,
          inr (omega (arith, ltb→lt s.clock K early), omega (arith, h.1, ltb→lt s.clock K early)),
        )
        | inr late ↦ absurd (false≢true (sym miss ∙ pressed s.clock (late_lem s.clock K late)))
      ]
    ];
  }

  -- A round that goes on has passed time, and leaves fuel.
  on_time : (n : ℕ) (s : Sim) → Halting (suc n) s × (s.should_halt ≡ false) → IsAfter f (K - n) s
  on_time n s h = (
    h.0.0,
    elim h.0.1 [
      | inl halted ↦ absurd (false≢true (sym h.1 ∙ halted))
      | inr later ↦ omega (arith, later.1)
    ],
  )

  too_late : (s : Sim) → Halting 0 s × (s.should_halt ≡ false) → ⊥
  too_late s h = elim h.0.1 [
    | inl halted ↦ false≢true (sym h.1 ∙ halted)
    | inr later ↦ omega (arith, later.0, later.1)
  ]

  -- The loop comes to its end within the fuel.
  Ends-run_loop :
      (fuel : ℕ) → Ends (Fuelled fuel) IsFault (λ _ s. IsRunning f s) (run_loop world (suc fuel))
  unfolding run_loop
  Ends-run_loop zero = Ends->> (Ends-halt 0) (
      Ends->>= (Ends-gets (λ s. s.should_halt)) λ halted.
        Ends-if halted (λ e. Ends-pure tt λ s h. h.0.0)
          (λ e. record { run = λ s h. absurd (too_late s (h.0, h.1 ∙ e)) }))
  Ends-run_loop (suc n) = Ends->> (Ends-halt (suc n)) (
      Ends->>= (Ends-gets (λ s. s.should_halt)) λ halted.
        Ends-if halted (λ e. Ends-pure tt λ s h. h.0.0)
          (λ e.
            Ends->>=
              (Ends-weaken (λ s h. on_time n s (h.0, h.1 ∙ e)) (λ more s h. h.0)
                (Ends-Keeps
                  (Keeps-execute (IsAfter-IsStable f (K - n)) (λ _ g. g.0.0) (λ _ g. g) world)))
              λ more.
                Ends-if more
                  (λ _.
                    Ends-weaken (λ s h. (h.0, omega (arith, h.1))) (λ _ _ h. h) (Ends-run_loop n))
                  (λ _. Ends-pure tt λ s h. h.0)))

-- If Ctrl-C is pressed from some time on, then a run of any program, even of one that never halts,
-- comes to its end, with fuel for as many instructions as there is time until then: it stops as
-- run_until_stopped does, or it ends in `exit (3)`, a division by 0 or a shift by 32 or more.
pub run_until_stopped_interrupted :
    (world : World) (K : ℕ)
    → ((t : ℕ) → K ≤ t → world.sigint t ≡ true)
    → (fuel : ℕ) (s : Sim) → IsValid s
    → K ≤ s.clock + fuel
    → After IsFault
        (λ _ s'. IsRunning (frame s) s' × IsStopped s')
        (run_until_stopped world (suc fuel) s)
run_until_stopped_interrupted world K pressed fuel s h enough =
    (Ends-weaken (λ _ g. g) (λ _ _ g. g.0)
        (Ends-until_stopped world (frame s) (λ _ e. e) (Fuelled world (frame s) K pressed fuel)
          (suc fuel) (λ _ g. g) (λ _ g. g) s (Ends-run_loop world (frame s) K pressed fuel))).run
      s (((h, refl), enough), refl)
