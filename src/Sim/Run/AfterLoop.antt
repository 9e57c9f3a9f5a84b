-- ===== src/Sim/Run/AfterLoop.antt =====
-- What follows the loop of run_until_stopped of lc3tools/lc3sim.c: the notice of Ctrl-C, the targets
-- that are forgotten, and what is shown.
use mathlib.Core.Bool.{false≢true}
use mathlib.Core.List.{append_assoc, append-nil}
use lc3_script_tools.Base.{
  ℕ, zero, suc, ◌≡◌, ◌⊎◌, inl, inr, refl, sym, ap, ◌∙◌, [], ◌++◌, Bool, true, false, not, ◌&&◌,
  none, Bool-cases,
}
use lc3_script_tools.Sim.Text.{Text, text}
use lc3_script_tools.Sim.Inst.{r_pc}
use lc3_script_tools.Sim.State.{
  World, Sim, Stop, ◌>>◌, exited, out_of_bounds, undefined, out_of_fuel,
}
use lc3_script_tools.Sim.Show.{
  registers_text, register_lines, print_registers, show_state_if_stop_visible,
}
use lc3_script_tools.Sim.Execute.{halt_lc3, run_loop, give_notice, forget_targets}
use lc3_script_tools.Sim.Triple.{
  IsValid, IsStable, IsShown, IsFault, IsRunning, IsRunning-IsShown, Frame, Keeps, Any, Keeps-pure,
  Keeps-fail, Keeps-look, Keeps->>=, Keeps->>, Keeps-if, Keeps-when, Keeps-by_mode, Keeps-print,
  Keeps-get_reg,
}
use lc3_script_tools.Sim.Triple.Memory.{Keeps-disassemble_one, Keeps-dump}
use lc3_script_tools.Sim.Triple.Execute.{Keeps-execute}
use lc3_script_tools.Sim.Triple.Run.{
  Ends, Ends-Keeps, Ends->>=, Ends->>, Ends-if, Ends-gets, Ends-pure, Ends-weaken,
}

-- A run may also be longer than its fuel.
abbrev pub IsRunEnd : Stop → Type 0
IsRunEnd (exited code) = code ≡ 3
IsRunEnd out_of_bounds = ⊥
IsRunEnd undefined = Unit
IsRunEnd out_of_fuel = Unit

pub fault-IsRunEnd : (r : Stop) → IsFault r → IsRunEnd r
fault-IsRunEnd (exited code) e = e
fault-IsRunEnd out_of_bounds e = absurd e
fault-IsRunEnd undefined e = tt
fault-IsRunEnd out_of_fuel e = absurd e

module _ {I : Sim → Type 0} {E : Stop → Type 0} (sh : IsShown I)
    (valid : (s : Sim) → I s → IsValid s) (faults : (r : Stop) → IsFault r → E r)
    (world : World) where
  Keeps-print_registers : Keeps I E Any (print_registers world)
  unfolding print_registers
  Keeps-print_registers =
      Keeps-by_mode (Keeps->>= (Keeps-look register_lines) λ t _. Keeps-print sh t) (
        Keeps->>= (Keeps-look registers_text) λ t _. Keeps->> (Keeps-print sh t) (
          Keeps->>= (Keeps-get_reg valid r_pc)
            λ pc w. Keeps-disassemble_one sh valid faults world pc w))

  Keeps-show_state : Keeps I E Any (show_state_if_stop_visible world)
  unfolding show_state_if_stop_visible
  Keeps-show_state = Keeps->>= (Keeps-look (λ s. s.interrupted_at_gui_request)) λ hidden _.
      Keeps-if hidden (Keeps-pure tt tt) (
        Keeps->>= (Keeps-look (λ s. s.gui_mode && s.options.delay_mem_update)) λ dump _.
          Keeps->> (Keeps-when dump (Keeps-dump sh valid faults world)) Keeps-print_registers)

module _ {I : Sim → Type 0} {E : Stop → Type 0} (stable : IsStable I) (world : World) where
  Keeps-halt : Keeps I E Any (halt_lc3 world)
  unfolding halt_lc3
  Keeps-halt = record {
    run = λ s h. elim (Bool-cases (world.sigint s.clock)) [
      | inl hit ↦ rw hit (stable.on_sigint _ (stable.shown.on_clock s h), tt)
      | inr miss ↦ rw miss (stable.shown.on_clock s h, tt)
    ];
  }

  module _ (valid : (s : Sim) → I s → IsValid s) (faults : (r : Stop) → IsFault r → E r)
      (short : E out_of_fuel) where
    pub Keeps-run_loop : (fuel : ℕ) → Keeps I E Any (run_loop world fuel)
    unfolding run_loop
    Keeps-run_loop zero = Keeps-fail short
    Keeps-run_loop (suc fuel) = Keeps->> Keeps-halt (
        Keeps->>= (Keeps-look (λ s. s.should_halt)) λ halted _. Keeps-if halted (Keeps-pure tt tt) (
          Keeps->>= (Keeps-execute stable valid faults world)
            λ more _. Keeps-if more (Keeps-run_loop fuel) (Keeps-pure tt tt)))

-- Nothing is left of "next", "finish" and Ctrl-C, unless the GUI will go on with the run.
abbrev pub IsStopped : Sim → Type 0
IsStopped s =
    (s.need_a_stop_notice ≡ false)
    × ((s.interrupted_at_gui_request ≡ true) ⊎ ((s.sys_bpt_addr ≡ none) × (s.finish_depth ≡ 0)))

not_false : (b : Bool) → not b ≡ false → b ≡ true
not_false true e = refl
not_false false e = sym e

abbrev pub IsStoppedIn : Frame → Sim → Type 0
IsStoppedIn f s = IsRunning f s × IsStopped s

stopped-IsShown : (f : Frame) → IsShown (IsStoppedIn f)
stopped-IsShown f = record {
  on_mem = λ s a v w h. ((IsRunning-IsShown f).on_mem s a v w h.0, h.1);
  on_kbsr = λ s b h. h;
  on_dsr = λ s b h. h;
  on_clock = λ s h. h;
  on_output = λ s t h. h;
  on_console = λ s t h. h;
  on_trace = λ s t h. h;
  on_later = λ s g b h. h;
  on_halt = λ s h. h;
}

abbrev pub notice : Text
notice = text "\nLC-3 stopped.\n\n"

-- If Ctrl-C was noticed in the run that left `after_loop`, then the notice was put out next.
abbrev pub Notified : Sim → Sim → Type 0
Notified after_loop s =
    after_loop.need_a_stop_notice ≡ true
    → (more : Text) × (s.output ≡ (after_loop.output ++ notice) ++ more)

module _ (f : Frame) (after_loop : Sim) where
  abbrev IsNotified : Sim → Type 0
  IsNotified s = IsStoppedIn f s × Notified after_loop s

  IsNotified-IsShown : IsShown IsNotified
  IsNotified-IsShown = record {
    on_mem = λ s a v w h. ((stopped-IsShown f).on_mem s a v w h.0, h.1);
    on_kbsr = λ s b h. h;
    on_dsr = λ s b h. h;
    on_clock = λ s h. h;
    on_output = λ s t h. (
      h.0,
      λ need.
          let (more, e) = h.1 need in
          (more ++ t, ap (λ o. o ++ t) e ∙ append_assoc (after_loop.output ++ notice) more t),
    );
    on_console = λ s t h. h;
    on_trace = λ s t h. h;
    on_later = λ s g b h. h;
    on_halt = λ s h. h;
  }

  module _ (world : World) {E : Stop → Type 0} (faults : (r : Stop) → IsFault r → E r) where
    Ends-Notified :
        Ends
          (λ s. IsRunning f s × (s ≡ after_loop))
          E
          (λ _ s. (IsRunning f s × (s.need_a_stop_notice ≡ false)) × Notified after_loop s)
          (give_notice world)
    unfolding give_notice
    Ends-Notified = Ends->>= (Ends-gets (λ s. s.need_a_stop_notice)) λ need.
        Ends-if need
          (λ e. record {
            run = λ s h.
                ((h.0.0, refl), λ _. ([], ap (λ t. t.output ++ notice) h.0.1 ∙ sym (append-nil _)));
          })
          (λ e. record {
            run = λ s h. (
              (h.0.0, h.1 ∙ e),
              λ needed.
                  absurd
                    (false≢true (sym e ∙ sym h.1 ∙ ap (λ t. t.need_a_stop_notice) h.0.1 ∙ needed)),
            );
          })

    Ends-forgotten :
        Ends
          (λ s. (IsRunning f s × (s.need_a_stop_notice ≡ false)) × Notified after_loop s)
          E
          (λ _ s. IsNotified s)
          (forget_targets world)
    unfolding forget_targets
    Ends-forgotten = Ends->>= (Ends-gets (λ s. s.interrupted_at_gui_request)) λ goes_on.
        Ends-if (not goes_on)
          (λ e. record { run = λ s h. ((h.0.0.0, (h.0.0.1, inr (refl, refl))), h.0.1) })
          (λ e. Ends-pure tt λ s h. ((h.0.0.0, (h.0.0.1, inl (h.1 ∙ not_false goes_on e))), h.0.1))

    -- What follows the loop.
    pub Ends-after_loop :
        Ends
          (λ s. IsRunning f s × (s ≡ after_loop))
          E
          (λ _ s. IsNotified s)
          (give_notice world >> (forget_targets world >> show_state_if_stop_visible world))
    Ends-after_loop = Ends->> Ends-Notified (
        Ends->> Ends-forgotten (
          Ends-weaken (λ s h. h) (λ a s h. h.0)
            (Ends-Keeps (Keeps-show_state IsNotified-IsShown (λ s h. h.0.0.0) faults world))))
