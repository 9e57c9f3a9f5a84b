-- ===== src/Sim/Triple.antt =====
-- Invariants of the simulator's state, and rules that carry an invariant through the functions of
-- lc3tools/lc3sim.c. `Keeps I E Q m` says that `m` preserves `I` and returns a value that satisfies
-- `Q`, or stops in a way that `E` allows.
pub mod Memory
pub mod Code
pub mod Execute
pub mod Run
use lc3_script_tools.Base.{
  ℕ, ◌+◌, ◌<◌, ◌≡◌, refl, arith, Bool, true, false, Option, none, some, List, [], ◌∷◌, ◌++◌, ltb,
  if◌then◌else◌, update, lt→ltb,
}
use lc3_script_tools.Sim.Text.{Text}
use lc3_script_tools.Symbol.Table.{Table}
use lc3_script_tools.Sim.State.{
  Options, Stream, Sim, Stop, exited, out_of_bounds, undefined, out_of_fuel, Res, ok, stop, M,
  continue, ◌>>=◌, ◌>>◌, pure, fail, gets, modify, when, ask, get_reg, set_reg, print, puts,
  by_mode, plainly, check_index, Out, stdout, traceout, fprint,
}

-- The registers and the cells hold 16 bits.
abbrev pub IsValid : Sim → Type 0
IsValid s = ((i : ℕ) → s.reg i < 65536) × ((a : ℕ) → s.mem a < 65536)

-- What an invariant has to survive while memory is read, written and shown.
pub record IsShown (I : Sim → Type 0) : Type 0 where
  pub on_mem : (s : Sim) (a v : ℕ) → v < 65536 → I s → I (record s { mem = update s.mem a v })
  pub on_kbsr : (s : Sim) (b : Bool) → I s → I (record s { last_kbsr_read = b })
  pub on_dsr : (s : Sim) (b : Bool) → I s → I (record s { last_dsr_read = b })
  pub on_clock : (s : Sim) → I s → I (record s { clock = s.clock + 1 })
  pub on_output : (s : Sim) (t : Text) → I s → I (record s { output = s.output ++ t })
  pub on_console : (s : Sim) (t : Text) → I s → I (record s { console = s.console ++ t })
  pub on_trace : (s : Sim) (t : Text) → I s → I (record s { trace = s.trace ++ t })
  pub on_later :
      (s : Sim) (f : ℕ → Bool) (b : Bool)
      → I s
      → I (record s { show_later = f; have_mem_to_dump = b })
  pub on_halt : (s : Sim) → I s → I (record s { should_halt = true })

-- What it has to survive after an instruction, where the run may be stopped.
pub record IsControlled (I : Sim → Type 0) : Type 0 where
  pub on_ask : (s : Sim) → I s → I (record s { clock = s.clock + 1 })
  pub on_message : (s : Sim) (t : Text) → I s → I (record s { output = s.output ++ t })
  pub on_depth : (s : Sim) (n : ℕ) → I s → I (record s { finish_depth = n })
  pub on_interrupt : (s : Sim) → I s → I (record s { interrupted_at_gui_request = true })

-- What it has to survive while the LC-3 runs.
pub record IsStable (I : Sim → Type 0) : Type 0 where
  pub shown : IsShown I
  pub controlled : IsControlled I
  pub on_reg : (s : Sim) (i v : ℕ) → v < 65536 → I s → I (record s { reg = update s.reg i v })
  pub on_flags : (s : Sim) (n : ℕ) → I s → I (record s { last_flags = n })
  pub on_sigint : (s : Sim) → I s → I (record s { should_halt = true; need_a_stop_notice = true })

IsValid-IsShown : IsShown IsValid
IsValid-IsShown = record {
  on_mem = λ s a v w h. (h.0, λ j. ground (arith, h.1 j));
  on_kbsr = λ s b h. h;
  on_dsr = λ s b h. h;
  on_clock = λ s h. h;
  on_output = λ s t h. h;
  on_console = λ s t h. h;
  on_trace = λ s t h. h;
  on_later = λ s f b h. h;
  on_halt = λ s h. h;
}

-- What the LC-3 cannot change: the breakpoints, the symbols, the files, the options, the mode, the
-- streams and where the commands stand.
pub record Frame : Type 0 where
  pub breakpoints : ℕ → Bool
  pub symbols : Table
  pub start_file : Option Text
  pub options : Options
  pub gui_mode : Bool
  pub script_depth : ℕ
  pub stop_scripts : Bool
  pub in_init : Bool
  pub lc3in : Stream
  pub sim_in : Stream
  pub tracing : Bool

abbrev pub frame : Sim → Frame
frame s = record {
  breakpoints = s.breakpoints;
  symbols = s.symbols;
  start_file = s.start_file;
  options = s.options;
  gui_mode = s.gui_mode;
  script_depth = s.script_depth;
  stop_scripts = s.stop_scripts;
  in_init = s.in_init;
  lc3in = s.lc3in;
  sim_in = s.sim_in;
  tracing = s.tracing;
}

-- The invariant, and the frame of a state.
abbrev pub IsRunning : Frame → Sim → Type 0
IsRunning f s = IsValid s × (frame s ≡ f)

pub IsRunning-IsShown : (f : Frame) → IsShown (IsRunning f)
IsRunning-IsShown f = record {
  on_mem = λ s a v w h. (IsValid-IsShown.on_mem s a v w h.0, h.1);
  on_kbsr = λ s b h. h;
  on_dsr = λ s b h. h;
  on_clock = λ s h. h;
  on_output = λ s t h. h;
  on_console = λ s t h. h;
  on_trace = λ s t h. h;
  on_later = λ s g b h. h;
  on_halt = λ s h. h;
}

pub IsRunning-IsStable : (f : Frame) → IsStable (IsRunning f)
IsRunning-IsStable f = record {
  shown = IsRunning-IsShown f;
  controlled = record {
    on_ask = λ s h. h;
    on_message = λ s t h. h;
    on_depth = λ s n h. h;
    on_interrupt = λ s h. h;
  };
  on_reg = λ s i v w h. ((λ j. ground (arith, h.0.0 j), h.0.1), h.1);
  on_flags = λ s n h. h;
  on_sigint = λ s h. h;
}

-- How an instruction may end other than by going on: `exit (3)`, and a division by 0 or a shift by 32
-- or more.
abbrev pub IsFault : Stop → Type 0
IsFault (exited code) = code ≡ 3
IsFault out_of_bounds = ⊥
IsFault undefined = Unit
IsFault out_of_fuel = ⊥

abbrev pub Post :
    {A : Type 0} → (Sim → Type 0) → (Stop → Type 0) → (A → Type 0) → Res A × Sim → Type 0
Post I E Q (ok a, s) = I s × Q a
Post I E Q (stop r, s) = E r

pub record Keeps {A : Type 0} (I : Sim → Type 0) (E : Stop → Type 0) (Q : A → Type 0) (m : M A)
    : Type 0 where
  pub run : (s : Sim) → I s → Post I E Q (m s)

-- Nothing is said of what is returned.
abbrev pub Any : {A : Type 0} → A → Type 0
Any a = Unit

abbrev pub Word : ℕ → Type 0
Word v = v < 65536

module _ {I : Sim → Type 0} {E : Stop → Type 0} where
  pub Keeps-pure : {A : Type 0} {Q : A → Type 0} (a : A) → Q a → Keeps I E Q (pure a)
  Keeps-pure a q = record { run = λ s h. (h, q) }

  pub Keeps-fail : {A : Type 0} {Q : A → Type 0} {r : Stop} → E r → Keeps I E Q (fail r)
  Keeps-fail e = record { run = λ s h. e }

  -- What is read of the state.
  pub Keeps-gets :
      {A : Type 0} {Q : A → Type 0} {f : Sim → A}
      → ((s : Sim) → I s → Q (f s))
      → Keeps I E Q (gets f)
  Keeps-gets q = record { run = λ s h. (h, q s h) }

  -- What is read of the state, when nothing is said of it.
  pub Keeps-look : {A : Type 0} (f : Sim → A) → Keeps I E Any (gets f)
  Keeps-look f = record { run = λ s h. (h, tt) }

  pub Keeps-modify : (f : Sim → Sim) → ((s : Sim) → I s → I (f s)) → Keeps I E Any (modify f)
  Keeps-modify f k = record { run = λ s h. (k s h, tt) }

  continue-Keeps :
      {A B : Type 0} (P : A → Type 0) (Q : B → Type 0) (f : A → M B)
      → ((a : A) → P a → Keeps I E Q (f a))
      → (r : Res A × Sim) → Post I E P r
      → Post I E Q (continue r f)
  continue-Keeps P Q f k (ok a, s) p = (k a p.1).run s p.0
  continue-Keeps P Q f k (stop r, s) e = e

  pub Keeps->>= :
      {A B : Type 0} {P : A → Type 0} {Q : B → Type 0} {m : M A} {f : A → M B}
      → Keeps I E P m
      → ((a : A) → P a → Keeps I E Q (f a))
      → Keeps I E Q (m >>= f)
  Keeps->>= {P} {Q} {m} {f} km kf = record {
    run = λ s h. continue-Keeps P Q f kf (m s) (km.run s h);
  }

  -- One after the other.
  pub Keeps->> :
      {B : Type 0} {Q : B → Type 0} {m : M (Unit {0})} {k : M B}
      → Keeps I E Any m
      → Keeps I E Q k
      → Keeps I E Q (m >> k)
  Keeps->> km kk = Keeps->>= km λ _ _. kk

  pub Keeps-if :
      {A : Type 0} {Q : A → Type 0} (c : Bool) {m n : M A}
      → Keeps I E Q m
      → Keeps I E Q n
      → Keeps I E Q (if c then m else n)
  Keeps-if true km kn = km
  Keeps-if false km kn = kn

  -- A branch may use what its test says.
  pub Keeps-dif :
      {A : Type 0} {Q : A → Type 0} (c : Bool) {m n : M A}
      → (c ≡ true → Keeps I E Q m)
      → (c ≡ false → Keeps I E Q n)
      → Keeps I E Q (if c then m else n)
  Keeps-dif true km kn = km refl
  Keeps-dif false km kn = kn refl

  pub Keeps-when : (c : Bool) {m : M (Unit {0})} → Keeps I E Any m → Keeps I E Any (when c m)
  Keeps-when c km = Keeps-if c km (Keeps-pure tt tt)

  pub Keeps-by_mode :
      {A : Type 0} {Q : A → Type 0} {m n : M A}
      → Keeps I E Q m
      → Keeps I E Q n
      → Keeps I E Q (by_mode m n)
  Keeps-by_mode km kn = record { run = λ s h. (Keeps-if s.gui_mode km kn).run s h }

  pub Keeps-check : (addr : ℕ) → addr < 65536 → Keeps I E Any (check_index addr)
  Keeps-check addr lt = rw (lt→ltb addr 65536 lt) (Keeps-pure tt tt)

module _ {I : Sim → Type 0} {E : Stop → Type 0} (sh : IsShown I) where
  pub Keeps-ask : {A : Type 0} (f : ℕ → A) → Keeps I E Any (ask f)
  Keeps-ask f = record { run = λ s h. (sh.on_clock s h, tt) }

  pub Keeps-print : (t : Text) → Keeps I E Any (print t)
  Keeps-print t = record { run = λ s h. (sh.on_output s t h, tt) }

  pub Keeps-fprint : (o : Out) (t : Text) → Keeps I E Any (fprint o t)
  Keeps-fprint stdout t = record { run = λ s h. (sh.on_output s t h, tt) }
  Keeps-fprint traceout t = record { run = λ s h. (sh.on_trace s t h, tt) }

module _ {I : Sim → Type 0} {E : Stop → Type 0} (st : IsStable I) where
  pub Keeps-set_reg : (i v : ℕ) → v < 65536 → Keeps I E Any (set_reg i v)
  Keeps-set_reg i v w = record { run = λ s h. (st.on_reg s i v w h, tt) }

pub Keeps-get_reg :
    {I : Sim → Type 0} {E : Stop → Type 0}
    → ((s : Sim) → I s → IsValid s)
    → (i : ℕ) → Keeps I E Word (get_reg i)
Keeps-get_reg valid i = record { run = λ s h. (h, (valid s h).0 i) }

-- A weaker promise on how it ends.
weaker :
    {A : Type 0} (I : Sim → Type 0) {E F : Stop → Type 0} (Q : A → Type 0)
    → ((r : Stop) → E r → F r)
    → (r : Res A × Sim) → Post I E Q r
    → Post I F Q r
weaker I Q w (ok a, s) p = p
weaker I Q w (stop r, s) e = w r e

pub Keeps-weaken :
    {A : Type 0} {I : Sim → Type 0} {E F : Stop → Type 0} {Q : A → Type 0} {m : M A}
    → ((r : Stop) → E r → F r)
    → Keeps I E Q m
    → Keeps I F Q m
Keeps-weaken {I} {Q} {m} w k = record { run = λ s h. weaker I Q w (m s) (k.run s h) }

-- Nothing said of what is returned.
unsaid :
    {A : Type 0} (I : Sim → Type 0) (E : Stop → Type 0) (Q : A → Type 0) (r : Res A × Sim)
    → Post I E Q r
    → Post I E Any r
unsaid I E Q (ok a, s) p = (p.0, tt)
unsaid I E Q (stop r, s) e = e

pub Keeps-Any :
    {A : Type 0} {I : Sim → Type 0} {E : Stop → Type 0} {Q : A → Type 0} {m : M A}
    → Keeps I E Q m
    → Keeps I E Any m
Keeps-Any {I} {E} {Q} {m} k = record { run = λ s h. unsaid I E Q (m s) (k.run s h) }
