-- ===== src/Sim/Triple/Run.antt =====
-- What holds after a function of lc3tools/lc3sim.c, where that is more than an invariant: triples
-- with a condition on the state before, and one on the result and the state after.
use lc3_script_tools.Base.{◌≡◌, refl, Bool, true, false, ◌++◌, if◌then◌else◌}
use lc3_script_tools.Sim.Text.{Text}
use lc3_script_tools.Sim.State.{
  Sim, Stop, Res, ok, stop, M, continue, ◌>>=◌, ◌>>◌, gets, modify, print, by_mode, pure,
}
use lc3_script_tools.Sim.Triple.{Post, Keeps}

abbrev pub After : {A : Type 0} → (Stop → Type 0) → (A → Sim → Type 0) → Res A × Sim → Type 0
After E Q (ok a, s) = Q a s
After E Q (stop r, s) = E r

pub record Ends {A : Type 0} (P : Sim → Type 0) (E : Stop → Type 0) (Q : A → Sim → Type 0) (m : M A)
    : Type 0 where
  pub run : (s : Sim) → P s → After E Q (m s)

Post-After :
    {A : Type 0} (I : Sim → Type 0) (E : Stop → Type 0) (Q : A → Type 0) (r : Res A × Sim)
    → Post I E Q r
    → After E (λ a s. I s × Q a) r
Post-After I E Q (ok a, s) p = p
Post-After I E Q (stop r, s) e = e

weaker-After :
    {A : Type 0} (E : Stop → Type 0) (Q R : A → Sim → Type 0)
    → ((a : A) (s : Sim) → Q a s → R a s)
    → (r : Res A × Sim) → After E Q r
    → After E R r
weaker-After E Q R w (ok a, s) q = w a s q
weaker-After E Q R w (stop r, s) e = e

recorded-After :
    {A : Type 0} (E : Stop → Type 0) (R : Sim → Type 0) (Q : A → Sim → Type 0) (m : M A) (s : Sim)
    → R s
    → (r : Res A × Sim) → m s ≡ r
    → After E Q r
    → After E (λ a s'. Q a s' × ((before : Sim) × R before × (m before ≡ (ok a, s')))) r
recorded-After E R Q m s h (ok a, s') e q = (q, (s, h, e))
recorded-After E R Q m s h (stop r, s') e q = q

module _ {E : Stop → Type 0} where
  -- What keeps an invariant.
  pub Ends-Keeps :
      {A : Type 0} {I : Sim → Type 0} {Q : A → Type 0} {m : M A}
      → Keeps I E Q m
      → Ends I E (λ a s. I s × Q a) m
  Ends-Keeps {I} {Q} {m} k = record { run = λ s h. Post-After I E Q (m s) (k.run s h) }

  continue-After :
      {A B : Type 0} (Q : A → Sim → Type 0) (R : B → Sim → Type 0) (f : A → M B)
      → ((a : A) → Ends (Q a) E R (f a))
      → (r : Res A × Sim) → After E Q r
      → After E R (continue r f)
  continue-After Q R f k (ok a, s) q = (k a).run s q
  continue-After Q R f k (stop r, s) e = e

  pub Ends->>= :
      {A B : Type 0} {P : Sim → Type 0} {Q : A → Sim → Type 0} {R : B → Sim → Type 0} {m : M A}
      {f : A → M B}
      → Ends P E Q m
      → ((a : A) → Ends (Q a) E R (f a))
      → Ends P E R (m >>= f)
  Ends->>= {Q} {R} {m} {f} em ef = record {
    run = λ s h. continue-After Q R f ef (m s) (em.run s h);
  }

  pub Ends->> :
      {B : Type 0} {P Q : Sim → Type 0} {R : B → Sim → Type 0} {m : M (Unit {0})} {k : M B}
      → Ends P E (λ _ s. Q s) m
      → Ends Q E R k
      → Ends P E R (m >> k)
  Ends->> em ek = Ends->>= em λ _. ek

  pub Ends-if :
      {A : Type 0} {P : Sim → Type 0} {Q : A → Sim → Type 0} (c : Bool) {m n : M A}
      → (c ≡ true → Ends P E Q m)
      → (c ≡ false → Ends P E Q n)
      → Ends P E Q (if c then m else n)
  Ends-if true em en = em refl
  Ends-if false em en = en refl

  pub Ends-by_mode :
      {A : Type 0} {P : Sim → Type 0} {Q : A → Sim → Type 0} {m n : M A}
      → Ends P E Q m
      → Ends P E Q n
      → Ends P E Q (by_mode m n)
  Ends-by_mode em en = record { run = λ s h. (Ends-if s.gui_mode (λ _. em) (λ _. en)).run s h }

  pub Ends-pure :
      {A : Type 0} {P : Sim → Type 0} {Q : A → Sim → Type 0} (a : A)
      → ((s : Sim) → P s → Q a s)
      → Ends P E Q (pure a)
  Ends-pure a k = record { run = λ s h. k s h }

  pub Ends-modify :
      {P Q : Sim → Type 0} (f : Sim → Sim)
      → ((s : Sim) → P s → Q (f s))
      → Ends P E (λ _ s. Q s) (modify f)
  Ends-modify f k = record { run = λ s h. k s h }

  pub Ends-print :
      {P Q : Sim → Type 0} (t : Text)
      → ((s : Sim) → P s → Q (record s { output = s.output ++ t }))
      → Ends P E (λ _ s. Q s) (print t)
  Ends-print t k = record { run = λ s h. k s h }

  pub Ends-gets :
      {A : Type 0} {P : Sim → Type 0} (f : Sim → A) → Ends P E (λ a s. P s × (f s ≡ a)) (gets f)
  Ends-gets f = record { run = λ s h. (h, refl) }

  -- A stronger condition before, a weaker one after.
  pub Ends-weaken :
      {A : Type 0} {P P' : Sim → Type 0} {Q R : A → Sim → Type 0} {m : M A}
      → ((s : Sim) → P' s → P s)
      → ((a : A) (s : Sim) → Q a s → R a s)
      → Ends P E Q m
      → Ends P' E R m
  Ends-weaken {Q} {R} {m} v w em = record {
    run = λ s h. weaker-After E Q R w (m s) (em.run s (v s h));
  }

  -- The state before is kept in mind.
  pub Ends-recorded :
      {A : Type 0} {P : Sim → Type 0} (R : Sim → Type 0) {Q : A → Sim → Type 0} {m : M A}
      → Ends P E Q m
      → Ends
          (λ s. P s × R s)
          E
          (λ a s'. Q a s' × ((before : Sim) × R before × (m before ≡ (ok a, s'))))
          m
  Ends-recorded R {Q} {m} em = record {
    run = λ s h. recorded-After E R Q m s h.1 (m s) refl (em.run s h.0);
  }

  -- A condition on no state.
  pub Ends-with :
      {A : Type 0} {P : Sim → Type 0} {X : Sim → Type 0} {Q : A → Sim → Type 0} {m : M A}
      → ((s : Sim) → X s → Ends P E Q m)
      → Ends (λ s. P s × X s) E Q m
  Ends-with k = record { run = λ s h. (k s h.1).run s h.0 }
