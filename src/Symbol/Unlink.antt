-- ===== src/Symbol/Unlink.antt =====
-- Taking symbols out of their chains: the loops of remove_symbol_at_addr of lc3tools/symbol.c.
use mathlib.Core.Path.{subst}
use lc3_script_tools.Base.{
  ℕ, ◌≡◌, ◌≢◌, ◌⊎◌, inl, inr, refl, sym, ◌∙◌, arith, true, false, some, List, [], ◌∷◌, ◌==◌,
  Bool-cases, ==→eq,
}
use lc3_script_tools.Symbol.Table.{unlink}

abbrev pub In : ℕ → List ℕ → Type 0
In p [] = ⊥
In p (q ∷ chain) = (p ≡ q) ⊎ In p chain

abbrev pub Distinct : List ℕ → Type 0
Distinct [] = Unit
Distinct (q ∷ chain) = (In q chain → ⊥) × Distinct chain

eq-differ : (p q : ℕ) → (p == q) ≡ false → p ≢ q
eq-differ p q e h = ground arith

-- `shorter` is `chain` without `s`.
pub record Unlinked (s : ℕ) (chain shorter : List ℕ) : Type 0 where
  pub result : unlink s chain ≡ some shorter
  pub distinct : Distinct shorter
  pub kept : (p : ℕ) → In p chain → p ≢ s → In p shorter
  pub left : (p : ℕ) → In p shorter → In p chain × (p ≢ s)

unlink_first :
    (s q : ℕ) (chain : List ℕ)
    → (q == s) ≡ true
    → Distinct (q ∷ chain)
    → Unlinked s (q ∷ chain) chain
unfolding unlink
unlink_first s q chain e d = record {
  result = rw e refl;
  distinct = d.1;
  kept = λ p m n. elim m [ inl here ↦ absurd (n (here ∙ ==→eq q s e)) | inr there ↦ there ];
  left = λ p m. (inr m, λ h. d.0 (subst (λ (x : ℕ). In x chain) (h ∙ sym (==→eq q s e)) m));
}

unlink_later :
    (s q : ℕ) (chain shorter : List ℕ)
    → (q == s) ≡ false
    → Distinct (q ∷ chain)
    → Unlinked s chain shorter
    → Unlinked s (q ∷ chain) (q ∷ shorter)
unfolding unlink
unlink_later s q chain shorter e d u = record {
  result = rw (e, u.result) refl;
  distinct = (λ m. d.0 (u.left q m).0, u.distinct);
  kept = λ p m n. elim m [ inl here ↦ inl here | inr there ↦ inr (u.kept p there n) ];
  left = λ p m. elim m [
    | inl here ↦ (inl here, λ h. eq-differ q s e (sym here ∙ h))
    | inr there ↦ (inr (u.left p there).0, (u.left p there).1)
  ];
}

pub unlink_lem :
    (s : ℕ) (chain : List ℕ)
    → In s chain
    → Distinct chain
    → (shorter : List ℕ) × Unlinked s chain shorter
unlink_lem s [] m d = absurd m
unlink_lem s (q ∷ chain) m d = elim (Bool-cases (q == s)) [
  | inl e ↦ (chain, unlink_first s q chain e d)
  | inr e ↦ elim m [
    | inl here ↦ absurd (eq-differ q s e (sym here))
    | inr there ↦
        let w = unlink_lem s chain there d.1 in (q ∷ w.0, unlink_later s q chain w.0 e d w.1)
  ]
]
