-- ===== src/Symbol/Emptied.antt =====
-- The loop of remove_symbol_at_addr of lc3tools/symbol.c on tables whose chains are in order.
use mathlib.Core.Path.{subst}
use lc3_script_tools.Base.{
  ℕ, ◌≡◌, ◌≢◌, inl, inr, refl, sym, ap, ◌∙◌, arith, true, false, some, List, [], ◌∷◌, ◌==◌, update,
  update_self, update_ne, All, Bool-cases, ==→eq,
}
use lc3_script_tools.Symbol.Names.{symbol_hash}
use lc3_script_tools.Symbol.Table.{Table, remove_chain}
use lc3_script_tools.Symbol.Unlink.{In, Distinct, Unlinked, unlink_lem}

abbrev pub hash_of : Table → ℕ → ℕ
hash_of t s = symbol_hash (t.symbols s).name

-- No symbol is in a chain of lc3_sym_hash twice, or in one that its name does not hash to.
pub record IsFiled (t : Table) : Type 0 where
  pub distinct : (h : ℕ) → Distinct (t.sym_hash h)
  pub filed : (h p : ℕ) → In p (t.sym_hash h) → hash_of t p ≡ h

-- `t'` is `t` without the symbols `gone`, in the chains of lc3_sym_hash.
pub record Without (t t' : Table) (gone : List ℕ) : Type 0 where
  pub symbols : t'.symbols ≡ t.symbols
  pub kept : (h p : ℕ) → In p (t.sym_hash h) → (In p gone → ⊥) → In p (t'.sym_hash h)
  pub left : (h p : ℕ) → In p (t'.sym_hash h) → In p (t.sym_hash h) × (In p gone → ⊥)

module _ (t : Table) (ok : IsFiled t) (s addr : ℕ) (rest chain : List ℕ)
    (u : Unlinked s (t.sym_hash (hash_of t s)) chain) where
  -- After one round of the loop.
  abbrev pub shorter : Table
  shorter = record t {
    sym_hash = update t.sym_hash (hash_of t s) chain;
    sym_names = update t.sym_names addr rest;
  }

  remove_step : remove_chain (s ∷ rest) addr t ≡ remove_chain rest addr shorter
  unfolding remove_chain
  remove_step = rw (remove_chain, u.result) refl

  shorter_kept : (h p : ℕ) → In p (t.sym_hash h) → p ≢ s → In p (shorter.sym_hash h)
  shorter_kept h p m n = elim (Bool-cases (hash_of t s == h)) [
    | inl e ↦
        rw e (u.kept p (subst (λ (k : ℕ). In p (t.sym_hash k)) (sym (==→eq (hash_of t s) h e)) m) n)
    | inr e ↦ rw e m
  ]

  shorter_left : (h p : ℕ) → In p (shorter.sym_hash h) → In p (t.sym_hash h) × (p ≢ s)
  shorter_left h p m = elim (Bool-cases (hash_of t s == h)) [
    | inl e ↦
        let l = u.left p (subst (In p) (same_bucket e) m) in
        (subst (λ (k : ℕ). In p (t.sym_hash k)) (==→eq (hash_of t s) h e) l.0, l.1)
    | inr e ↦
        let old : In p (t.sym_hash h) = subst (In p) (other_bucket e) m in
        (old, λ same. differ e (ap (hash_of t) (sym same) ∙ ok.filed h p old))
  ]
    where
      same_bucket : (hash_of t s == h) ≡ true → shorter.sym_hash h ≡ chain
      same_bucket e = rw e refl

      other_bucket : (hash_of t s == h) ≡ false → shorter.sym_hash h ≡ t.sym_hash h
      other_bucket e = rw e refl

      differ : (hash_of t s == h) ≡ false → hash_of t s ≢ h
      differ e same = ground arith

  shorter-IsFiled : IsFiled shorter
  shorter-IsFiled = record {
    distinct = λ h. elim (Bool-cases (hash_of t s == h)) [
      | inl e ↦ rw e u.distinct
      | inr e ↦ rw e (ok.distinct h)
    ];
    filed = λ h p m. ok.filed h p (shorter_left h p m).0;
  }

-- Every symbol of the list is in the chain that its name hashes to.
abbrev Listed : Table → List ℕ → Type 0
Listed t gone = All (λ s. In s (t.sym_hash (hash_of t s))) gone

after-Listed :
    (t : Table) (ok : IsFiled t) (s addr : ℕ) (rest chain : List ℕ)
    (u : Unlinked s (t.sym_hash (hash_of t s)) chain) (gone : List ℕ)
    → (In s gone → ⊥)
    → Listed t gone
    → Listed (shorter t ok s addr rest chain u) gone
after-Listed t ok s addr rest chain u [] n l = tt
after-Listed t ok s addr rest chain u (p ∷ gone) n l = (
  shorter_kept t ok s addr rest chain u (hash_of t p) p l.0 (λ e. n (inl (sym e))),
  after-Listed t ok s addr rest chain u gone (λ m. n (inr m)) l.1,
)

-- What the loop does with the chain of an address.
pub record Removed (t : Table) (gone : List ℕ) (addr : ℕ) : Type 0 where
  pub end : Table
  pub result : remove_chain gone addr t ≡ some end
  pub in_order : IsFiled end
  pub without : Without t end gone
  pub others : (a : ℕ) → a ≢ addr → end.sym_names a ≡ t.sym_names a
  pub same_unused : end.unused ≡ t.unused
  pub emptied : t.sym_names addr ≡ gone → end.sym_names addr ≡ []

pub remove_chain_lem :
    (gone : List ℕ) (addr : ℕ) (t : Table)
    → IsFiled t
    → Listed t gone
    → Distinct gone
    → Removed t gone addr
unfolding remove_chain
remove_chain_lem [] addr t ok l d = record {
  end = t;
  result = refl;
  in_order = ok;
  without = record { symbols = refl; kept = λ h p m n. m; left = λ h p m. (m, λ g. g) };
  others = λ a n. refl;
  same_unused = refl;
  emptied = λ e. e;
}
remove_chain_lem (s ∷ rest) addr t ok l d =
    let w = unlink_lem s (t.sym_hash (hash_of t s)) l.0 (ok.distinct (hash_of t s)) in
    let r =
      remove_chain_lem rest addr (shorter t ok s addr rest w.0 w.1)
        (shorter-IsFiled t ok s addr rest w.0 w.1)
        (after-Listed t ok s addr rest w.0 w.1 rest d.0 l.1) d.1 in
    record {
      end = r.end;
      result = remove_step t ok s addr rest w.0 w.1 ∙ r.result;
      in_order = r.in_order;
      without = record {
        symbols = r.without.symbols;
        kept = λ h p m n.
            r.without.kept h p (shorter_kept t ok s addr rest w.0 w.1 h p m (λ e. n (inl e)))
              (λ g. n (inr g));
        left = λ h p m.
            let later = r.without.left h p m in
            let first = shorter_left t ok s addr rest w.0 w.1 h p later.0 in
            (first.0, λ g. elim g [ inl e ↦ first.1 e | inr there ↦ later.1 there ]);
      };
      same_unused = r.same_unused;
      others = λ a n. r.others a n ∙ update_ne t.sym_names addr a rest (λ e. n (sym e));
      emptied = λ e. r.emptied (update_self t.sym_names addr rest);
    }
