-- ===== src/Symbol/Ordered.antt =====
-- What add_symbol and remove_symbol_at_addr of lc3tools/symbol.c keep of the symbol table.
use mathlib.Core.Path.{subst}
use lc3_script_tools.Base.{
  ℕ, ◌<◌, ◌≡◌, ◌⊎◌, inl, inr, refl, sym, ap, ◌∙◌, arith, Bool, true, false, Option, none, some,
  List, [], ◌∷◌, ◌==◌, leb, update, update_self, All, Bool-cases, ==→eq,
}
use lc3_script_tools.Symbol.Names.{symbol_hash}
use lc3_script_tools.Symbol.Table.{
  SymbolT, Table, link, move, add_found, add_symbol, find_symbol, Adding, added, refused, undefined,
}
use lc3_script_tools.Symbol.Lookup.{IsTable}
use lc3_script_tools.Symbol.Adding.{old_symbol, link-IsTable}
use lc3_script_tools.Symbol.Unlink.{In, Distinct}
use lc3_script_tools.Symbol.Emptied.{hash_of, IsFiled}

-- The chains are in order, and so are the links by address: a symbol linked at an address is in its
-- chain of lc3_sym_hash, is linked there once, and at no other address.
pub record IsOrdered (t : Table) : Type 0 where
  pub given : IsTable t
  pub in_order : IsFiled t
  pub listed : (a s : ℕ) → In s (t.sym_names a) → In s (t.sym_hash (hash_of t s))
  pub once : (a : ℕ) → Distinct (t.sym_names a)
  pub one_address : (a a' s : ℕ) → In s (t.sym_names a) → In s (t.sym_names a') → a ≡ a'

pub In-All : {P : ℕ → Type 0} (xs : List ℕ) → ((x : ℕ) → In x xs → P x) → All P xs
In-All [] f = tt
In-All (x ∷ xs) f = (f x (inl refl), In-All xs (λ y m. f y (inr m)))

All-In : (P : ℕ → Type 0) (xs : List ℕ) (x : ℕ) → All P xs → In x xs → P x
All-In P [] x h m = absurd m
All-In P (y ∷ xs) x h m = elim m [
  | inl e ↦ subst P (sym e) h.0
  | inr there ↦ All-In P xs x h.1 there
]

-- Where a value is after an update of an array of chains.
In-update :
    (f : ℕ → List ℕ) (i j p q : ℕ)
    → In p (update f i (q ∷ f i) j)
    → ((p ≡ q) × (i ≡ j)) ⊎ In p (f j)
In-update f i j p q m = elim (Bool-cases (i == j)) [
  | inl e ↦ elim (subst (In p) (here e) m) [
    | inl first ↦ inl (first, ==→eq i j e)
    | inr later ↦ inr (subst (λ (k : ℕ). In p (f k)) (==→eq i j e) later)
  ]
  | inr e ↦ inr (subst (In p) (elsewhere e) m)
]
  where
    here : (i == j) ≡ true → update f i (q ∷ f i) j ≡ q ∷ f i
    here e = rw e refl

    elsewhere : (i == j) ≡ false → update f i (q ∷ f i) j ≡ f j
    elsewhere e = rw e refl

In-grown : (f : ℕ → List ℕ) (i j p q : ℕ) → In p (f j) → In p (update f i (q ∷ f i) j)
In-grown f i j p q m = elim (Bool-cases (i == j)) [
  | inl e ↦ rw e (inr (subst (λ (k : ℕ). In p (f k)) (sym (==→eq i j e)) m))
  | inr e ↦ rw e m
]

Distinct-update :
    (f : ℕ → List ℕ) (i j q : ℕ)
    → ((k : ℕ) → Distinct (f k))
    → (In q (f i) → ⊥)
    → Distinct (update f i (q ∷ f i) j)
Distinct-update f i j q d n = elim (Bool-cases (i == j)) [
  | inl e ↦ rw e (n, d i)
  | inr e ↦ rw e (d j)
]

module _ (t : Table) (ok : IsOrdered t) where
  pub hash_pointer-lt : (h p : ℕ) → In p (t.sym_hash h) → p < t.unused
  hash_pointer-lt h p m = All-In (λ s. s < t.unused) (t.sym_hash h) p (ok.given.chains h) m

  name_pointer-lt : (a p : ℕ) → In p (t.sym_names a) → p < t.unused
  name_pointer-lt a p m = hash_pointer-lt (hash_of t p) p (ok.listed a p m)

module _ (t : Table) (ok : IsOrdered t) (symbol : List ℕ) (addr : ℕ) where
  old_hash : (p : ℕ) → p < t.unused → hash_of (link symbol addr t) p ≡ hash_of t p
  old_hash p lt = ap (λ (x : SymbolT). symbol_hash x.name) (old_symbol t ok.given symbol addr p lt)

  new_hash : hash_of (link symbol addr t) t.unused ≡ symbol_hash symbol
  new_hash =
      ap (λ (x : SymbolT). symbol_hash x.name)
        (update_self t.symbols t.unused (record { name = symbol; addr = addr }))

  link-IsFiled : IsFiled (link symbol addr t)
  link-IsFiled = record {
    distinct = λ h.
        Distinct-update t.sym_hash (symbol_hash symbol) h t.unused ok.in_order.distinct
          (λ m. absurd (omega (arith, hash_pointer-lt t ok (symbol_hash symbol) t.unused m)));
    filed = λ h p m. elim (In-update t.sym_hash (symbol_hash symbol) h p t.unused m) [
      | inl new ↦ ap (hash_of (link symbol addr t)) new.0 ∙ new_hash ∙ new.1
      | inr old ↦ old_hash p (hash_pointer-lt t ok h p old) ∙ ok.in_order.filed h p old
    ];
  }

  link-IsOrdered : IsOrdered (link symbol addr t)
  link-IsOrdered = record {
    given = link-IsTable t ok.given symbol addr;
    in_order = link-IsFiled;
    listed = λ a s m. elim (In-update t.sym_names addr a s t.unused m) [
      | inl new ↦
          rw
            (
              new.0,
              new_hash,
              update_self t.sym_hash (symbol_hash symbol)
                  (t.unused ∷ t.sym_hash (symbol_hash symbol)),
            )
            (inl refl)
      | inr old ↦
          rw (old_hash s (name_pointer-lt t ok a s old))
            (In-grown t.sym_hash (symbol_hash symbol) (hash_of t s) s t.unused (ok.listed a s old))
    ];
    once = λ a.
        Distinct-update t.sym_names addr a t.unused ok.once
          (λ m. absurd (omega (arith, name_pointer-lt t ok addr t.unused m)));
    one_address = λ a a' s m m'. elim (In-update t.sym_names addr a s t.unused m) [
      | inl new ↦ elim (In-update t.sym_names addr a' s t.unused m') [
        | inl new' ↦ sym new.1 ∙ new'.1
        | inr old' ↦ absurd (omega (arith, new.0, name_pointer-lt t ok a' s old'))
      ]
      | inr old ↦ elim (In-update t.sym_names addr a' s t.unused m') [
        | inl new' ↦ absurd (omega (arith, new'.0, name_pointer-lt t ok a s old))
        | inr old' ↦ ok.one_address a a' s old old'
      ]
    ];
  }

  module _ (s : ℕ) where
    moved_hash : (p : ℕ) → hash_of (move s addr t) p ≡ hash_of t p
    moved_hash p = elim (Bool-cases (s == p)) [
      | inl e ↦ rw e (ap (hash_of t) (==→eq s p e))
      | inr e ↦ rw e refl
    ]

    move-IsOrdered : IsOrdered (move s addr t)
    move-IsOrdered = record {
      given = record { chains = ok.given.chains };
      in_order = record {
        distinct = ok.in_order.distinct;
        filed = λ h p m. moved_hash p ∙ ok.in_order.filed h p m;
      };
      listed =
          λ a p m. subst (λ (h : ℕ). In p (t.sym_hash h)) (sym (moved_hash p)) (ok.listed a p m);
      once = ok.once;
      one_address = ok.one_address;
    }

-- What holds of the table that is added to, if there is one.
abbrev pub AddedIsOrdered : Adding → Type 0
AddedIsOrdered (added t') = IsOrdered t'
AddedIsOrdered refused = Unit
AddedIsOrdered undefined = Unit

found-IsOrdered :
    (symbol : List ℕ) (addr : ℕ) (dup_ok : Bool) (t : Table) (r : Option ℕ)
    → IsOrdered t
    → AddedIsOrdered (add_found r symbol addr dup_ok t)
unfolding add_found
found-IsOrdered symbol addr dup_ok t none ok = elim (Bool-cases (leb 65536 addr)) [
  | inl past ↦ rw past tt
  | inr inside ↦ rw inside (link-IsOrdered t ok symbol addr)
]
found-IsOrdered symbol addr true t (some s) ok = move-IsOrdered t ok symbol addr s
found-IsOrdered symbol addr false t (some s) ok = tt

-- add_symbol keeps the table in order, whatever the name, the address and the flag.
pub add_symbol-IsOrdered :
    (symbol : List ℕ) (addr : ℕ) (dup_ok : Bool) (t : Table)
    → IsOrdered t
    → AddedIsOrdered (add_symbol symbol addr dup_ok t)
unfolding add_symbol
add_symbol-IsOrdered symbol addr dup_ok t ok =
    found-IsOrdered symbol addr dup_ok t (find_symbol symbol t) ok
