-- ===== src/Symbol/Adding.antt =====
-- What add_symbol of lc3tools/symbol.c does to the table as a map.
use mathlib.Core.Path.{subst}
use mathlib.Core.Bool.{false≢true}
use mathlib.Core.Option.{none-ne-some}
use lc3_script_tools.Base.{
  ℕ, ◌+◌, ◌≤◌, ◌<◌, ◌≡◌, ◌≢◌, ◌⊎◌, inl, inr, refl, sym, ap, ◌∙◌, arith, Bool, true, false, Option,
  none, some, List, ◌∷◌, ◌==◌, leb, if◌then◌else◌, update, update_self, update_ne, All, Bool-cases,
  ==→eq,
}
use lc3_script_tools.Symbol.Names.{
  symbol_hash, same_name, symbol_hash_same, same_name_congr, same_name_refl,
}
use lc3_script_tools.Symbol.Table.{
  SymbolT, Table, find_in, find_symbol, Adding, added, refused, undefined, link, move, add_found,
  add_symbol,
}
use lc3_script_tools.Symbol.Lookup.{
  IsTable, addr_of, lookup, find_in_names, find_in_same, find_in-found, All-map,
}

module _ (t : Table) (ok : IsTable t) (symbol : List ℕ) (addr : ℕ) where
  abbrev fresh : SymbolT
  fresh = record { name = symbol; addr = addr }

  pub old_symbol : (p : ℕ) → p < t.unused → update t.symbols t.unused fresh p ≡ t.symbols p
  old_symbol p lt = update_ne t.symbols t.unused p fresh (omega arith)

  old_chain :
      (m : List ℕ) (h : ℕ)
      → find_in (update t.symbols t.unused fresh) m (t.sym_hash h)
        ≡ find_in t.symbols m (t.sym_hash h)
  old_chain m h = find_in_names (update t.symbols t.unused fresh) t.symbols m (t.sym_hash h) (
      All-map (t.sym_hash h) (λ p lt. ap (λ (x : SymbolT). x.name) (old_symbol p lt)) (ok.chains h))

  pub link-IsTable : IsTable (link symbol addr t)
  link-IsTable = record {
    chains = λ h. elim (Bool-cases (symbol_hash symbol == h)) [
      | inl e ↦ rw e (omega arith, grown (symbol_hash symbol))
      | inr e ↦ rw e (grown h)
    ];
  }
    where
      grown : (h : ℕ) → All (λ s. s < t.unused + 1) (t.sym_hash h)
      grown h = All-map (t.sym_hash h) (λ p lt. omega arith) (ok.chains h)

  link-find_other :
      (m : List ℕ)
      → same_name m symbol ≡ false
      → find_symbol m (link symbol addr t) ≡ find_symbol m t
  unfolding find_symbol find_in
  link-find_other m differ = elim (Bool-cases (symbol_hash symbol == symbol_hash m)) [
    | inl e ↦
        rw (e, update_self t.symbols t.unused fresh, differ)
          (old_chain m (symbol_hash symbol)
            ∙ ap (λ (h : ℕ). find_in t.symbols m (t.sym_hash h))
                (==→eq (symbol_hash symbol) (symbol_hash m) e))
    | inr e ↦ rw e (old_chain m (symbol_hash m))
  ]

  link-addr_of :
      (m : List ℕ) (r : Option ℕ)
      → find_symbol m t ≡ r
      → addr_of (link symbol addr t) r ≡ addr_of t r
  unfolding find_symbol
  link-addr_of m none e = refl
  link-addr_of m (some s) e =
      let lt =
        (find_in-found (λ p. p < t.unused) t.symbols m (t.sym_hash (symbol_hash m)) s
          (ok.chains (symbol_hash m)) e).1 in
      ap (λ (x : SymbolT). some x.addr) (old_symbol s lt)

  link-lookup_other :
      (m : List ℕ) → same_name m symbol ≡ false → lookup m (link symbol addr t) ≡ lookup m t
  unfolding lookup
  link-lookup_other m differ = rw (link-find_other m differ) (link-addr_of m (find_symbol m t) refl)

  link-lookup_same :
      (m : List ℕ) → same_name m symbol ≡ true → lookup m (link symbol addr t) ≡ some addr
  unfolding lookup find_symbol find_in
  link-lookup_same m match =
      rw
        (
          symbol_hash_same m symbol match,
          update_self t.sym_hash (symbol_hash symbol) (t.unused ∷ t.sym_hash (symbol_hash symbol)),
          update_self t.symbols t.unused fresh,
          match,
        )
        (ap (λ (x : SymbolT). some x.addr) (update_self t.symbols t.unused fresh))

  module _ (s : ℕ) (found : find_symbol symbol t ≡ some s) where
    move-name : (p : ℕ) → ((move s addr t).symbols p).name ≡ (t.symbols p).name
    move-name p = elim (Bool-cases (s == p)) [
      | inl e ↦ rw e (ap (λ (q : ℕ). (t.symbols q).name) (==→eq s p e))
      | inr e ↦ rw e refl
    ]

    move-find : (m : List ℕ) → find_symbol m (move s addr t) ≡ find_symbol m t
    unfolding find_symbol
    move-find m =
        find_in_names (move s addr t).symbols t.symbols m (t.sym_hash (symbol_hash m))
          (All-map (t.sym_hash (symbol_hash m)) (λ p lt. move-name p) (ok.chains (symbol_hash m)))

    find_same : (m : List ℕ) → same_name m symbol ≡ true → find_symbol m t ≡ some s
    unfolding find_symbol
    find_same m match =
        rw (symbol_hash_same m symbol match)
          (find_in_same t.symbols m symbol (t.sym_hash (symbol_hash symbol)) match)
        ∙ found

    -- The symbol found under another name is another symbol.
    other_symbol :
        (m : List ℕ) (p : ℕ) → same_name m symbol ≡ false → find_symbol m t ≡ some p → s ≢ p
    unfolding find_symbol
    other_symbol m p differ e same =
        let x = (t.symbols s).name in
        let here : same_name symbol x ≡ true =
          (find_in-found (λ q. q < t.unused) t.symbols symbol (t.sym_hash (symbol_hash symbol)) s
            (ok.chains (symbol_hash symbol)) found).0 in
        let there : same_name m (t.symbols p).name ≡ true =
          (find_in-found (λ q. q < t.unused) t.symbols m (t.sym_hash (symbol_hash m)) p
            (ok.chains (symbol_hash m)) e).0 in
        let meet : same_name m x ≡ true =
          subst (λ (q : ℕ). same_name m (t.symbols q).name ≡ true) (sym same) there in
        false≢true (
          sym differ
          ∙ same_name_congr m x symbol meet
          ∙ sym (same_name_congr symbol x symbol here)
          ∙ same_name_refl symbol)

    move-other :
        (m : List ℕ) (r : Option ℕ)
        → same_name m symbol ≡ false
        → find_symbol m t ≡ r
        → addr_of (move s addr t) r ≡ addr_of t r
    move-other m none differ e = refl
    move-other m (some p) differ e =
        ap (λ (x : SymbolT). some x.addr)
          (update_ne t.symbols s p (record { name = (t.symbols s).name; addr = addr })
            (other_symbol m p differ e))

    pub move-lookup :
        (m : List ℕ)
        → lookup m (move s addr t) ≡ (if same_name m symbol then some addr else lookup m t)
    unfolding lookup
    move-lookup m = elim (Bool-cases (same_name m symbol)) [
      | inl match ↦
          rw (match, move-find m, find_same m match)
            (ap (λ (x : SymbolT). some x.addr)
              (update_self t.symbols s (record { name = (t.symbols s).name; addr = addr })))
      | inr differ ↦ rw (differ, move-find m) (move-other m (find_symbol m t) differ refl)
    ]

    move-IsTable : IsTable (move s addr t)
    move-IsTable = record { chains = ok.chains }

  -- What add_symbol promises of its three results.
  abbrev pub IsAdding : Bool → Adding → Type 0
  IsAdding dup_ok (added t') =
      IsTable t'
      × ((dup_ok ≡ true) ⊎ (lookup symbol t ≡ none))
      × ((m : List ℕ) → lookup m t' ≡ (if same_name m symbol then some addr else lookup m t))
  IsAdding dup_ok refused = (dup_ok ≡ false) × (lookup symbol t ≢ none)
  IsAdding dup_ok undefined = (65536 ≤ addr) × (lookup symbol t ≡ none)

  link-lookup :
      (m : List ℕ)
      → lookup m (link symbol addr t) ≡ (if same_name m symbol then some addr else lookup m t)
  link-lookup m = elim (Bool-cases (same_name m symbol)) [
    | inl match ↦ rw match (link-lookup_same m match)
    | inr differ ↦ rw differ (link-lookup_other m differ)
  ]

  found-IsAdding :
      (dup_ok : Bool) (r : Option ℕ)
      → find_symbol symbol t ≡ r
      → IsAdding dup_ok (add_found r symbol addr dup_ok t)
  unfolding add_found lookup
  found-IsAdding dup_ok none e = elim (Bool-cases (leb 65536 addr)) [
    | inl past ↦ rw past (ground arith, ap (addr_of t) e)
    | inr inside ↦ rw inside (link-IsTable, inr (ap (addr_of t) e), link-lookup)
  ]
  found-IsAdding true (some s) e = (move-IsTable s e, inl refl, move-lookup s e)
  found-IsAdding false (some s) e =
      (refl, λ n. none-ne-some (t.symbols s).addr (sym n ∙ ap (addr_of t) e))

  -- add_symbol on a table whose chains hold given pointers: a symbol is refused when it is there, in
  -- any case of letters, and duplicates are not allowed; a new symbol past the 65536 addresses is
  -- outside lc3_sym_names; otherwise the new table has the name, in any case of letters, at the
  -- new address, every other name at the address it had, and chains as before.
  pub add_symbol_lem : (dup_ok : Bool) → IsAdding dup_ok (add_symbol symbol addr dup_ok t)
  unfolding add_symbol
  add_symbol_lem dup_ok = found-IsAdding dup_ok (find_symbol symbol t) refl
