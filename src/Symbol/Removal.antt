-- ===== src/Symbol/Removal.antt =====
-- What remove_symbol_at_addr of lc3tools/symbol.c does after a symbol was given another address.
use lc3_script_tools.Base.{
  ℕ, ◌<◌, ◌≡◌, refl, ap, ◌∙◌, arith, true, false, none, some, List, [], ◌∷◌, update, update_self,
  update_ne, ==-refl, leb,
}
use lc3_script_tools.Symbol.Names.{symbol_hash, same_name_refl}
use lc3_script_tools.Symbol.Table.{
  SymbolT, Table, find_in, find_symbol, link, move, add_found, add_symbol, added, unlink,
  remove_chain, remove_symbol_at_addr,
}
use lc3_script_tools.Symbol.Lookup.{IsTable, lookup, find_in_names, All-map}
use lc3_script_tools.Symbol.Adding.{old_symbol, link-IsTable, move-lookup}

-- The removal at an address with one symbol, which is the first of its bucket.
remove_one :
    (t : Table) (s addr h : ℕ) (chain : List ℕ)
    → symbol_hash (t.symbols s).name ≡ h
    → t.sym_hash h ≡ s ∷ chain
    → remove_chain (s ∷ []) addr t
      ≡ some (record t {
        sym_hash = update t.sym_hash h chain;
        sym_names = update t.sym_names addr [];
      })
unfolding remove_chain unlink
remove_one t s addr h chain at first = rw (remove_chain, at, first, unlink, ==-refl s) (rw at refl)

module _ (t : Table) (ok : IsTable t) (symbol : List ℕ) (addr : ℕ) where
  in_names : addr < 65536 → leb 65536 addr ≡ false
  in_names lt = ground arith

  add_new :
      addr < 65536
      → find_symbol symbol t ≡ none
      → add_symbol symbol addr false t ≡ added (link symbol addr t)
  unfolding add_symbol add_found
  add_new lt absent = rw (absent, in_names lt) refl

  abbrev bucket : ℕ
  bucket = symbol_hash symbol

  find_linked : find_symbol symbol (link symbol addr t) ≡ some t.unused
  unfolding find_symbol find_in
  find_linked =
      rw
        (
          update_self t.sym_hash bucket (t.unused ∷ t.sym_hash bucket),
          update_self t.symbols t.unused (record { name = symbol; addr = addr }),
          same_name_refl symbol,
        )
        refl

  module _ (to : ℕ) where
    abbrev pub moved : Table
    moved = move t.unused to (link symbol addr t)

    add_again : add_symbol symbol to true (link symbol addr t) ≡ added moved
    unfolding add_symbol add_found
    add_again = rw find_linked refl

    linked_name : ((link symbol addr t).symbols t.unused).name ≡ symbol
    linked_name =
        ap (λ (x : SymbolT). x.name)
          (update_self t.symbols t.unused (record { name = symbol; addr = addr }))

    moved_self : moved.symbols t.unused ≡ record { name = symbol; addr = to }
    moved_self =
        update_self (link symbol addr t).symbols t.unused
          (record { name = ((link symbol addr t).symbols t.unused).name; addr = to })
        ∙ ap (λ (x : List ℕ). record { name = x; addr = to }) linked_name

    old_name : (p : ℕ) → p < t.unused → (moved.symbols p).name ≡ (t.symbols p).name
    old_name p lt =
        ap (λ (x : SymbolT). x.name)
          (update_ne (link symbol addr t).symbols t.unused p
              (record { name = ((link symbol addr t).symbols t.unused).name; addr = to })
              (omega arith)
            ∙ old_symbol t ok symbol addr p lt)

    -- The table that the removal leaves.
    abbrev pub removed : Table
    removed = record moved {
      sym_hash = update moved.sym_hash bucket (t.sym_hash bucket);
      sym_names = update moved.sym_names addr [];
    }

    remove_moved :
        addr < 65536 → t.sym_names addr ≡ [] → remove_symbol_at_addr addr moved ≡ some removed
    unfolding remove_symbol_at_addr
    remove_moved lt alone =
        rw (in_names lt, update_self t.sym_names addr (t.unused ∷ t.sym_names addr))
          (ap (λ (c : List ℕ). remove_chain (t.unused ∷ c) addr moved) alone)
        ∙ remove_one moved t.unused addr bucket (t.sym_hash bucket)
            (ap (λ (x : SymbolT). symbol_hash x.name) moved_self)
            (update_self t.sym_hash bucket (t.unused ∷ t.sym_hash bucket))

    find_removed : find_symbol symbol removed ≡ find_symbol symbol t
    unfolding find_symbol
    find_removed = rw (update_self moved.sym_hash bucket (t.sym_hash bucket)) (
        find_in_names moved.symbols t.symbols symbol (t.sym_hash bucket)
          (All-map (t.sym_hash bucket) old_name (ok.chains bucket)))

    find_moved : lookup symbol moved ≡ some to
    find_moved =
        move-lookup (link symbol addr t) (link-IsTable t ok symbol addr) symbol to t.unused
          find_linked symbol
        ∙ rw (same_name_refl symbol) refl

    -- A new symbol at `addr`, to which `add_symbol` with duplicates allowed then gives the address
    -- `to`, is looked up at `to`, but is removed with the symbols at `addr`: it stays in the chain of
    -- lc3_sym_names for its first address. For addresses below 65536, and an `addr` with no symbol.
    pub lookup-remove_symbol_at_addr-moved :
        addr < 65536
        → find_symbol symbol t ≡ none
        → t.sym_names addr ≡ []
        → (add_symbol symbol addr false t ≡ added (link symbol addr t))
          × (add_symbol symbol to true (link symbol addr t) ≡ added moved)
          × (lookup symbol moved ≡ some to)
          × (remove_symbol_at_addr addr moved ≡ some removed)
          × (lookup symbol removed ≡ none)
    unfolding lookup
    lookup-remove_symbol_at_addr-moved lt absent alone = (
      add_new lt absent,
      add_again,
      find_moved,
      remove_moved lt alone,
      rw (find_removed, absent) refl,
    )
