-- ===== src/Symbol/Removing.antt =====
-- remove_symbol_at_addr of lc3tools/symbol.c on tables in order.
use mathlib.Core.Path.{subst}
use lc3_script_tools.Base.{
  ℕ, ◌<◌, ◌≡◌, ◌≢◌, inl, inr, refl, sym, ap, ◌∙◌, arith, false, some, [], ◌==◌, leb, Bool-cases,
  ==→eq,
}
use lc3_script_tools.Symbol.Names.{symbol_hash}
use lc3_script_tools.Symbol.Table.{SymbolT, Table, remove_symbol_at_addr}
use lc3_script_tools.Symbol.Lookup.{IsTable}
use lc3_script_tools.Symbol.Unlink.{In, Distinct}
use lc3_script_tools.Symbol.Emptied.{hash_of, Without, Removed, remove_chain_lem}
use lc3_script_tools.Symbol.Ordered.{IsOrdered, In-All, hash_pointer-lt}

module _ (t : Table) (ok : IsOrdered t) (addr : ℕ) where
  removal : Removed t (t.sym_names addr) addr
  removal =
      remove_chain_lem (t.sym_names addr) addr t ok.in_order
        (In-All (t.sym_names addr) (ok.listed addr)) (ok.once addr)

  -- What is still linked at an address was linked there, and the address is another one.
  still_linked : (a s : ℕ) → In s (removal.end.sym_names a) → In s (t.sym_names a) × (a ≢ addr)
  still_linked a s m = elim (Bool-cases (a == addr)) [
    | inl e ↦
        absurd (subst (In s) (ap removal.end.sym_names (==→eq a addr e) ∙ removal.emptied refl) m)
    | inr e ↦ (subst (In s) (removal.others a (other e)) m, other e)
  ]
    where
      other : (a == addr) ≡ false → a ≢ addr
      other e same = ground arith

  same_hash : (s : ℕ) → hash_of removal.end s ≡ hash_of t s
  same_hash s = ap (λ (f : ℕ → SymbolT). symbol_hash (f s).name) removal.without.symbols

  end-IsTable : IsTable removal.end
  end-IsTable = record {
    chains = λ h. In-All (removal.end.sym_hash h) (λ p m.
        omega
          (arith, removal.same_unused, hash_pointer-lt t ok h p (removal.without.left h p m).0));
  }

  end-IsOrdered : IsOrdered removal.end
  end-IsOrdered = record {
    given = end-IsTable;
    in_order = removal.in_order;
    listed = λ a s m.
        let linked = still_linked a s m in
        subst (λ (h : ℕ). In s (removal.end.sym_hash h)) (sym (same_hash s))
          (removal.without.kept (hash_of t s) s (ok.listed a s linked.0)
            (λ g. linked.1 (ok.one_address a addr s linked.0 g)));
    once = λ a. elim (Bool-cases (a == addr)) [
      | inl e ↦
          subst Distinct (sym (ap removal.end.sym_names (==→eq a addr e) ∙ removal.emptied refl)) tt
      | inr e ↦ subst Distinct (sym (removal.others a (λ same. ground arith))) (ok.once a)
    ];
    one_address =
        λ a a' s m m'. ok.one_address a a' s (still_linked a s m).0 (still_linked a' s m').0;
  }

  -- remove_symbol_at_addr, for an address of lc3_sym_names, on a table in order: it does not run past
  -- the end of a chain; it takes exactly the symbols linked at the address out of lc3_sym_hash,
  -- changes no symbol's name or address, leaves no symbol linked at the address and every other
  -- address as it was, and keeps the table in order.
  pub remove_symbol_at_addr_lem :
      addr < 65536
      → (end : Table) × (remove_symbol_at_addr addr t ≡ some end)
        × IsOrdered end
        × Without t end (t.sym_names addr)
        × (end.sym_names addr ≡ [])
        × ((a : ℕ) → a ≢ addr → end.sym_names a ≡ t.sym_names a)
  unfolding remove_symbol_at_addr
  remove_symbol_at_addr_lem lt =
      let inside : leb 65536 addr ≡ false = ground arith in
      (
        removal.end,
        rw inside removal.result,
        end-IsOrdered,
        removal.without,
        removal.emptied refl,
        removal.others,
      )
