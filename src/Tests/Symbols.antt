-- ===== src/Tests/Symbols.antt =====
-- The symbol table of lc3tools/symbol.c at small tables.
use lc3_script_tools.Base.{◌≢◌, ℕ, ◌≡◌, refl, arith, true, false, none, some, List, [], ◌∷◌}
use lc3_script_tools.Symbol.Names.{same_name, tolower}
use lc3_script_tools.Symbol.Table.{
  Table, find_symbol, find_in, link, added, add_symbol, add_found, remove_symbol_at_addr,
}
use lc3_script_tools.Symbol.Lookup.{IsTable, lookup}
use lc3_script_tools.Symbol.Adding.{IsAdding, add_symbol_lem}
use lc3_script_tools.Symbol.Emptied.{Without}
use lc3_script_tools.Symbol.Ordered.{IsOrdered, AddedIsOrdered, add_symbol-IsOrdered}
use lc3_script_tools.Symbol.Removing.{remove_symbol_at_addr_lem}
use lc3_script_tools.Symbol.Removal.{moved, removed, lookup-remove_symbol_at_addr-moved}

-- The static arrays at the start of the program.
abbrev empty : Table
empty = record {
  symbols = λ _. record { name = []; addr = 0 };
  sym_hash = λ _. [];
  sym_names = λ _. [];
  unused = 0;
}

empty-IsTable : IsTable empty
empty-IsTable = record { chains = λ h. tt }

-- "LOOP" and "Loop".
abbrev upper : List ℕ
upper = 76 ∷ 79 ∷ 79 ∷ 80 ∷ []

abbrev mixed : List ℕ
mixed = 76 ∷ 111 ∷ 111 ∷ 112 ∷ []

are_same : same_name upper mixed ≡ true
unfolding same_name tolower
are_same = refl

add_symbol_lem_example :
    IsAdding empty empty-IsTable upper 0x3000 false (add_symbol upper 0x3000 false empty)
add_symbol_lem_example = add_symbol_lem empty empty-IsTable upper 0x3000 false

none_found : find_symbol upper empty ≡ none
unfolding find_symbol find_in
none_found = refl

lookup-remove_symbol_at_addr-moved_example :
    (add_symbol upper 0x3000 false empty ≡ added (link upper 0x3000 empty))
    × (add_symbol upper 0x4000 true (link upper 0x3000 empty)
        ≡ added (moved empty empty-IsTable upper 0x3000 0x4000))
    × (lookup upper (moved empty empty-IsTable upper 0x3000 0x4000) ≡ some 0x4000)
    × (remove_symbol_at_addr 0x3000 (moved empty empty-IsTable upper 0x3000 0x4000)
        ≡ some (removed empty empty-IsTable upper 0x3000 0x4000))
    × (lookup upper (removed empty empty-IsTable upper 0x3000 0x4000) ≡ none)
lookup-remove_symbol_at_addr-moved_example =
    lookup-remove_symbol_at_addr-moved empty empty-IsTable upper 0x3000 0x4000 (omega arith)
      none_found refl

empty-IsOrdered : IsOrdered empty
empty-IsOrdered = record {
  given = empty-IsTable;
  in_order = record { distinct = λ h. tt; filed = λ h p m. absurd m };
  listed = λ a s m. absurd m;
  once = λ a. tt;
  one_address = λ a a' s m m'. absurd m;
}

add_symbol-IsOrdered_example : AddedIsOrdered (add_symbol upper 0x3000 false empty)
add_symbol-IsOrdered_example = add_symbol-IsOrdered upper 0x3000 false empty empty-IsOrdered

-- A table with one symbol.
linked-IsOrdered : IsOrdered (link upper 0x3000 empty)
unfolding add_symbol add_found find_symbol find_in
linked-IsOrdered = add_symbol-IsOrdered upper 0x3000 false empty empty-IsOrdered

remove_symbol_at_addr_lem_example :
    (end : Table) × (remove_symbol_at_addr 0x3000 (link upper 0x3000 empty) ≡ some end)
    × IsOrdered end
    × Without (link upper 0x3000 empty) end (0 ∷ [])
    × (end.sym_names 0x3000 ≡ [])
    × ((a : ℕ) → a ≢ 0x3000 → end.sym_names a ≡ (link upper 0x3000 empty).sym_names a)
remove_symbol_at_addr_lem_example =
    remove_symbol_at_addr_lem (link upper 0x3000 empty) linked-IsOrdered 0x3000 (omega arith)
