-- ===== src/Symbol/Table.antt =====
-- The hash table of lc3tools/symbol.c, in the build with MAP_LOCATION_TO_SYMBOL. A pointer to a symbol
-- is a number, and the chains that `next_with_hash` and `next_at_loc` link are lists of pointers.
use lc3_script_tools.Base.{
  ℕ, ◌+◌, Bool, Option, none, some, List, [], ◌∷◌, ◌==◌, leb, if◌then◌else◌, update,
}
use lc3_script_tools.Symbol.Names.{symbol_hash, same_name}

-- `struct symbol_t`, but for its links.
pub record SymbolT : Type 0 where
  pub name : List ℕ
  pub addr : ℕ

-- lc3_sym_hash and lc3_sym_names, the symbols pointed to, and a pointer that `malloc` has not given.
pub record Table : Type 0 where
  pub symbols : ℕ → SymbolT
  pub sym_hash : ℕ → List ℕ
  pub sym_names : ℕ → List ℕ
  pub unused : ℕ

-- The loop of find_symbol over a chain.
unfoldable pub find_in : (ℕ → SymbolT) → List ℕ → List ℕ → Option ℕ
find_in symbols symbol [] = none
find_in symbols symbol (s ∷ chain) =
    let rest = find_in symbols symbol chain in
    if same_name symbol (symbols s).name then some s else rest

unfoldable pub find_symbol : List ℕ → Table → Option ℕ
find_symbol symbol t = find_in t.symbols symbol (t.sym_hash (symbol_hash symbol))

-- `refused` is the result -1. `undefined` is an access past the end of lc3_sym_names.
pub data Adding : Type 0 where
  added : Table → Adding
  refused undefined : Adding

abbrev pub link : List ℕ → ℕ → Table → Table
link symbol addr t =
    let h = symbol_hash symbol in
    record {
      symbols = update t.symbols t.unused (record { name = symbol; addr = addr });
      sym_hash = update t.sym_hash h (t.unused ∷ t.sym_hash h);
      sym_names = update t.sym_names addr (t.unused ∷ t.sym_names addr);
      unused = t.unused + 1;
    }

abbrev pub move : ℕ → ℕ → Table → Table
move s addr t = record t {
  symbols = update t.symbols s (record { name = (t.symbols s).name; addr = addr });
}

-- The new symbol, or the one found.
unfoldable pub add_found : Option ℕ → List ℕ → ℕ → Bool → Table → Adding
add_found none symbol addr dup_ok t =
    if leb 65536 addr then undefined else added (link symbol addr t)
add_found (some s) symbol addr dup_ok t = if dup_ok then added (move s addr t) else refused

unfoldable pub add_symbol : List ℕ → ℕ → Bool → Table → Adding
add_symbol symbol addr dup_ok t = add_found (find_symbol symbol t) symbol addr dup_ok t

-- `*find = s->next_with_hash` where `*find` is `s`: `none` if the chain ends before.
unfoldable pub unlink : ℕ → List ℕ → Option (List ℕ)
unlink s [] = none
unlink s (p ∷ chain) =
    let rest = unlink s chain in
    if p == s then some chain else elim rest [ none ↦ none | some shorter ↦ some (p ∷ shorter) ]

-- The loop of remove_symbol_at_addr, on the chain that is left at the address: `none` is an access
-- through NULL, or past the end of lc3_sym_names.
unfoldable pub remove_chain : List ℕ → ℕ → Table → Option Table
remove_chain [] addr t = some t
remove_chain (s ∷ next_at_loc) addr t =
    let h = symbol_hash (t.symbols s).name in
    elim (unlink s (t.sym_hash h)) [
      | none ↦ none
      | some chain ↦ remove_chain next_at_loc addr (record t {
        sym_hash = update t.sym_hash h chain;
        sym_names = update t.sym_names addr next_at_loc;
      })
    ]

unfoldable pub remove_symbol_at_addr : ℕ → Table → Option Table
remove_symbol_at_addr addr t =
    if leb 65536 addr then none else remove_chain (t.sym_names addr) addr t
