-- ===== src/Symbol/Lookup.antt =====
-- The table of lc3tools/symbol.c as a map from names, without regard to case, to addresses.
use mathlib.Core.Path.{subst}
use mathlib.Core.Option.{none-ne-some}
use lc3_script_tools.Base.{
  ℕ, ◌<◌, ◌≡◌, inl, inr, refl, sym, ap, ◌∙◌, true, false, Option, none, some, List, [], ◌∷◌, All,
  Bool-cases,
}
use lc3_script_tools.Symbol.Names.{same_name, same_name_congr}
use lc3_script_tools.Symbol.Table.{SymbolT, Table, find_in, find_symbol}

-- No chain holds a pointer that `malloc` has not given.
pub record IsTable (t : Table) : Type 0 where
  pub chains : (h : ℕ) → All (λ s. s < t.unused) (t.sym_hash h)

abbrev pub addr_of : Table → Option ℕ → Option ℕ
addr_of t none = none
addr_of t (some s) = some (t.symbols s).addr

-- The address that a name has.
unfoldable pub lookup : List ℕ → Table → Option ℕ
lookup symbol t = addr_of t (find_symbol symbol t)

-- A chain is searched by the names of its symbols alone.
pub find_in_names :
    (f g : ℕ → SymbolT) (m chain : List ℕ)
    → All (λ p. (f p).name ≡ (g p).name) chain
    → find_in f m chain ≡ find_in g m chain
unfolding find_in
find_in_names f g m [] h = refl
find_in_names f g m (s ∷ chain) h = rw (h.0, find_in_names f g m chain h.1) refl

pub find_in_same :
    (f : ℕ → SymbolT) (m n chain : List ℕ)
    → same_name m n ≡ true
    → find_in f m chain ≡ find_in f n chain
unfolding find_in
find_in_same f m n [] e = refl
find_in_same f m n (s ∷ chain) e =
    rw (same_name_congr m n (f s).name e, find_in_same f m n chain e) refl

from_some : ℕ → Option ℕ → ℕ
from_some d none = d
from_some d (some s) = s

-- What is found has the name, and any property that the chain's pointers have.
pub find_in-found :
    (P : ℕ → Type 0) (f : ℕ → SymbolT) (m chain : List ℕ) (s : ℕ)
    → All P chain
    → find_in f m chain ≡ some s
    → (same_name m (f s).name ≡ true) × P s
unfolding find_in from_some
find_in-found P f m [] s h e = absurd (none-ne-some s e)
find_in-found P f m (p ∷ chain) s h e = elim (Bool-cases (same_name m (f p).name)) [
  | inl match ↦
      subst (λ q. (same_name m (f q).name ≡ true) × P q) (ap (from_some p) (sym (found match) ∙ e))
        (match, h.0)
  | inr differ ↦ find_in-found P f m chain s h.1 (sym (passed differ) ∙ e)
]
  where
    found : same_name m (f p).name ≡ true → find_in f m (p ∷ chain) ≡ some p
    found match = rw match refl

    passed : same_name m (f p).name ≡ false → find_in f m (p ∷ chain) ≡ find_in f m chain
    passed differ = rw differ refl

pub All-map : {P Q : ℕ → Type 0} (xs : List ℕ) → ((x : ℕ) → P x → Q x) → All P xs → All Q xs
All-map [] f h = tt
All-map (x ∷ xs) f h = (f x h.0, All-map xs f h.1)
