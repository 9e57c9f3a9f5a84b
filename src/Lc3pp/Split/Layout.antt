-- ===== src/Lc3pp/Split/Layout.antt =====
-- The offsets of the global variables in the data that lcc-1.3/lc3pp/lc3pp.c puts out.
use lc3_script_tools.Base.{
  ℕ, ◌+◌, ◌%◌, ◌^◌, ◌≤◌, ◌<◌, ◌≡◌, refl, arith, true, false, List, [], ◌∷◌, ◌++◌, ==-refl,
}
use mathlib.Core.List.{append_assoc}
use lc3_script_tools.Sim.Text.{Text, same_text}
use lc3_script_tools.Lc3pp.Split.{Variable, glob_offset}

same_text_refl : (t : Text) → same_text t t ≡ true
unfolding same_text
same_text_refl [] = refl
same_text_refl (c ∷ t) = rw (==-refl c) (same_text_refl t)

-- The words of some variables.
unfoldable pub total : List Variable → ℕ
total [] = 0
total (v ∷ vs) = v.size + total vs

-- None of them has the name.
abbrev pub IsFresh : Text → List Variable → Type 0
IsFresh name [] = Unit {0}
IsFresh name (v ∷ vs) = (same_text v.name name ≡ false) × IsFresh name vs

-- The first variable of a name lies after the words of those before it.
pub glob_offset-found :
    (us : List Variable) (v : Variable) (vs : List Variable)
    → IsFresh v.name us
    → glob_offset (us ++ v ∷ vs) v.name ≡ total us % 2 ^ 32
unfolding glob_offset total
glob_offset-found [] v [] f = refl
glob_offset-found [] v (w ∷ ws) f = rw (same_text_refl v.name) refl
glob_offset-found (u ∷ []) v vs f = rw f.0 (omega (arith, glob_offset-found [] v vs tt))
glob_offset-found (u ∷ u' ∷ us) v vs f =
    rw f.0 (omega (arith, glob_offset-found (u' ∷ us) v vs f.1))

total-append : (us vs : List Variable) → total (us ++ vs) ≡ total us + total vs
unfolding total
total-append [] vs = omega arith
total-append (u ∷ us) vs = omega (arith, total-append us vs)

-- The words of two global variables do not overlap: if both are the first of their name in a table of
-- less than 2 ^ 32 words, the offset of the later one is not below the end of the earlier one.
pub glob_offset-disjoint :
    (us : List Variable) (v : Variable) (vs : List Variable) (w : Variable) (ws : List Variable)
    → IsFresh v.name us
    → IsFresh w.name (us ++ v ∷ vs)
    → total ((us ++ v ∷ vs) ++ w ∷ ws) < 2 ^ 32
    → glob_offset ((us ++ v ∷ vs) ++ w ∷ ws) v.name + v.size
      ≤ glob_offset ((us ++ v ∷ vs) ++ w ∷ ws) w.name
unfolding total
glob_offset-disjoint us v vs w ws fresh_v fresh_w small =
    let whole = (us ++ v ∷ vs) ++ w ∷ ws in
    let first : glob_offset whole v.name ≡ total us % 2 ^ 32 =
      rw (append_assoc us (v ∷ vs) (w ∷ ws)) (glob_offset-found us v (vs ++ w ∷ ws) fresh_v) in
    let second = glob_offset-found (us ++ v ∷ vs) w ws fresh_w in
    omega (arith, first, second, total-append (us ++ v ∷ vs) (w ∷ ws), total-append us (v ∷ vs))
