-- ===== src/Symbol/Names.antt =====
-- Symbol names: symbol_hash of lc3tools/symbol.c, and `tolower` and `strcasecmp` in the C locale. A
-- name is its bytes, without the 0 that ends it.
use mathlib.Core.Bool.{false≢true}
use lc3_script_tools.Base.{
  ℕ, ◌+◌, ◌*◌, ◌%◌, ◌<◌, ◌≡◌, refl, arith, Bool, true, false, ◌&&◌, List, [], ◌∷◌, leb, ◌==◌, ==→eq,
  ==-refl, if◌then◌else◌,
}

abbrev pub symbol_hash_size : ℕ
symbol_hash_size = 997

-- `tolower ((unsigned char) c)`.
unfoldable pub tolower : ℕ → ℕ
tolower c = if leb 65 c && leb c 90 then c + 32 else c

hash_from : ℕ → List ℕ → ℕ
hash_from h [] = h
hash_from h (c ∷ symbol) = hash_from (h * tolower c % symbol_hash_size) symbol

unfoldable pub symbol_hash : List ℕ → ℕ
unfolding hash_from
symbol_hash symbol = hash_from 1 symbol

-- `strcasecmp (a, b) == 0`.
unfoldable pub same_name : List ℕ → List ℕ → Bool
same_name [] [] = true
same_name [] (d ∷ b) = false
same_name (c ∷ a) [] = false
same_name (c ∷ a) (d ∷ b) = (tolower c == tolower d) && same_name a b

-- Names that differ only in case have one hash.
pub and-true : (p q : Bool) → (p && q) ≡ true → (p ≡ true) × (q ≡ true)
and-true true q e = (refl, e)
and-true false q e = absurd (false≢true e)

hash_from_same : (h : ℕ) (a b : List ℕ) → same_name a b ≡ true → hash_from h a ≡ hash_from h b
unfolding same_name hash_from
hash_from_same h [] [] e = refl
hash_from_same h [] (d ∷ b) e = absurd (false≢true e)
hash_from_same h (c ∷ a) [] e = absurd (false≢true e)
hash_from_same h (c ∷ a) (d ∷ b) e =
    let both = and-true (tolower c == tolower d) (same_name a b) e in
    rw (==→eq (tolower c) (tolower d) both.0)
      (hash_from_same (h * tolower d % symbol_hash_size) a b both.1)

pub symbol_hash_same : (a b : List ℕ) → same_name a b ≡ true → symbol_hash a ≡ symbol_hash b
symbol_hash_same a b e = unfold symbol_hash in hash_from_same 1 a b e

-- Names that are the same are the same as the same names.
pub same_name_congr : (a b x : List ℕ) → same_name a b ≡ true → same_name a x ≡ same_name b x
unfolding same_name
same_name_congr [] [] x e = refl
same_name_congr [] (d ∷ b) x e = absurd (false≢true e)
same_name_congr (c ∷ a) [] x e = absurd (false≢true e)
same_name_congr (c ∷ a) (d ∷ b) [] e = refl
same_name_congr (c ∷ a) (d ∷ b) (y ∷ x) e =
    let both = and-true (tolower c == tolower d) (same_name a b) e in
    rw (==→eq (tolower c) (tolower d) both.0, same_name_congr a b x both.1) refl

pub same_name_refl : (a : List ℕ) → same_name a a ≡ true
unfolding same_name
same_name_refl [] = refl
same_name_refl (c ∷ a) = rw (==-refl (tolower c), same_name_refl a) refl

-- The hash is an index of lc3_sym_hash.
symbol_hash-lt : (a : List ℕ) → symbol_hash a < symbol_hash_size
unfolding symbol_hash hash_from
symbol_hash-lt a = go 1 a (omega arith)
  where
    go : (h : ℕ) (b : List ℕ) → h < symbol_hash_size → hash_from h b < symbol_hash_size
    go h [] lt = lt
    go h (c ∷ b) lt = go (h * tolower c % symbol_hash_size) b (omega arith)
