-- ===== src/Lc3pp/Link/Scan.antt =====
-- The scan of a source file in lcc-1.3/lc3pp/lc3pp.c against a description of it by filters.
use mathlib.Core.List.{append_assoc, append-nil}
use lc3_script_tools.Base.{
  ℕ, zero, suc, ◌≤◌, ◌≡◌, refl, ◌∙◌, arith, Bool, true, false, ◌||◌, List, [], ◌∷◌, ◌++◌,
  if◌then◌else◌, length, Bool-cases, inl, inr,
}
use lc3_script_tools.Sim.Text.{Text, text}
use lc3_script_tools.Lc3pp.Lines.{ok, stop, forever, starts_with, from}
use lc3_script_tools.Lc3pp.Split.{is_end}
use lc3_script_tools.Lc3pp.Link.{
  LinkVariable, LinkList, is_global_line, is_extern_line, add_global, add_extern, scan_file,
}

-- The lines before the first `.END`, and whether there is one.
unfoldable pub before_end : List Text → List Text
before_end [] = []
before_end (line ∷ lines) = let rest = before_end lines in if is_end line then [] else line ∷ rest

unfoldable pub has_end : List Text → Bool
has_end [] = false
has_end (line ∷ lines) = let rest = has_end lines in if is_end line then true else rest

abbrev drop : ℕ → Text → Text
drop zero t = t
drop (suc n) [] = []
drop (suc n) (c ∷ t) = drop n t

-- The names of the lines that pass a test, as those of a file.
unfoldable pub named : (Text → Bool) → ℕ → List Text → List LinkVariable
named test i [] = []
named test i (line ∷ lines) =
    let rest = named test i lines in
    if test line then record { name = drop 8 line; argn = i } ∷ rest else rest

-- A line `.global` or `.extern` goes on to the place of its name.
abbrev pub HasNames : List Text → Type 0
HasNames [] = Unit {0}
HasNames (line ∷ lines) =
    ((is_global_line line || is_extern_line line) ≡ true → 8 ≤ length line) × HasNames lines

abbrev scanned : ℕ → List Text → LinkList → LinkList
scanned i lines l = record {
  g = l.g ++ named is_global_line i (before_end lines);
  e = l.e ++ named is_extern_line i (before_end lines);
}

from-drop : (n : ℕ) (t : Text) → n ≤ length t → from n t ≡ ok (drop n t)
unfolding from
from-drop zero t h = refl
from-drop (suc n) [] h = absurd (omega arith)
from-drop (suc n) (c ∷ t) h = from-drop n t (omega arith)

global_no_end :
    (line : Text)
    → is_global_line line ≡ true
    → (is_end line ≡ false) × (is_extern_line line ≡ false)
unfolding starts_with text
global_no_end [] h = (refl, refl)
global_no_end (c ∷ []) h = (ground arith, ground arith)
global_no_end (c ∷ d ∷ t) h = (ground arith, ground arith)

extern_no_end : (line : Text) → is_extern_line line ≡ true → is_end line ≡ false
unfolding starts_with text
extern_no_end [] h = refl
extern_no_end (c ∷ []) h = ground arith
extern_no_end (c ∷ d ∷ t) h = ground arith

-- The scan of a file, if every line `.global` and `.extern` has room for a name: where there is a
-- `.END`, it ends, and it adds the names of the lines before it, each with the number of the file, in
-- their order; where there is none, it goes on for ever.
pub scan_file_lem :
    (i : ℕ) (lines : List Text) (l : LinkList)
    → HasNames lines
    → scan_file i lines l ≡ (if has_end lines then ok (scanned i lines l) else stop forever)
unfolding scan_file has_end before_end named
scan_file_lem i [] l h = refl
scan_file_lem i (line ∷ lines) l h = elim (Bool-cases (is_global_line line)) [
  | inl g ↦
      let (no_end, no_extern) = global_no_end line g in
      let e = from-drop 8 line (h.0 (rw g refl)) in
      rw (g, no_end, no_extern, e, g)
        (scan_file_lem i lines (add_global (drop 8 line) i l) h.1
          ∙ rw
              (append_assoc l.g (record { name = drop 8 line; argn = i } ∷ [])
                (named is_global_line i (before_end lines)))
              refl)
  | inr ng ↦ elim (Bool-cases (is_extern_line line)) [
    | inl x ↦
        let no_end = extern_no_end line x in
        let e = from-drop 8 line (h.0 (rw (ng, x) refl)) in
        rw (ng, x, no_end, e, ng, x)
          (scan_file_lem i lines (add_extern (drop 8 line) i l) h.1
            ∙ rw
                (append_assoc l.e (record { name = drop 8 line; argn = i } ∷ [])
                  (named is_extern_line i (before_end lines)))
                refl)
    | inr nx ↦ elim (Bool-cases (is_end line)) [
      | inl d ↦ rw (ng, nx, d) (rw (append-nil l.g, append-nil l.e) refl)
      | inr nd ↦ rw (ng, nx, nd, ng, nx) (scan_file_lem i lines l h.1)
    ]
  ]
]
