-- ===== src/Lc3pp/Link.antt =====
-- The .global and .extern lines of the source files, as main of lcc-1.3/lc3pp/lc3pp.c collects them.
pub mod Scan
use lc3_script_tools.Base.{
  ℕ, ◌+◌, Bool, true, false, ◌&&◌, Option, none, some, List, [], ◌∷◌, ◌++◌, ◌==◌, if◌then◌else◌,
}
use lc3_script_tools.Sim.Text.{Text, text, same_text}
use lc3_script_tools.Lc3pp.Lines.{Res, ok, stop, forever, ◌>>=◌, starts_with, from}
use lc3_script_tools.Lc3pp.Split.{is_end}

-- A name and the number of its file.
pub record LinkVariable : Type 0 where
  pub name : Text
  pub argn : ℕ

pub record LinkList : Type 0 where
  pub g : List LinkVariable
  pub e : List LinkVariable

abbrev pub is_global_line : Text → Bool
is_global_line line = starts_with line (text ".global")

abbrev pub is_extern_line : Text → Bool
is_extern_line line = starts_with line (text ".extern")

abbrev pub add_global : Text → ℕ → LinkList → LinkList
add_global name i l = record l { g = l.g ++ record { name = name; argn = i } ∷ [] }

abbrev pub add_extern : Text → ℕ → LinkList → LinkList
add_extern name i l = record l { e = l.e ++ record { name = name; argn = i } ∷ [] }

-- The lines of file `i` up to its `.END`.
unfoldable pub scan_file : ℕ → List Text → LinkList → Res LinkList
scan_file i [] l = stop forever
scan_file i (line ∷ lines) l =
    if is_global_line line
    then (from 8 line >>= λ name. scan_file i lines (add_global name i l))
    else if is_extern_line line
    then (from 8 line >>= λ name. scan_file i lines (add_extern name i l))
    else elim (is_end line) [ true ↦ ok l | false ↦ scan_file i lines l ]

-- The files from number `i` on.
unfoldable pub scan_files : ℕ → List (List Text) → LinkList → Res LinkList
unfolding scan_file
scan_files i [] l = ok l
scan_files i (f ∷ fs) l = scan_file i f l >>= λ l'. scan_files (i + 1) fs l'

-- The first variable of a name: `none` is the end of the list.
unfoldable pub find_name : Text → List LinkVariable → Option LinkVariable
find_name name [] = none
find_name name (v ∷ vs) =
    let rest = find_name name vs in if same_text v.name name then some v else rest

-- A name as one of a file.
unfoldable pub has_name : Text → ℕ → List LinkVariable → Bool
has_name name i [] = false
has_name name i (v ∷ vs) =
    let rest = has_name name i vs in if (v.argn == i) && same_text v.name name then true else rest
