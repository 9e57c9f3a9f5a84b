-- ===== src/Lc3pp/Resolve/Library.antt =====
-- resolve_externs of lcc-1.3/lc3pp/lc3pp.c where no other source defines what the main file asks for.
use mathlib.Core.List.{append_assoc, append-nil}
use lc3_script_tools.Base.{
  ℕ, zero, suc, ◌+◌, ◌<◌, ◌≡◌, refl, sym, ◌∙◌, ap, arith, Bool, true, false, ◌||◌, Option, none,
  some, List, [], ◌∷◌, ◌++◌, ◌==◌, if◌then◌else◌, length, length-append, Bool-cases, inl, inr,
}
use lc3_script_tools.Sim.Text.{Text, text}
use lc3_script_tools.Lc3pp.Lines.{ok, line_of}
use lc3_script_tools.Lc3pp.Split.{is_end}
use lc3_script_tools.Lc3pp.Link.{LinkVariable, LinkList, is_global_line, is_extern_line, find_name}
use lc3_script_tools.Lc3pp.Resolve.{
  Linking, nth_lines, nth_extern, from_library, resolve_name, resolve_loop, copy_head, copy_rest,
  resolve_externs,
}

-- No line passes the test.
abbrev pub NoneOf : (Text → Bool) → List Text → Type 0
NoneOf test [] = Unit {0}
NoneOf test (line ∷ lines) = (test line ≡ false) × NoneOf test lines

-- The lines without `.global` and `.extern`.
unfoldable pub kept : List Text → Text
kept [] = []
kept (line ∷ lines) =
    let rest = kept lines in
    if is_global_line line || is_extern_line line then rest else line_of line ++ rest

copy_head_lem :
    (hs : List Text) (x : Text) (ts : List Text) (out : Text)
    → NoneOf is_extern_line hs
    → NoneOf is_end hs
    → is_extern_line x ≡ true
    → copy_head (hs ++ x ∷ ts) out ≡ ok (false, out ++ kept hs, ts)
unfolding copy_head kept
copy_head_lem [] x ts out no_extern no_end h = rw (h, append-nil out) refl
copy_head_lem (line ∷ hs) x ts out no_extern no_end h = elim (Bool-cases (is_global_line line)) [
  | inl g ↦ rw (no_extern.0, no_end.0, g) (copy_head_lem hs x ts out no_extern.1 no_end.1 h)
  | inr ng ↦
      rw (no_extern.0, no_end.0, ng)
        (copy_head_lem hs x ts (out ++ line_of line) no_extern.1 no_end.1 h
          ∙ rw (append_assoc out (line_of line) (kept hs)) refl)
]

copy_rest_lem :
    (bs : List Text) (z : Text) (zs : List Text) (out : Text)
    → NoneOf is_end bs
    → is_end z ≡ true
    → copy_rest (bs ++ z ∷ zs) out ≡ ok (out ++ (kept bs ++ line_of z))
unfolding copy_rest kept
copy_rest_lem [] z zs out no_end h = rw h refl
copy_rest_lem (line ∷ bs) z zs out no_end h =
    elim (Bool-cases (is_global_line line || is_extern_line line)) [
      | inl g ↦ rw (no_end.0, g) (copy_rest_lem bs z zs out no_end.1 h)
      | inr ng ↦
          rw (no_end.0, ng)
            (copy_rest_lem bs z zs (out ++ line_of line) no_end.1 h
              ∙ ap ok (
                  append_assoc out (line_of line) (kept bs ++ line_of z)
                  ∙ ap (λ t. out ++ t) (sym (append_assoc (line_of line) (kept bs) (line_of z)))))
    ]

nth_extern-past : (us : List LinkVariable) → nth_extern us (length us) ≡ none
unfolding nth_extern
nth_extern-past [] = refl
nth_extern-past (u ∷ us) = nth_extern-past us

nth_extern-at :
    (us : List LinkVariable) (v : LinkVariable) (vs : List LinkVariable)
    → nth_extern (us ++ v ∷ vs) (length us) ≡ some v
unfolding nth_extern
nth_extern-at [] v vs = refl
nth_extern-at (u ∷ us) v vs = nth_extern-at us v vs

module _ (library : Text → Option Text) (files : List (List Text)) (g : List LinkVariable)
    (mfile : ℕ) where
  -- No source defines what the main file asks for, but the library has a file of the name.
  abbrev pub AllInLibrary : List LinkVariable → Type 0
  AllInLibrary [] = Unit {0}
  AllInLibrary (v ∷ vs) =
      ((v.argn == mfile) ≡ true
        → (find_name v.name g ≡ none)
          × ((bytes : Text) × (library (v.name ++ text ".asm") ≡ some bytes)))
      × AllInLibrary vs

  unfoldable library_file : Text → Text
  library_file name = elim (library (name ++ text ".asm")) [ none ↦ [] | some bytes ↦ bytes ]

  library_file-found :
      (name bytes : Text) → library (name ++ text ".asm") ≡ some bytes → library_file name ≡ bytes
  unfolding library_file
  library_file-found name bytes e = rw (e, library_file) refl

  -- The files of the library that the main file asks for.
  unfoldable pub library_text : List LinkVariable → Text
  unfolding library_file
  library_text [] = []
  library_text (v ∷ vs) =
      let rest = library_text vs in if v.argn == mfile then library_file v.name ++ rest else rest

  resolve_name-library :
      (fuel : ℕ) (name bytes : Text) (l : Linking)
      → find_name name g ≡ none
      → library (name ++ text ".asm") ≡ some bytes
      → resolve_name library files g mfile fuel name l ≡ ok (record l { out = l.out ++ bytes })
  unfolding resolve_name from_library
  resolve_name-library fuel name bytes l n b = rw (n, resolve_name, b, from_library) refl

  resolve_loop_lem :
      (fuel : ℕ) (us vs : List LinkVariable) (l : Linking)
      → l.e ≡ us ++ vs
      → length vs < fuel
      → AllInLibrary vs
      → resolve_loop library files g mfile fuel (length us) l
        ≡ ok (record l { out = l.out ++ library_text vs })
  unfolding resolve_loop library_text
  resolve_loop_lem zero us vs l e h a = absurd (omega (arith, h))
  resolve_loop_lem (suc fuel) us [] l e h a =
      let past : nth_extern l.e (length us) ≡ none = rw (e, append-nil us) (nth_extern-past us) in
      rw (past, resolve_loop, append-nil l.out) refl
  resolve_loop_lem (suc fuel) us (v ∷ vs) l e h a =
      let here : nth_extern l.e (length us) ≡ some v = rw e (nth_extern-at us v vs) in
      let count : length us + 1 ≡ length (us ++ v ∷ []) =
        omega (arith, length-append us (v ∷ [])) in
      let split : l.e ≡ (us ++ v ∷ []) ++ vs = e ∙ sym (append_assoc us (v ∷ []) vs) in
      elim (Bool-cases (v.argn == mfile)) [
        | inl own ↦
            let (nowhere, (bytes, found)) = a.0 own in
            let l' : Linking = record l { out = l.out ++ bytes } in
            let rest = resolve_loop_lem fuel (us ++ v ∷ []) vs l' split (omega (arith, h)) a.1 in
            rw
              (
                here,
                resolve_loop,
                own,
                resolve_name-library fuel v.name bytes l nowhere found,
                count,
                library_file-found v.name bytes found,
              )
              (rest ∙ rw (append_assoc l.out bytes (library_text vs)) refl)
        | inr other ↦
            let rest = resolve_loop_lem fuel (us ++ v ∷ []) vs l split (omega (arith, h)) a.1 in
            rw (here, resolve_loop, other, count) rest
      ]

-- The main file is `hs`, a first `.extern`, `bs` and `.END`, and no source defines a name that it asks
-- for, but the library has a file of each: with more fuel than there are externs, resolve_externs puts
-- out the lines before the first extern, the files of the library in the order of the externs, and the
-- lines after it, all without `.global` and `.extern`, and prints nothing.
pub resolve_externs-library :
    (library : Text → Option Text) (fuel : ℕ) (files : List (List Text)) (link : LinkList)
    (v : LinkVariable) (hs : List Text) (x : Text) (bs : List Text) (z : Text) (zs : List Text)
    → find_name (text "main") link.g ≡ some v
    → nth_lines files v.argn ≡ hs ++ x ∷ (bs ++ z ∷ zs)
    → NoneOf is_extern_line hs
    → NoneOf is_end hs
    → is_extern_line x ≡ true
    → NoneOf is_end bs
    → is_end z ≡ true
    → AllInLibrary library files link.g v.argn link.e
    → length link.e < fuel
    → resolve_externs library fuel files link
      ≡ ok (
        (kept hs ++ library_text library files link.g v.argn link.e) ++ (kept bs ++ line_of z),
        [],
      )
unfolding resolve_externs
resolve_externs-library library fuel files link v hs x bs z zs m f he hn hx bn hz a h =
    let head = copy_head_lem hs x (bs ++ z ∷ zs) [] he hn hx in
    let l : Linking = record { e = link.e; out = kept hs; messages = [] } in
    let loop = resolve_loop_lem library files link.g v.argn fuel [] link.e l refl h a in
    rw (m, resolve_externs, f, head, loop)
      (rw (copy_rest_lem bs z zs (kept hs ++ library_text library files link.g v.argn link.e) bn hz)
        refl)
