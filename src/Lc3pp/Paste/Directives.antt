-- ===== src/Lc3pp/Paste/Directives.antt =====
-- What a line of the assembly does to the open files of lcc-1.3/lc3pp/SourcePaste.c.
use mathlib.Core.Bool.{false≢true}
use mathlib.Core.List.{append_assoc, append-nil}
use lc3_script_tools.Base.{
  ℕ, ◌+◌, ◌-◌, ◌<◌, ◌≡◌, refl, sym, ◌∙◌, arith, Bool, true, false, ◌||◌, Option, none, some, [],
  ◌∷◌, ◌++◌, ◌==◌, ltb, length, length-append, Bool-cases, inl, inr,
}
use lc3_script_tools.Symbol.Names.{and-true}
use lc3_script_tools.Sim.Text.{Text, text}
use lc3_script_tools.Lc3pp.Lines.{Res, ok, starts_with, from}
use lc3_script_tools.Lc3pp.Paste.{
  SourceFile, Pasting, file_pieces, output_nth, scan_file_args, scan_line_args, open_source,
  file_found, line_found, add_source, put_text, paste_to, file_directive, line_directive,
  debug_line, not_below_zero,
}
use lc3_script_tools.Lc3pp.Paste.Files.{
  IsValid, Goes, output_nth-AllRead, AllRead-append, length-output_nth,
}

-- A text that begins with a prefix, after it.
starts_with-from :
    (prefix line : Text)
    → starts_with line prefix ≡ true
    → (rest : Text) × (from (length prefix) line ≡ ok rest)
      × ((more : Text) → starts_with line (prefix ++ more) ≡ starts_with rest more)
unfolding starts_with from
starts_with-from [] line h = (line, refl, λ more. refl)
starts_with-from (c ∷ prefix) [] h = absurd (false≢true h)
starts_with-from (c ∷ prefix) (d ∷ line) h =
    let (same, start) = and-true (d == c) (starts_with line prefix) h in
    let (rest, e, f) = starts_with-from prefix line start in (rest, e, λ more. rw same (f more))

-- The directives that open a file.
abbrev pub is_file_line : Text → Bool
is_file_line line = starts_with line (text ".debug file ")

module _ (files : Text → Option Text) where
  pub put_text-Goes :
      (n : ℕ) (t : Text) (p : Pasting) → IsValid files n p → Goes files n p (ok (put_text t p))
  put_text-Goes n t p v = (put_text t p, refl, v, (t, refl))

  -- More files are allowed.
  pub Goes-more :
      (n : ℕ) (p : Pasting) (r : Res Pasting) → Goes files n p r → Goes files (n + 1) p r
  Goes-more n p r (q, e, v, x) = (q, e, (v.0, omega (arith, v.1)), x)

  -- First some text, and then more.
  pub Goes-after :
      (n : ℕ) (t : Text) (p : Pasting) (r : Res Pasting)
      → Goes files n (put_text t p) r
      → Goes files n p r
  Goes-after n t p r (q, e, v, (u, x)) = (q, e, v, (t ++ u, x ∙ append_assoc p.out t u))

  add_source-Goes :
      (n : ℕ) (name bytes : Text) (p : Pasting)
      → files name ≡ some bytes
      → n < 10
      → IsValid files n p
      → Goes files (n + 1) p (add_source name bytes p)
  unfolding add_source
  add_source-Goes n name bytes p e room v =
      let s : SourceFile = record { name = name; rest = file_pieces bytes; last = 0 } in
      let fits : ltb (length p.sources) 10 ≡ true = ground (arith, v.1) in
      rw fits (
        record p { sources = p.sources ++ s ∷ [] },
        refl,
        (
          AllRead-append files p.sources s v.0
              (record { bytes = bytes; done = []; is_file = e; whole = refl; count = refl }),
          omega (arith, length-append p.sources (s ∷ []), v.1),
        ),
        ([], sym (append-nil p.out)),
      )

  open_source-Goes :
      (n : ℕ) (line name : Text) (found : Option Text) (p : Pasting)
      → files name ≡ found
      → n < 10
      → IsValid files n p
      → Goes files (n + 1) p (open_source line name found p)
  open_source-Goes n line name none p e room v = Goes-more n p _ (put_text-Goes n _ p v)
  open_source-Goes n line name (some bytes) p e room v = add_source-Goes n name bytes p e room v

  file_found-Goes :
      (n : ℕ) (line : Text) (found : Option (ℕ × Text)) (p : Pasting)
      → n < 10
      → IsValid files n p
      → Goes files (n + 1) p (file_found files line found p)
  file_found-Goes n line none p room v = Goes-more n p _ (put_text-Goes n _ p v)
  file_found-Goes n line (some a) p room v = elim (Bool-cases (a.0 == length p.sources + 1)) [
    | inl e ↦ rw e (open_source-Goes n line a.1 (files a.1) p refl room v)
    | inr ne ↦ rw ne (Goes-more n p _ (put_text-Goes n _ p v))
  ]

  line_found-Goes :
      (n : ℕ) (line : Text) (found : Option (ℕ × ℕ)) (p : Pasting)
      → IsValid files n p
      → Goes files n p (ok (line_found line found p))
  unfolding paste_to
  line_found-Goes n line none p v = put_text-Goes n _ p v
  line_found-Goes n line (some a) p v =
      elim (Bool-cases ((not_below_zero a.0 == 0) || ltb (length p.sources) (not_below_zero a.0))) [
        | inl unknown ↦ rw unknown (put_text-Goes n _ p v)
        | inr known ↦
            let k = a.0 - 1 in
            let until_line = not_below_zero a.1 in
            rw known (
              record {
                sources = (output_nth k until_line p.sources).0;
                out = p.out ++ (output_nth k until_line p.sources).1;
              },
              refl,
              (
                output_nth-AllRead files k until_line p.sources v.0,
                omega (arith, length-output_nth k until_line p.sources, v.1),
              ),
              ((output_nth k until_line p.sources).1, refl),
            )
      ]

  line_directive-Goes :
      (n : ℕ) (line args : Text) (p : Pasting)
      → IsValid files n p
      → Goes files n p (ok (line_directive line args p))
  unfolding line_directive
  line_directive-Goes n line args p v = line_found-Goes n line (scan_line_args args) p v

  file_directive-Goes :
      (n : ℕ) (line args : Text) (p : Pasting)
      → n < 10
      → IsValid files n p
      → Goes files (n + 1) p (file_directive files line args p)
  unfolding file_directive
  file_directive-Goes n line args p room v = file_found-Goes n line (scan_file_args args) p room v

  -- A line that is no `.debug file`, and one that is.
  pub other_line-Goes :
      (n : ℕ) (line : Text) (p : Pasting)
      → starts_with line (text ".debug ") ≡ true
      → is_file_line line ≡ false
      → IsValid files n p
      → Goes files n p (debug_line files line p)
  unfolding debug_line text
  other_line-Goes n line p start other v =
      let (directive, e, more) = starts_with-from (text ".debug ") line start in
      let other' : starts_with directive (text "file ") ≡ false =
        sym (more (text "file ")) ∙ other in
      rw (e, other')
        (elim (Bool-cases (starts_with directive (text "line "))) [
          | inl l ↦
              let (args, e', more') = starts_with-from (text "line ") directive l in
              rw (l, e') (line_directive-Goes n line args p v)
          | inr nl ↦ rw nl (p, refl, v, ([], sym (append-nil p.out)))
        ])

  pub file_line-Goes :
      (n : ℕ) (line : Text) (p : Pasting)
      → starts_with line (text ".debug ") ≡ true
      → is_file_line line ≡ true
      → n < 10
      → IsValid files n p
      → Goes files (n + 1) p (debug_line files line p)
  unfolding debug_line text
  file_line-Goes n line p start file room v =
      let (directive, e, more) = starts_with-from (text ".debug ") line start in
      let here : starts_with directive (text "file ") ≡ true = sym (more (text "file ")) ∙ file in
      let (args, e', more') = starts_with-from (text "file ") directive here in
      rw (e, here, e') (file_directive-Goes n line args p room v)
