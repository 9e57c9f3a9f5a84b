-- ===== src/Lc3pp/Paste/Invariant.antt =====
-- What the loop of main of lcc-1.3/lc3pp/SourcePaste.c does with any assembly.
use mathlib.Core.List.{append_assoc, append-nil}
use lc3_script_tools.Base.{
  ℕ, suc, ◌+◌, ◌≤◌, ◌≡◌, refl, sym, ◌∙◌, ap, arith, Bool, true, false, ◌&&◌, Option, List, [], ◌∷◌,
  ◌++◌, if◌then◌else◌, length, Bool-cases, inl, inr,
}
use lc3_script_tools.Sim.Text.{Text, text}
use lc3_script_tools.Lc3pp.Lines.{Res, starts_with}
use lc3_script_tools.Lc3pp.Paste.{Pasting, put_text, debug_line, paste_line, paste_lines}
use lc3_script_tools.Lc3pp.Paste.Files.{AllRead, IsValid, Extends, Goes}
use lc3_script_tools.Lc3pp.Paste.Directives.{
  is_file_line, put_text-Goes, Goes-more, Goes-after, other_line-Goes, file_line-Goes,
}

unfoldable pub count_files : List Text → ℕ
count_files [] = 0
count_files (line ∷ lines) =
    let rest = count_files lines in if is_file_line line then suc rest else rest

module _ (files : Text → Option Text) where
  abbrev after_line : ℕ → Text → ℕ
  after_line n line = if is_file_line line then n + 1 else n

  debug_line-Goes :
      (n : ℕ) (line : Text) (p : Pasting)
      → starts_with line (text ".debug ") ≡ true
      → after_line n line ≤ 10
      → IsValid files n p
      → Goes files (after_line n line) p (debug_line files line p)
  debug_line-Goes n line p start room v = elim (Bool-cases (is_file_line line)) [
    | inl file ↦ rw file (file_line-Goes files n line p start file (ground arith) v)
    | inr other ↦ rw other (other_line-Goes files n line p start other v)
  ]

  one_more :
      (n : ℕ) (line : Text) (p : Pasting) (r : Res Pasting)
      → Goes files n p r
      → Goes files (after_line n line) p r
  one_more n line p r g = elim (Bool-cases (is_file_line line)) [
    | inl file ↦ rw file (Goes-more files n p r g)
    | inr other ↦ rw other g
  ]

  directive_put :
      (omit : Bool) (n : ℕ) (line : Text) (p : Pasting)
      → starts_with line (text ".debug ") ≡ true
      → after_line n line ≤ 10
      → IsValid files n p
      → Goes files
          (after_line n line)
          p
          (debug_line files line (if omit then p else put_text line p))
  directive_put true n line p start room v = debug_line-Goes n line p start room v
  directive_put false n line p start room v =
      Goes-after files (after_line n line) line p _
        (debug_line-Goes n line (put_text line p) start room v)

  paste_line-Goes :
      (omit : Bool) (n : ℕ) (line : Text) (p : Pasting)
      → after_line n line ≤ 10
      → IsValid files n p
      → Goes files (after_line n line) p (paste_line files omit line p)
  unfolding paste_line
  paste_line-Goes omit n line p room v = elim (Bool-cases (starts_with line (text ".debug "))) [
    | inl start ↦ rw start (directive_put omit n line p start room v)
    | inr plain ↦ rw plain (
        one_more n line p _ (elim (Bool-cases (omit && starts_with line (text "; .debug "))) [
          | inl omitted ↦ rw omitted (p, refl, v, ([], sym (append-nil p.out)))
          | inr kept ↦ rw kept (put_text-Goes files n line p v)
        ]))
  ]

  count-after :
      (n : ℕ) (line : Text) (lines : List Text)
      → n + count_files (line ∷ lines) ≡ after_line n line + count_files lines
  unfolding count_files
  count-after n line lines = elim (Bool-cases (is_file_line line)) [
    | inl file ↦ rw file (omega arith)
    | inr other ↦ rw other refl
  ]

  Goes-then :
      (n m : ℕ) (p q : Pasting) (r : Res Pasting)
      → Extends files p q
      → Goes files m q r
      → Goes files m p r
  Goes-then n m p q r (t, e) (q', e', v, (u, x)) =
      (q', e', v, (t ++ u, x ∙ ap (λ o. o ++ u) e ∙ append_assoc p.out t u))

  lines-Goes :
      (omit : Bool) (n : ℕ) (lines : List Text) (p : Pasting)
      → n + count_files lines ≤ 10
      → IsValid files n p
      → Goes files 10 p (paste_lines files omit lines p)
  unfolding paste_lines count_files
  lines-Goes omit n [] p room v = (p, refl, (v.0, omega (arith, v.1)), ([], sym (append-nil p.out)))
  lines-Goes omit n (line ∷ lines) p room v =
      let counted = count-after n line lines in
      let (q, e, v', x) = paste_line-Goes omit n line p (omega (arith, counted)) v in
      rw e (
        Goes-then n 10 p q _ x
          (lines-Goes omit (after_line n line) lines q (omega (arith, counted)) v'))

  -- Any assembly that asks for no more than ten source files, those that are open counted, is gone
  -- through to its end: whatever its directives, every file is there and read in order up to the line
  -- of its number, there are at most ten of them, and the text that was put out before stays.
  pub paste_lines-Goes :
      (omit : Bool) (lines : List Text) (p : Pasting)
      → AllRead files p.sources
      → length p.sources + count_files lines ≤ 10
      → Goes files 10 p (paste_lines files omit lines p)
  paste_lines-Goes omit lines p read room =
      lines-Goes omit (length p.sources) lines p room (read, omega arith)
