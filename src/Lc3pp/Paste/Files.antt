-- ===== src/Lc3pp/Paste/Files.antt =====
-- The open files of lcc-1.3/lc3pp/SourcePaste.c, read in order.
use mathlib.Core.List.{append_assoc}
use lc3_script_tools.Base.{
  ℕ, zero, suc, ◌+◌, ◌≤◌, ◌≡◌, refl, ◌∙◌, ap, arith, Option, some, List, [], ◌∷◌, ◌++◌, ltb, length,
  length-append, Bool-cases, inl, inr,
}
use lc3_script_tools.Sim.Text.{Text}
use lc3_script_tools.Lc3pp.Lines.{Res, ok}
use lc3_script_tools.Lc3pp.Paste.{
  SourceFile, Pasting, file_pieces, output_lines, output_source, output_nth,
}

module _ (files : Text → Option Text) where
  -- The lines that were read, as many as the number of the last one, and those that are left make up
  -- the file of the name.
  pub record IsRead (s : SourceFile) : Type 0 where
    pub bytes : Text
    pub done : List Text
    pub is_file : files s.name ≡ some bytes
    pub whole : done ++ s.rest ≡ file_pieces bytes
    pub count : length done ≡ s.last

  abbrev pub AllRead : List SourceFile → Type 0
  AllRead [] = Unit {0}
  AllRead (s ∷ ss) = IsRead s × AllRead ss

  -- The files are read in order, and there are at most `n` of them.
  abbrev pub IsValid : ℕ → Pasting → Type 0
  IsValid n p = AllRead p.sources × (length p.sources ≤ n)

  -- The text that was put out stays.
  abbrev pub Extends : Pasting → Pasting → Type 0
  Extends p q = (t : Text) × (q.out ≡ p.out ++ t)

  abbrev pub Goes : ℕ → Pasting → Res Pasting → Type 0
  Goes n p r = (q : Pasting) × (r ≡ ok q) × IsValid n q × Extends p q

-- What the loop of OutputSource reads.
output_lines-Split :
    (until_line : ℕ) (name : Text) (i : ℕ) (lines : List Text)
    → (read : List Text) × (read ++ (output_lines until_line name i lines).1 ≡ lines)
      × (i + length read ≡ (output_lines until_line name i lines).0)
unfolding output_lines
output_lines-Split until_line name i [] = ([], refl, omega arith)
output_lines-Split until_line name i (line ∷ lines) =
    let (read, whole, count) = output_lines-Split until_line name (i + 1) lines in
    elim (Bool-cases (ltb i until_line)) [
      | inl below ↦
          (line ∷ read, rw below (ap (λ ls. line ∷ ls) whole), rw below (omega (arith, count)))
      | inr above ↦ ([], rw above refl, rw above (omega arith))
    ]

module _ (files : Text → Option Text) where
  output_source-IsRead :
      (until_line : ℕ) (s : SourceFile)
      → IsRead files s
      → IsRead files (output_source until_line s).0
  unfolding output_source
  output_source-IsRead until_line s h =
      let (read, whole, count) = output_lines-Split until_line s.name s.last s.rest in
      record {
        bytes = h.bytes;
        done = h.done ++ read;
        is_file = h.is_file;
        whole = append_assoc h.done read _ ∙ ap (λ ls. h.done ++ ls) whole ∙ h.whole;
        count = omega (arith, length-append h.done read, h.count, count);
      }

  pub output_nth-AllRead :
      (n until_line : ℕ) (ss : List SourceFile)
      → AllRead files ss
      → AllRead files (output_nth n until_line ss).0
  unfolding output_nth
  output_nth-AllRead n until_line [] h = tt
  output_nth-AllRead zero until_line (s ∷ ss) h = (output_source-IsRead until_line s h.0, h.1)
  output_nth-AllRead (suc n) until_line (s ∷ ss) h = (h.0, output_nth-AllRead n until_line ss h.1)

  pub AllRead-append :
      (ss : List SourceFile) (s : SourceFile)
      → AllRead files ss
      → IsRead files s
      → AllRead files (ss ++ s ∷ [])
  AllRead-append [] s h r = (r, tt)
  AllRead-append (t ∷ ss) s h r = (h.0, AllRead-append ss s h.1 r)

pub length-output_nth :
    (n until_line : ℕ) (ss : List SourceFile) → length (output_nth n until_line ss).0 ≡ length ss
unfolding output_nth
length-output_nth n until_line [] = refl
length-output_nth zero until_line (s ∷ ss) = refl
length-output_nth (suc n) until_line (s ∷ ss) = omega (arith, length-output_nth n until_line ss)
