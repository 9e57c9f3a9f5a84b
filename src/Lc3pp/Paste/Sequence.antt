-- ===== src/Lc3pp/Paste/Sequence.antt =====
-- OutputSource of lcc-1.3/lc3pp/SourcePaste.c, called more than once on a file.
use mathlib.Core.List.{append_assoc}
use lc3_script_tools.Base.{
  ℕ, ◌+◌, ◌≡◌, refl, ap, arith, true, false, List, [], ◌∷◌, ◌++◌, ltb, if◌then◌else◌, Bool-cases,
  inl, inr,
}
use lc3_script_tools.Sim.Text.{Text}
use lc3_script_tools.Lc3pp.Paste.{SourceFile, pasted, output_lines, output_source}

-- The greater of two numbers of lines.
abbrev pub later : ℕ → ℕ → ℕ
later n m = if ltb n m then m else n

-- The loop to one line and then to another.
abbrev in_two : ℕ → ℕ → Text → ℕ → List Text → ℕ × List Text × Text
in_two n m name i lines =
    let first = output_lines n name i lines in
    let second = output_lines m name first.0 first.1 in (second.0, second.1, first.2 ++ second.2)

output_lines-in_two :
    (n m : ℕ) (name : Text) (i : ℕ) (lines : List Text)
    → in_two n m name i lines ≡ output_lines (later n m) name i lines
unfolding output_lines
output_lines-in_two n m name i [] = refl
output_lines-in_two n m name i (line ∷ lines) =
    let ih = output_lines-in_two n m name (i + 1) lines in
    let first = output_lines n name (i + 1) lines in
    let second = output_lines m name first.0 first.1 in
    elim (Bool-cases (ltb i n)) [
      | inl below ↦
          let below_later : ltb i (later n m) ≡ true = ground arith in
          rw (below, below_later)
            (rw (append_assoc (pasted name (i + 1) line) first.2 second.2)
              (ap (λ t. (t.0, t.1, pasted name (i + 1) line ++ t.2)) ih))
      | inr above ↦ elim (Bool-cases (ltb i m)) [
        | inl below ↦
            let e : m ≡ later n m = ground arith in
            let below_later : ltb i (later n m) ≡ true = ground arith in
            rw (above, below, below_later)
              (ap
                (λ k.
                  let rest = output_lines k name (i + 1) lines in
                  (rest.0, rest.1, pasted name (i + 1) line ++ rest.2))
                e)
        | inr above_m ↦
            let e : ltb i (later n m) ≡ false = ground arith in rw (above, above_m, e) refl
      ]
    ]

-- OutputSource to a line and then to another puts out what one call to the later of them does, and
-- leaves the file at the same place.
pub output_source-output_source :
    (n m : ℕ) (s : SourceFile)
    → (
      (output_source m (output_source n s).0).0,
      (output_source n s).1 ++ (output_source m (output_source n s).0).1,
    )
      ≡ output_source (later n m) s
unfolding output_source
output_source-output_source n m s =
    ap (λ t. (record s { rest = t.1; last = t.0 }, t.2))
      (output_lines-in_two n m s.name s.last s.rest)
