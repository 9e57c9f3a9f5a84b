-- ===== src/Lc3pp/Paste/Listing.antt =====
-- What OutputSource of lcc-1.3/lc3pp/SourcePaste.c puts out of a file, described line by line.
use lc3_script_tools.Base.{
  ℕ, zero, suc, ◌+◌, ◌-◌, ◌≡◌, refl, ◌∙◌, ap, arith, Bool, true, ◌&&◌, List, [], ◌∷◌, ◌++◌, ltb,
  if◌then◌else◌, length, Bool-cases, inl, inr,
}
use lc3_script_tools.Sim.Text.{Text, text, dec, repeat, pad_right, is_space, skip_spaces}
use lc3_script_tools.Lc3pp.Paste.{SourceFile, is_blank, pasted, output_lines, output_source}
use lc3_script_tools.Lc3pp.Paste.Sequence.{later, output_source-output_source}

-- The first `k` lines, and those after them.
abbrev pub take_lines : ℕ → List Text → List Text
take_lines zero lines = []
take_lines (suc k) [] = []
take_lines (suc k) (line ∷ lines) = line ∷ take_lines k lines

abbrev pub drop_lines : ℕ → List Text → List Text
drop_lines zero lines = lines
drop_lines (suc k) [] = []
drop_lines (suc k) (line ∷ lines) = drop_lines k lines

-- The lines with their numbers, from `i` on.
abbrev pub numbered : ℕ → List Text → List (ℕ × Text)
numbered i [] = []
numbered i (line ∷ lines) = (i, line) ∷ numbered (i + 1) lines

abbrev pub all_spaces : Text → Bool
all_spaces [] = true
all_spaces (c ∷ t) = is_space c && all_spaces t

-- The name of the file, the number in a column of three, and the line.
abbrev pub with_place : Text → ℕ × Text → Text
with_place name (i, line) =
    text ";|" ++ name ++ text ":" ++ (dec i ++ repeat (3 - length (dec i)) 32) ++ text "| " ++ line

-- The lines that are not blank, each once and in their order.
unfoldable pub listing : Text → List (ℕ × Text) → Text
listing name [] = []
listing name ((i, line) ∷ lines) =
    let rest = listing name lines in
    if all_spaces line then rest else with_place name (i, line) ++ rest

blank_lem : (line : Text) → is_blank line ≡ all_spaces line
unfolding is_blank skip_spaces
blank_lem [] = refl
blank_lem (c ∷ t) = elim (Bool-cases (is_space c)) [
  | inl space ↦ rw (space, is_blank) (blank_lem t)
  | inr other ↦ rw (other, is_blank) refl
]

pasted_lem :
    (name : Text) (i : ℕ) (line : Text) (lines : List (ℕ × Text))
    → pasted name i line ++ listing name lines ≡ listing name ((i, line) ∷ lines)
unfolding pasted listing pad_right
pasted_lem name i line lines = elim (Bool-cases (all_spaces line)) [
  | inl blank ↦ rw (blank_lem line, blank) refl
  | inr text_there ↦ rw (blank_lem line, text_there) refl
]

take_nil : (k : ℕ) → take_lines k [] ≡ []
take_nil zero = refl
take_nil (suc k) = refl

drop_nil : (k : ℕ) → drop_lines k [] ≡ []
drop_nil zero = refl
drop_nil (suc k) = refl

-- The lines that are read on the way from line `i` to line `n`.
output_lines_lem :
    (n : ℕ) (name : Text) (i : ℕ) (lines : List Text)
    → output_lines n name i lines ≡ (
      i + length (take_lines (n - i) lines),
      drop_lines (n - i) lines,
      listing name (numbered (i + 1) (take_lines (n - i) lines)),
    )
unfolding output_lines listing
output_lines_lem n name i [] =
    rw (take_nil (n - i), drop_nil (n - i))
      (ap {B = ℕ × List Text × Text} (λ k. (k, [], [])) {x = i} {y = i + 0} (omega arith))
output_lines_lem n name i (line ∷ lines) =
    let k = n - (i + 1) in
    let read = take_lines k lines in
    elim (Bool-cases (ltb i n)) [
      | inl below ↦
          let e : n - i ≡ suc k = ground arith in
          let count : i + 1 + length read ≡ i + suc (length read) = omega arith in
          rw (below, e, output_lines_lem n name (i + 1) lines, count)
            (ap (λ t. (i + suc (length read), drop_lines k lines, t))
              (pasted_lem name (i + 1) line (numbered (i + 1 + 1) read)))
      | inr above ↦
          let e : n - i ≡ 0 = ground arith in
          rw (above, e)
            (ap {B = ℕ × List Text × Text} (λ k. (k, line ∷ lines, [])) {x = i} {y = i + 0}
              (omega arith))
    ]

-- OutputSource to line `n` and then to line `m`: the file, and both texts.
abbrev pub output_twice : ℕ → ℕ → SourceFile → SourceFile × Text
output_twice n m s =
    let first = output_source n s in
    let second = output_source m first.0 in (second.0, first.1 ++ second.1)

-- The file `k` lines further on, and the listing of those.
abbrev pub listed : ℕ → SourceFile → SourceFile × Text
listed k s =
    let read = take_lines k s.rest in
    (
      record s { rest = drop_lines k s.rest; last = s.last + length read },
      listing s.name (numbered (s.last + 1) read),
    )

-- OutputSource to a line and then to another, of any two: together they put out the lines up to the
-- later of them that were not read before, as many as the file has, each once, in their order and with
-- its number and the name of the file, but for those of spaces alone, and leave the file after them.
pub output_source_lem :
    (n m : ℕ) (s : SourceFile) → output_twice n m s ≡ listed (later n m - s.last) s
unfolding output_source
output_source_lem n m s =
    output_source-output_source n m s
    ∙ ap (λ t. (record s { rest = t.1; last = t.0 }, t.2))
        (output_lines_lem (later n m) s.name s.last s.rest)
