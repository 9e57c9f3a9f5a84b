-- ===== src/Lc3pp/Paste/Main.antt =====
-- main of lcc-1.3/lc3pp/SourcePaste.c.
use lc3_script_tools.Base.{
  Bool, true, false, ◌&&◌, ◌||◌, Option, none, some, List, [], ◌∷◌, ◌==◌, leb, if◌then◌else◌,
  length,
}
use lc3_script_tools.Sim.Text.{Text}
use lc3_script_tools.Lc3pp.Lines.{Res, ok, stop, exited, ◌>>=◌}
use lc3_script_tools.Lc3pp.Paste.{file_pieces, paste_lines}

-- `argv[1][2] <= '1'`, where a char is signed.
abbrev level_below_two : Text → Bool
level_below_two [] = true
level_below_two (c ∷ t) = leb c 49 || leb 128 c

-- The option, and the arguments after it. Another option is named on stdout and stays an argument.
unfoldable pub options : List Text → Bool × List Text
options ((c ∷ d ∷ level) ∷ b ∷ args) =
    if (c == 45) && (d == 103)
    then (level_below_two level, b ∷ args)
    else (false, (c ∷ d ∷ level) ∷ b ∷ args)
options [] = (false, [])
options (a ∷ []) = (false, a ∷ [])
options ([] ∷ b ∷ args) = (false, [] ∷ b ∷ args)
options ((c ∷ []) ∷ b ∷ args) = (false, (c ∷ []) ∷ b ∷ args)

unfoldable paste_file : (Text → Option Text) → Bool → Text → Bool → Res Text
unfolding paste_lines file_pieces
paste_file files omit name writable = elim (files name) [
  | none ↦ stop (exited 2)
  | some bytes ↦
      if writable
      then (paste_lines files omit (file_pieces bytes) (record { sources = []; out = [] }) >>= λ p.
          ok p.out)
      else stop (exited 2)
]

-- The arguments after the name of the program; the text of the output file.
unfoldable pub main : (Text → Option Text) → (Text → Bool) → List Text → Res Text
unfolding options paste_file
main files writable args =
    let chosen = options args in
    elim chosen.1 [
      | [] ↦ stop (exited 1)
      | asm ∷ more ↦ elim more [
        | [] ↦ stop (exited 1)
        | output ∷ extra ↦
            if length extra == 0
            then paste_file files chosen.0 asm (writable output)
            else stop (exited 1)
      ]
    ]
