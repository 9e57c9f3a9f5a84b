-- ===== src/Tests/Paster.antt =====
-- lcc-1.3/lc3pp/SourcePaste.c on a small source, and its theorems at it.
use lc3_script_tools.Base.{◌≡◌, refl, arith, true, Option, none, some, List, [], ◌∷◌, if◌then◌else◌}
use lc3_script_tools.Sim.Text.{Text, text, same_text, is_space, repeat, skip_spaces, pad_right, dec}
use lc3_script_tools.Lc3pp.Lines.{ok, stop, exited, starts_with, from}
use lc3_script_tools.Lc3pp.Paste.{SourceFile, Pasting, output_source, paste_lines}
use lc3_script_tools.Lc3pp.Paste.Listing.{output_twice, output_source_lem}
use lc3_script_tools.Lc3pp.Paste.Files.{Goes}
use lc3_script_tools.Lc3pp.Paste.Invariant.{paste_lines-Goes}
use lc3_script_tools.Lc3pp.Paste.Main.{main}

files : Text → Option Text
unfolding text same_text
files name =
    if same_text name (text "a.c")
    then some (text "int a;\n\nint b;\n")
    else if same_text name (text "a.asm")
    then some
        (text ".debug file 1:a.c\n.debug line 1:1\nADD\n.debug line 1:3\n.debug line 2:1\nRET\n")
    else none

main_pastes :
    main files (λ name. true) (text "-g1" ∷ text "a.asm" ∷ text "b.asm" ∷ [])
    ≡ ok (
        text
          ";|a.c:1  | int a;\nADD\n;|a.c:3  | int b;\n; ERROR: Unexpected file id (2) should be less in [1,1]:\n.debug line 2:1\nRET\n")
unfolding main text files starts_with from skip_spaces lc3_script_tools.Lc3pp.Paste.add_source
    lc3_script_tools.Lc3pp.Paste.paste_to pad_right dec
main_pastes = refl

main_usage : main files (λ name. true) (text "-g1" ∷ text "a.asm" ∷ []) ≡ stop (exited 1)
unfolding main text
main_usage = refl

abbrev a_file : SourceFile
a_file = record {
  name = 97 ∷ [];
  rest = (49 ∷ 10 ∷ []) ∷ (50 ∷ 10 ∷ []) ∷ (51 ∷ 10 ∷ []) ∷ [];
  last = 0;
}

output_source_lem_example : output_twice 2 1 a_file ≡ (
  record { name = 97 ∷ []; rest = (51 ∷ 10 ∷ []) ∷ []; last = 2 },
  text ";|a:1  | 1\n;|a:2  | 2\n",
)
unfolding text dec is_space repeat lc3_script_tools.Lc3pp.Paste.Listing.listing
output_source_lem_example = output_source_lem 2 1 a_file

abbrev nothing : Pasting
nothing = record { sources = []; out = [] }

-- Two directives and a line of code.
abbrev some_assembly : List Text
unfolding text
some_assembly = text ".debug file 1:a.c\n" ∷ text ".debug line 1:1\n" ∷ text "ADD\n" ∷ []

paste_lines-Goes_example : Goes files 10 nothing (paste_lines files true some_assembly nothing)
unfolding some_assembly starts_with lc3_script_tools.Lc3pp.Paste.Invariant.count_files
paste_lines-Goes_example = paste_lines-Goes files true some_assembly nothing tt (omega arith)
