-- ===== src/Lc3pp/Main.antt =====
-- main of lcc-1.3/lc3pp/lc3pp.c: scan, resolve, split and put out.
use lc3_script_tools.Base.{ℕ, Bool, Option, none, some, List, [], ◌∷◌, ◌++◌, if◌then◌else◌}
use lc3_script_tools.Sim.Text.{Text, text}
use lc3_script_tools.Lc3pp.Lines.{Res, ok, stop, undefined, exited, ◌>>=◌, file_lines}
use lc3_script_tools.Lc3pp.Link.{scan_files}
use lc3_script_tools.Lc3pp.Resolve.{resolve_externs}
use lc3_script_tools.Lc3pp.Split.{no_parts, split, in_order}
use lc3_script_tools.Lc3pp.Emit.{output_text}

-- What fopen finds: the sources of the command line, the files of the directory of the library, and
-- whether the output can be written.
pub record Inputs : Type 0 where
  pub sources : List (Option Text)
  pub library : Text → Option Text
  pub writable : Bool

-- The sources, each of which has to be there.
unfoldable open_sources : List (Option Text) → Res (List (List Text))
unfolding file_lines
open_sources [] = ok []
open_sources (none ∷ fs) = stop (exited 255)
open_sources (some t ∷ fs) = open_sources fs >>= λ ls. ok (file_lines t ∷ ls)

-- `stdio.asm` is one more source, if it is there.
abbrev with_stdio : Option Text → List (List Text) → List (List Text)
with_stdio none files = files
with_stdio (some t) files = files ++ file_lines t ∷ []

-- No source at all is an error, after the output file was opened.
abbrev some_file : List (List Text) → Res (List (List Text))
some_file [] = stop (exited 255)
some_file (f ∷ fs) = ok (f ∷ fs)

-- The names of the two files.
abbrev init_asm : Text
init_asm = text "__init.asm"

abbrev stdio_asm : Text
stdio_asm = text "stdio.asm"

abbrev open_header : Option Text → Res (List Text)
open_header none = stop (exited 1)
open_header (some t) = ok (file_lines t)

unfoldable link_text : (Text → Option Text) → ℕ → List Text → List (List Text) → Res Text
unfolding scan_files resolve_externs file_lines split in_order output_text
link_text library fuel header files = scan_files 0 files (record { g = []; e = [] }) >>= λ link.
    some_file files >>= λ fs. resolve_externs library fuel fs link >>= λ full.
    split (file_lines full.0) no_parts >>= λ p. output_text header (in_order p.g_vars) p.code p.vars

-- The text of the output file, with fuel for the imports.
unfoldable pub main : ℕ → Inputs → Res Text
unfolding open_sources link_text file_lines
main fuel inputs = open_sources inputs.sources >>= λ files.
    open_header (inputs.library init_asm) >>= λ header.
    link_text inputs.library fuel header (with_stdio (inputs.library stdio_asm) files) >>= λ t.
    if inputs.writable then ok t else stop undefined
