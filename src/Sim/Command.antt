-- ===== src/Sim/Command.antt =====
-- The table of commands of lc3tools/lc3sim.c, and what its command loop makes of a line.
use lc3_script_tools.Base.{
  ℕ, Bool, true, ◌&&◌, ◌||◌, Option, none, some, List, [], ◌∷◌, ◌++◌, leb, ◌==◌, if◌then◌else◌,
  length,
}
use lc3_script_tools.Sim.Text.{Text, text, skip_spaces, same_prefix}

pub data Command : Type 0 where
  c_break c_continue c_dump c_execute c_file c_tracefile c_finish c_help c_list c_memory : Command
  c_next c_option c_printregs c_quit c_register c_reset c_step c_translate c_lc3_stop : Command

-- `cmd_flag_t`: no two of the flags are on one command.
pub data Flag : Type 0 where
  flag_none repeatable list_type gui_only : Flag

pub record Entry : Type 0 where
  pub name : Text
  pub min_len : ℕ
  pub command : Command
  pub flag : Flag

abbrev entry : Text → ℕ → Command → Flag → Entry
entry n m c f = record { name = n; min_len = m; command = c; flag = f }

unfoldable pub commands : List Entry
commands =
    entry (text "break") 1 c_break flag_none
    ∷ entry (text "continue") 1 c_continue repeatable
    ∷ entry (text "dump") 1 c_dump list_type
    ∷ entry (text "execute") 1 c_execute flag_none
    ∷ entry (text "file") 1 c_file flag_none
    ∷ entry (text "tracefile") 1 c_tracefile flag_none
    ∷ entry (text "finish") 3 c_finish repeatable
    ∷ entry (text "help") 1 c_help flag_none
    ∷ entry (text "list") 1 c_list list_type
    ∷ entry (text "memory") 1 c_memory flag_none
    ∷ entry (text "next") 1 c_next repeatable
    ∷ entry (text "option") 1 c_option flag_none
    ∷ entry (text "printregs") 1 c_printregs flag_none
    ∷ entry (text "quit") 4 c_quit flag_none
    ∷ entry (text "register") 1 c_register flag_none
    ∷ entry (text "reset") 5 c_reset flag_none
    ∷ entry (text "step") 1 c_step repeatable
    ∷ entry (text "translate") 1 c_translate flag_none
    ∷ entry (text "x") 1 c_lc3_stop gui_only
    ∷ []

abbrev pub allowed : Bool → Flag → Bool
allowed gui gui_only = gui
allowed gui _ = true

-- The first command that the word abbreviates.
unfoldable pub find_command : Bool → Text → List Entry → Option Entry
find_command gui cword [] = none
find_command gui cword (e ∷ es) =
    let rest = find_command gui cword es in
    if same_prefix (length cword) cword e.name && leb e.min_len (length cword) && allowed gui e.flag
    then some e
    else rest

-- Carriage returns and linefeeds at the end.
unfoldable pub strip_newline : Text → Text
strip_newline [] = []
strip_newline (c ∷ t) =
    let rest = strip_newline t in
    elim rest [ [] ↦ if (c == 10) || (c == 13) then [] else c ∷ [] | d ∷ more ↦ c ∷ d ∷ more ]

-- The line that the loop goes on with: an empty one repeats the last command.
unfoldable pub chosen : Text → Option Text → Option Text
chosen cmd last_cmd = elim (skip_spaces cmd) [ [] ↦ last_cmd | c ∷ more ↦ some cmd ]

-- What an empty line will repeat after a command of a flag.
unfoldable pub next_last : Flag → Text → Text → ℕ → Option Text
next_last list_type cword cmd depth = some (cword ++ text " more")
next_last repeatable cword cmd depth = if depth == 0 then some cmd else none
next_last flag_none cword cmd depth = none
next_last gui_only cword cmd depth = none
