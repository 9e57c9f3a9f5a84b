-- ===== src/Sim/Break.antt =====
-- The command `break` of lc3tools/lc3sim.c.
pub mod Effect
use lc3_script_tools.Base.{ℕ, Option, none, some, List, [], ◌∷◌, ◌++◌, ltb, if◌then◌else◌, length}
use lc3_script_tools.Symbol.Names.{same_name}
use lc3_script_tools.Sim.Text.{Text, text, same_prefix}
use lc3_script_tools.Sim.State.{World, M, ◌>>=◌, ◌>>◌, gets, when, print, puts, plainly}
use lc3_script_tools.Sim.Breakpoints.{
  set_breakpoint, clear_breakpoint, clear_all_breakpoints, list_breakpoints,
}
use lc3_script_tools.Sim.Scan.{scan_words}
use lc3_script_tools.Sim.Address.{bad_address, warn_if_more, parse_address, warn_too_many_args}

unfoldable break_help : M (Unit {0})
break_help = print (
    text "breakpoint options include:\n"
    ++ text "  break clear <addr>|all -- clear one or all breakpoints\n"
    ++ text "  break list             -- list all breakpoints\n"
    ++ text "  break set <addr>       -- set a breakpoint\n")

-- An address that parsed, or the complaint.
abbrev with_address : Option ℕ → (ℕ → M (Unit {0})) → M (Unit {0})
with_address none f = puts bad_address
with_address (some addr) f = f addr

-- `break clear` and `break set`, with the number of arguments after the address.
unfoldable pub break_at : Text → Text → ℕ → M (Unit {0})
unfolding break_help
break_at opt addr_str more = do
  when (ltb 0 more) warn_too_many_args
  addr ← gets (λ s. parse_address addr_str s.symbols)
  if same_prefix (length opt) opt (text "clear")
      then if same_name addr_str (text "all")
        then (do clear_all_breakpoints; plainly (print (text "Cleared all breakpoints.\n")))
        else with_address addr clear_breakpoint
      else if same_prefix (length opt) opt (text "set")
      then with_address addr set_breakpoint
      else break_help

module _ (world : World) where
  unfoldable break_words : List Text → M (Unit {0})
  unfolding break_at break_help warn_if_more
  break_words [] = break_help
  break_words (opt ∷ args) =
      if same_prefix (length opt) opt (text "list")
      then warn_if_more args >> list_breakpoints world
      else elim args [ [] ↦ break_help | addr_str ∷ trash ↦ break_at opt addr_str (length trash) ]

  unfoldable pub cmd_break : Text → M (Unit {0})
  unfolding break_words
  cmd_break args = break_words (scan_words (10 ∷ 80 ∷ 1 ∷ []) args)
