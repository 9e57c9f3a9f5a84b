-- ===== src/Sim/Settings.antt =====
-- The commands `option` and `register` of lc3tools/lc3sim.c.
use lc3_script_tools.Base.{
  ℕ, ◌+◌, ◌-◌, ◌*◌, ◌^◌, bit_and, bit_or, Bool, true, false, not, ◌&&◌, Option, none, some, List,
  [], ◌∷◌, ◌++◌, ltb, ◌==◌, if◌then◌else◌, length,
}
use lc3_script_tools.Symbol.Names.{same_name}
use lc3_script_tools.Sim.Text.{Text, text, hex, same_prefix}
use lc3_script_tools.Sim.Inst.{r_psr, num_regs}
use lc3_script_tools.Sim.State.{
  World, stdin, socket, Options, M, ◌>>=◌, ◌>>◌, gets, modify, when, get_reg, set_reg, print, puts,
  by_mode, plainly,
}
use lc3_script_tools.Sim.Store.{dump_delayed_mem_updates}
use lc3_script_tools.Sim.Show.{print_register}
use lc3_script_tools.Sim.Scan.{scan_words}
use lc3_script_tools.Sim.Address.{parse_address, warn_too_many_args}

unfoldable option_help : M (Unit {0})
option_help = print (
    text "syntax: option <option> on|off\n   options include:\n"
    ++ text "      device -- simulate random device (keyboard/display)timing\n"
    ++ text "      flush  -- flush console input each time LC-3 starts\n"
    ++ text "      keep   -- keep remaining input when the LC-3 stops\n"
    ++ text "      stdin  -- use stdin for LC-3 console input during script execution\n"
    ++ text "NOTE: all options are ON by default\n")

abbrev set_options : (Options → Options) → M (Unit {0})
set_options f = modify (λ s. record s { options = f s.options })

-- `oval ? "" : "not "` between two texts.
abbrev will : Bool → Text → M (Unit {0})
will oval rest =
    plainly (print (text "Will " ++ (if oval then [] else text "not ") ++ rest ++ text "\n"))

-- `on` and `off`.
unfoldable on_or_off : Text → Option Bool
on_or_off onoff =
    if same_name onoff (text "on")
    then some true
    else if same_name onoff (text "off")
    then some false
    else none

-- Where the LC-3 reads from while a script is executed.
unfoldable choose_input : Bool → M (Unit {0})
choose_input oval s =
    modify
      (λ s. record s {
        lc3in = if not oval then s.sim_in else if not s.gui_mode then stdin else socket;
      })
      s

module _ (world : World) where
  unfoldable set_delay : Bool → M (Unit {0})
  set_delay oval = do
    pending ← gets (λ s. s.options.delay_mem_update && not oval)
    when pending (dump_delayed_mem_updates world)
    set_options (λ o. record o { delay_mem_update = oval })

  unfoldable set_script_input : Bool → M (Unit {0})
  unfolding choose_input
  set_script_input oval = do
    set_options (λ o. record o { script_uses_stdin = oval })
    will oval (text "use stdin for LC-3 console input during script execution.")
    in_script ← gets (λ s. ltb 0 s.script_depth)
    when in_script (choose_input oval)

  unfoldable set_option : Text → Bool → M (Unit {0})
  unfolding set_delay set_script_input option_help
  set_option opt oval = do
    gui ← gets (λ s. s.gui_mode)
    if same_prefix (length opt) opt (text "flush")
        then (do
          set_options (λ o. record o { flush_on_start = oval })
          will oval (text "flush the console input when starting."))
        else if same_prefix (length opt) opt (text "keep")
        then (do
          set_options (λ o. record o { keep_input_on_stop = oval })
          will oval (text "keep remaining input when the LC-3 stops."))
        else if same_prefix (length opt) opt (text "device")
        then (do
          set_options (λ o. record o { rand_device = oval })
          will oval (text "randomize device interactions."))
        else if gui && same_prefix (length opt) opt (text "delay")
        then set_delay oval
        else if same_prefix (length opt) opt (text "stdin")
        then set_script_input oval
        else option_help

  unfoldable option_words : List Text → M (Unit {0})
  unfolding set_option option_help on_or_off
  option_words [] = option_help
  option_words (opt ∷ []) = option_help
  option_words (opt ∷ onoff ∷ trash) = elim (on_or_off onoff) [
    | none ↦ option_help
    | some oval ↦ do when (ltb 0 (length trash)) warn_too_many_args; set_option opt oval
  ]

  unfoldable pub cmd_option : Text → M (Unit {0})
  unfolding option_words
  cmd_option args = option_words (scan_words (10 ∷ 5 ∷ 1 ∷ []) args)

-- rname and cc_val.
unfoldable rname : List Text
rname =
    text "R0"
    ∷ text "R1"
    ∷ text "R2"
    ∷ text "R3"
    ∷ text "R4"
    ∷ text "R5"
    ∷ text "R6"
    ∷ text "R7"
    ∷ text "PC"
    ∷ text "IR"
    ∷ text "PSR"
    ∷ text "CC"
    ∷ []

unfoldable cc_val : List Text
cc_val = text "POSITIVE" ∷ text "ZERO" ∷ [] ∷ text "NEGATIVE" ∷ []

-- The first of the names that passes a test, with its index from `i`.
unfoldable pub find_name : (Text → Bool) → ℕ → List Text → Option (ℕ × Text)
find_name test i [] = none
find_name test i (name ∷ names) =
    let rest = find_name test (i + 1) names in if test name then some (i, name) else rest

-- `REG (R_PSR) &= ~0x0E00; REG (R_PSR) |= ((value + 1) << 9)`.
unfoldable set_condition : ℕ → M (Unit {0})
set_condition value = do
  psr ← get_reg r_psr
  set_reg r_psr (bit_or (bit_and psr (2 ^ 32 - 1 - 0x0e00)) ((value + 1) * 2 ^ 9))

unfoldable register_cc : Text → M (Unit {0})
unfolding set_condition find_name cc_val
register_cc arg2 = elim (find_name (same_prefix (length arg2) arg2) 0 cc_val) [
  | some v ↦ do
    set_condition v.0
    by_mode (print_register r_psr) (print (text "Set CC to " ++ v.1 ++ text ".\n"))
  | none ↦
      by_mode (print (text "ERR {CC can only be set to NEGATIVE, ZERO, orPOSITIVE.}\n"))
        (print (text "CC can only be set to NEGATIVE, ZERO, or POSITIVE.\n"))
]

unfoldable register_value : ℕ → Text → Text → M (Unit {0})
register_value rnum name arg2 = do
  value ← gets (λ s. parse_address arg2 s.symbols)
  elim value [
    | some v ↦ do
      set_reg rnum v
      by_mode (print_register rnum)
          (print (text "Set " ++ name ++ text " to x" ++ hex 4 v ++ text ".\n"))
    | none ↦
        by_mode
          (print (text "ERR {No address or label corresponding to the desired value exists.}\n"))
          (puts (text "No address or label corresponding to the desired value exists."))
  ]

unfoldable register_words : List Text → M (Unit {0})
unfolding register_cc register_value find_name rname
register_words [] = print (text "syntax: register <reg> <value>\n")
register_words (arg1 ∷ []) = print (text "syntax: register <reg> <value>\n")
register_words (arg1 ∷ arg2 ∷ trash) = elim (find_name (λ name. same_name name arg1) 0 rname) [
  | none ↦ puts (text "Registers are R0...R7, PC, IR, PSR, and CC.")
  | some r ↦ if r.0 == num_regs then register_cc arg2 else register_value r.0 r.1 arg2
]

unfoldable pub cmd_register : Text → M (Unit {0})
unfolding register_words
cmd_register args = register_words (scan_words (80 ∷ 80 ∷ 1 ∷ []) args)
