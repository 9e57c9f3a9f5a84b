-- ===== src/Sim/State.antt =====
-- The state of lc3tools/lc3sim.c, and its functions as state passing with exits and errors.
use lc3_script_tools.Base.{
  ℕ, ◌+◌, Bool, true, false, Option, List, [], ◌∷◌, ◌++◌, ltb, if◌then◌else◌, update,
}
use lc3_script_tools.Symbol.Table.{Table}
use lc3_script_tools.Sim.Text.{Text}

-- What a FILE* stands for: the standard input, the socket of the GUI, the file of `-fileio`, or the
-- script at a depth.
pub data Stream : Type 0 where
  stdin socket in_file : Stream
  script : ℕ → Stream

-- `fgets`: a line with its newline, the end of the input, or an interrupted call.
pub data Line : Type 0 where
  line : Text → Line
  end_of_file interrupted : Line

-- What the world answers to the call at a time: the state counts the calls.
pub record World : Type 0 where
  -- `poll` with POLLIN, and `fgetc`, `none` being EOF.
  pub ready : Stream → ℕ → Bool
  pub next_char : Stream → ℕ → Option ℕ
  pub next_line : Stream → ℕ → Line
  -- `(random () & 15) == 0`.
  pub random_zero : ℕ → Bool
  -- SIGINT was delivered since the last instruction.
  pub sigint : ℕ → Bool
  -- `fopen` for reading with the bytes that are there, and for writing.
  pub contents : Text → ℕ → Option (List ℕ)
  pub writable : Text → ℕ → Bool
  -- INSTALL_DIR, and the answer of launch_gui_connection.
  pub install_dir : Text
  pub gui_connects : Bool

-- What the command `option` sets.
pub record Options : Type 0 where
  pub flush_on_start : Bool
  pub keep_input_on_stop : Bool
  pub rand_device : Bool
  pub delay_mem_update : Bool
  pub script_uses_stdin : Bool

-- The static variables. `sys_bpt_addr` is `none` at -1; `trace` is what was written to the trace
-- file, `output` to stdout and `console` to lc3out.
pub record Sim : Type 0 where
  pub reg : ℕ → ℕ
  pub mem : ℕ → ℕ
  pub show_later : ℕ → Bool
  pub breakpoints : ℕ → Bool
  pub symbols : Table
  pub start_script : Option Text
  pub start_file : Option Text
  pub trace_file : Option Text
  pub should_halt : Bool
  pub last_kbsr_read : Bool
  pub last_dsr_read : Bool
  pub gui_mode : Bool
  pub interrupted_at_gui_request : Bool
  pub stop_scripts : Bool
  pub in_init : Bool
  pub have_mem_to_dump : Bool
  pub need_a_stop_notice : Bool
  pub sys_bpt_addr : Option ℕ
  pub finish_depth : ℕ
  pub last_flags : ℕ
  pub options : Options
  pub script_depth : ℕ
  pub tracing : Bool
  pub lc3in : Stream
  pub sim_in : Stream
  pub last_dump : ℕ
  pub last_list : ℕ
  pub clock : ℕ
  pub output : Text
  pub console : Text
  pub trace : Text

-- Why a run ends: `exited` is `exit`; `out_of_bounds` an access past the end of an array; `undefined`
-- a division by 0 or a shift by 32 or more; `out_of_fuel` a loop of this model with too little fuel.
pub data Stop : Type 0 where
  exited : ℕ → Stop
  out_of_bounds undefined out_of_fuel : Stop

pub data Res {ℓ} (A : Type ℓ) : Type ℓ where
  ok : A → Res A
  stop : Stop → Res A

abbrev pub M : Type 0 → Type 0
M A = Sim → Res A × Sim

abbrev pub continue : {A B : Type 0} → Res A × Sim → (A → M B) → Res B × Sim
continue (ok a, s) f = f a s
continue (stop r, s) f = (stop r, s)

infixl 5 ◌>>=◌ ◌>>◌
abbrev pub ◌>>=◌ : {A B : Type 0} → M A → (A → M B) → M B
◌>>=◌ m f s = continue (m s) f

abbrev pub ◌>>◌ : {B : Type 0} → M (Unit {0}) → M B → M B
m >> k = m >>= λ _. k

abbrev pub pure : {A : Type 0} → A → M A
pure a s = (ok a, s)

abbrev pub fail : {A : Type 0} → Stop → M A
fail r s = (stop r, s)

abbrev pub gets : {A : Type 0} → (Sim → A) → M A
gets f s = (ok (f s), s)

abbrev pub modify : (Sim → Sim) → M (Unit {0})
modify f s = (ok tt, f s)

abbrev pub when : Bool → M (Unit {0}) → M (Unit {0})
when c m = if c then m else pure tt

-- A call to the world: it takes time.
abbrev pub ask : {A : Type 0} → (ℕ → A) → M A
ask f s = (ok (f s.clock), record s { clock = s.clock + 1 })

abbrev pub get_reg : ℕ → M ℕ
get_reg i s = (ok (s.reg i), s)

abbrev pub set_reg : ℕ → ℕ → M (Unit {0})
set_reg i v s = (ok tt, record s { reg = update s.reg i v })

-- `printf` and `puts`.
abbrev pub print : Text → M (Unit {0})
print t s = (ok tt, record s { output = s.output ++ t })

abbrev pub puts : Text → M (Unit {0})
puts t = print (t ++ 10 ∷ [])

-- In the mode with the GUI, or without it.
abbrev pub by_mode : {A : Type 0} → M A → M A → M A
by_mode gui plain s = (if s.gui_mode then gui else plain) s

-- Only in the mode without the GUI.
abbrev pub plainly : M (Unit {0}) → M (Unit {0})
plainly m = by_mode (pure tt) m

-- An index of lc3_memory, lc3_breakpoints, lc3_show_later or lc3_sym_names.
abbrev pub check_index : ℕ → M (Unit {0})
check_index addr = if ltb addr 65536 then pure tt else fail out_of_bounds

-- Where disassembly and the trace go.
pub data Out : Type 0 where
  stdout traceout : Out

abbrev pub fprint : Out → Text → M (Unit {0})
fprint stdout t s = (ok tt, record s { output = s.output ++ t })
fprint traceout t s = (ok tt, record s { trace = s.trace ++ t })

abbrev pub is_stdout : Out → Bool
is_stdout stdout = true
is_stdout traceout = false
