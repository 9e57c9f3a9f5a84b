-- ===== src/Tests/Linker.antt =====
-- The linker of lcc-1.3/lc3pp/lc3pp.c on small sources, and its theorems at them.
use mathlib.Core.Bool.{false≢true}
use lc3_script_tools.Base.{
  ◌-◌, ◌%◌, ◌^◌, ℕ, ◌+◌, ◌≤◌, ◌<◌, ◌≡◌, ◌≢◌, refl, arith, true, false, Option, none, some, List, [],
  ◌∷◌, if◌then◌else◌, update, ltb, bit_and, inl, inr,
}
use lc3_script_tools.Base.Int.{negsuc, of_signed, to_signed}
use lc3_script_tools.Sim.Text.{Text, text, same_text, skip_spaces, cut, digits}
use lc3_script_tools.Vm.Types.{lc3_16bit, addr_mcr, reg_pc, reg_psr}
use lc3_script_tools.Vm.Triple.{IsCell, IsFlag}
use lc3_script_tools.Vm.State.{Console, Vm}
use lc3_script_tools.Lc3pp.Lines.{Res, ok, stop, forever, file_lines, starts_with}
use lc3_script_tools.Lc3pp.Address.{ldr, printed, calculate_address}
use lc3_script_tools.Lc3pp.Address.Machine.{Reaches}
use lc3_script_tools.Lc3pp.Address.Encoded.{encoded, Placed}
use lc3_script_tools.Lc3pp.Address.Cases.{Ends}
use lc3_script_tools.Lc3pp.Address.Correct.{calculate_address_runs}
use lc3_script_tools.Lc3pp.Ldr.{check_ldr}
use lc3_script_tools.Lc3pp.Ldr.RoundTrip.{check_ldr-printed}
use lc3_script_tools.Lc3pp.Split.{Variable, glob_offset}
use lc3_script_tools.Lc3pp.Split.Layout.{glob_offset-disjoint}
use lc3_script_tools.Lc3pp.Link.{LinkVariable, LinkList, scan_file}
use lc3_script_tools.Lc3pp.Link.Scan.{HasNames, scan_file_lem}
use lc3_script_tools.Lc3pp.Resolve.{resolve_externs}
use lc3_script_tools.Lc3pp.Resolve.Library.{resolve_externs-library}
use lc3_script_tools.Lc3pp.Emit.{global_code}
use lc3_script_tools.Lc3pp.Emit.Run.{global_code_runs}
use lc3_script_tools.Lc3pp.Main.{Inputs, main}

abbrev no_input : Console
no_input = record { select_result = λ _. false; next_char = λ _. none }

-- The code for the value 100 cells below R4 in R0, from x3000 on.
abbrev started : Vm
started = record {
  mem =
      update
        (update
          (update (update (update (update (λ _. 7) addr_mcr 0x8000) 0x3000 0x0e01) 0x3001 0xff9c)
            0x3002 0x21fe)
          0x3003 0x1100)
        0x3004 0x6000;
  reg = update (update (update (λ _. 0) 4 0x4000) reg_pc 0x3000) reg_psr 2;
  polls = 0;
  reads = 0;
  output = [];
}

is_on : ltb 0 (bit_and (started.mem addr_mcr) 0x8000) ≡ true
is_on = refl

apart : ◌≢◌ {A = ℕ} 4 0
apart e = omega arith

abbrev code_cell : (k : ℕ) → k < 5 → IsCell lc3_16bit (0x3000 + k)
code_cell k h = record {
  in_memory = omega arith;
  not_kbsr = λ e. omega arith;
  not_kbdr = λ e. omega arith;
  not_dsr = λ e. omega arith;
  not_ddr = λ e. omega arith;
}

loaded_cell : IsCell lc3_16bit 0x3f9c
loaded_cell = record {
  in_memory = omega arith;
  not_kbsr = λ e. omega arith;
  not_kbdr = λ e. omega arith;
  not_dsr = λ e. omega arith;
  not_ddr = λ e. omega arith;
}

code-Placed : Placed lc3_16bit started.mem (calculate_address 0 4 (negsuc 99) true) 0x3000
unfolding encoded calculate_address lc3_script_tools.Instr.Maker.make_ri
    lc3_script_tools.Instr.Maker.make_rrr lc3_script_tools.Instr.Maker.make_rri
code-Placed = (
  refl,
  code_cell 0 (omega arith),
  (
    refl,
    code_cell 1 (omega arith),
    (
      refl,
      code_cell 2 (omega arith),
      (refl, code_cell 3 (omega arith), (refl, code_cell 4 (omega arith), tt)),
    ),
  ),
)

flag_two : IsFlag 2
flag_two = inr (inl refl)

calculate_address_runs_example : Reaches lc3_16bit no_input started is_on 0 started.reg (
    Ends lc3_16bit no_input started is_on 0
      (omega arith)
      4
      (omega arith)
      apart
      flag_two
      (omega arith)
      (negsuc 99)
      (calculate_address 0 4 (negsuc 99) true)
      7)
calculate_address_runs_example =
    calculate_address_runs lc3_16bit no_input started is_on 0 (omega arith) 4 (omega arith) apart
      flag_two (omega arith) (negsuc 99) true (λ _. loaded_cell) code-Placed

-- Two lines of a file, and the end of it.
abbrev some_lines : List Text
unfolding text
some_lines = text ".global main\n" ∷ text ".extern f\n" ∷ text ".END\n" ∷ []

some_names : HasNames some_lines
unfolding some_lines starts_with
some_names = (λ _. omega arith, (λ _. omega arith, (λ h. absurd (false≢true h), tt)))

scan_file_lem_example :
    scan_file 3 some_lines (record { g = []; e = [] })
    ≡ ok (record {
      g = record { name = text "main\n"; argn = 3 } ∷ [];
      e = record { name = text "f\n"; argn = 3 } ∷ [];
    })
unfolding some_lines starts_with lc3_script_tools.Lc3pp.Link.Scan.has_end
    lc3_script_tools.Lc3pp.Link.Scan.named lc3_script_tools.Lc3pp.Link.Scan.before_end
scan_file_lem_example = scan_file_lem 3 some_lines (record { g = []; e = [] }) some_names

check_ldr-printed_example :
    check_ldr (printed (ldr 3 3 (negsuc 99) 4 (negsuc 99))) 3 ≡ some (of_signed 32 (negsuc 99))
check_ldr-printed_example =
    check_ldr-printed 3 (negsuc 99) 4 (negsuc 99) (omega arith) (omega arith)

abbrev one : Variable
one = record { name = 97 ∷ []; size = 3 }

abbrev two : Variable
two = record { name = 98 ∷ []; size = 4 }

glob_offset-disjoint_example :
    glob_offset (one ∷ two ∷ []) (97 ∷ []) + 3 ≤ glob_offset (one ∷ two ∷ []) (98 ∷ [])
unfolding same_text lc3_script_tools.Lc3pp.Split.Layout.total
glob_offset-disjoint_example = glob_offset-disjoint [] one [] two [] tt (refl, tt) (omega arith)

source : Text
unfolding text
source =
    text
      ".global main\nmain\n.extern f\n.LC3GLOBAL L2_x 0\nLDR R0, R0, #0\nRET\nLC3_GFLAG L1 LC3_GFLAG .FILL 3\nLC3_GFLAG .FILL 4\nLC3_GFLAG L2_x LC3_GFLAG .BLKW 4\n.END\n"

other : Text
unfolding text
other = text ".global f\nf\nADD R0, R0, R0\nRET\n.END\n"

library : Text → Option Text
unfolding text same_text
library name = if same_text name (text "__init.asm") then some (text "INIT") else none

inputs : Inputs
inputs = record { sources = some source ∷ some other ∷ []; library = library; writable = true }

-- The function of the second file comes in front of the code, and the global variable is loaded from
-- the third word of the data.
main_links :
    main 100 inputs
    ≡ ok (
        text
          "INIT\nmain\nf\nADD R0, R0, R0\nRET\n;     <ld R0, L2_x\t;GLOBALS[2]>\nLDR R0, R4, #2   \t; R4[2]\n;     </ld>\nRET\n\nGLOBAL_DATA_START\nL1 .FILL 3\n.FILL 4\nL2_x .BLKW 4\n.END\n")
unfolding main inputs library source starts_with lc3_script_tools.Lc3pp.Lines.from other
    lc3_script_tools.Lc3pp.Link.has_name skip_spaces cut lc3_script_tools.Sim.Text.dec
    lc3_script_tools.Sim.Text.pad_right
main_links = refl

-- The second variable, 103 words before its place.
global-Placed :
    Placed lc3_16bit started.mem
      (global_code 0 (2 ^ 32 - 103) (glob_offset (one ∷ two ∷ []) (98 ∷ [])) true)
      0x3000
unfolding global_code glob_offset same_text
global-Placed = code-Placed

global_code_runs_example : Reaches lc3_16bit no_input started is_on 0 started.reg (
    Ends lc3_16bit no_input started is_on 0
      (omega arith)
      4
      (omega arith)
      apart
      flag_two
      (omega arith)
      (to_signed 32 ((2 ^ 32 - 103 + 3) % 2 ^ 32))
      (global_code 0 (2 ^ 32 - 103) 3 true)
      7)
unfolding same_text glob_offset lc3_script_tools.Lc3pp.Split.Layout.total
global_code_runs_example =
    global_code_runs lc3_16bit no_input started is_on 0 (omega arith) apart flag_two (omega arith)
      (one ∷ []) two [] (2 ^ 32 - 103) true (refl, tt) (λ _. loaded_cell) global-Placed

-- A main that asks for the file f.asm of the library.
abbrev main_file : List Text
unfolding text
main_file = text "main" ∷ text ".extern f" ∷ text "RET" ∷ text ".END" ∷ []

abbrev only_f : Text → Option Text
only_f name = if same_text name (102 ∷ text ".asm") then some (70 ∷ 10 ∷ []) else none

abbrev links : LinkList
links = record {
  g = record { name = text "main"; argn = 0 } ∷ [];
  e = record { name = 102 ∷ []; argn = 0 } ∷ [];
}

resolve_externs-library_example :
    resolve_externs only_f 2 (main_file ∷ []) links ≡ ok (text "main\nF\nRET\n.END\n", [])
unfolding text same_text starts_with lc3_script_tools.Lc3pp.Link.find_name
    lc3_script_tools.Lc3pp.Resolve.Library.kept lc3_script_tools.Lc3pp.Resolve.Library.library_text
resolve_externs-library_example =
    resolve_externs-library only_f 2 (main_file ∷ []) links
      (record { name = text "main"; argn = 0 }) (text "main" ∷ []) (text ".extern f")
      (text "RET" ∷ []) (text ".END") [] refl refl (refl, tt) (refl, tt) refl (refl, tt) refl
      ((λ own. (refl, (70 ∷ 10 ∷ [], refl))), tt) (omega arith)
