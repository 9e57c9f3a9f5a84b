-- ===== src/Tests/Machine.antt =====
-- Runs of the machine of lc3sim-c/vm.c.
use lc3_script_tools.Base.{
  ℕ, ◌≡◌, refl, arith, inl, inr, [], ◌∷◌, Option, none, some, true, false, update,
}
use lc3_script_tools.Base.Int.{to_signed}
use lc3_script_tools.Vm.Types.{lc3_16bit, lc3_32bit, VmResult, success, opcode_nop, opcode_of}
use lc3_script_tools.Vm.State.{ok, Console, Vm}
use lc3_script_tools.Vm.Memory.{vm_create, vm_read, vm_mem_read}
use lc3_script_tools.Vm.Perform.{
  sextend, vm_perform, perform_opcode, perform_add, perform_br, operand, vm_setcc, take_branch,
  stop_at_zero,
}
use lc3_script_tools.Vm.Perform.Sextend.{sextend-to_signed}
use lc3_script_tools.Vm.Run.{vm_run, vm_round, check_status}
use lc3_script_tools.Vm.Load.{load_success, input_too_large, returns, vm_load_data}
use lc3_script_tools.Vm.Load.Image.{image, IsLoaded, load_data_fits, load_data_too_large}
use lc3_script_tools.Vm.Triple.{IsValid}
use lc3_script_tools.Vm.Triple.Perform.{IsPerformed}
use lc3_script_tools.Vm.Triple.Run.{IsEnd, Ends}
use lc3_script_tools.Vm.Invariant.{create-IsValid, Follows, perform_invariant, run_invariant}
use lc3_script_tools.Vm.Rounds.{at_start, round, Rounds-invariant}
use lc3_script_tools.Vm.Program.{
  main, exits, aborts, run_outcome, exit_input_invalid, main_runs, main_refuses,
}
use lc3_script_tools.Isa.Control.{wide_instruction_ignored}

abbrev silent : Console
silent = record { select_result = λ _. false; next_char = λ _. none }

abbrev created : Vm
created = vm_create lc3_16bit

-- ADD R1, R1, #2; ADD R1, R1, #-1; BRp #-2; NOP
abbrev count_down : Vm
count_down = record {
  mem =
      update (update (update (update (λ _. 0) 0xfffe 0x8000) 0x3000 0x1262) 0x3001 0x127f) 0x3002
        0x03fe;
  reg = update (update (λ _. 0) 8 0x3000) 9 2;
  polls = 0;
  reads = 0;
  output = [];
}

final_pc : Option (VmResult × Vm) → Option (VmResult × ℕ)
final_pc none = none
final_pc (some (r, vm)) = some (r, vm.reg 8)

-- The loop ends when R1 is zero, and the word 0 behind it stops the run.
count_down_run : final_pc (vm_run lc3_16bit silent 6 count_down) ≡ some (opcode_nop, 0x3004)
unfolding final_pc vm_run vm_round check_status vm_read vm_mem_read vm_perform opcode_of
    perform_opcode perform_add perform_br operand vm_setcc take_branch stop_at_zero sextend
count_down_run = refl

perform_invariant_example :
    IsValid lc3_16bit (vm_perform lc3_16bit silent 0x1265 created).1
    × Follows lc3_16bit created (vm_perform lc3_16bit silent 0x1265 created).1
    × IsPerformed (vm_perform lc3_16bit silent 0x1265 created).0
perform_invariant_example = perform_invariant lc3_16bit silent 0x1265 (create-IsValid lc3_16bit)

count_down-IsValid : IsValid lc3_16bit count_down
count_down-IsValid = record {
  regs = λ i. ground arith;
  cells = λ a. ground arith;
  psr = inr (inl refl);
}

run_invariant_example :
    Ends
      (λ r vm'. (IsValid lc3_16bit vm' × Follows lc3_16bit count_down vm') × IsEnd lc3_16bit r vm')
      (vm_run lc3_16bit silent 6 count_down)
run_invariant_example = run_invariant lc3_16bit silent 6 count_down-IsValid

sextend-to_signed_example : to_signed 16 (sextend lc3_16bit 0x127f 5) ≡ to_signed 5 0x127f
sextend-to_signed_example =
    sextend-to_signed lc3_16bit 0x127f 5 (omega arith) (omega arith) (omega arith)

load_data_fits_example :
    (vm' : Vm) × (vm_load_data lc3_16bit true (image lc3_16bit (0x3000 ∷ 0x1265 ∷ [])) 4 created
      ≡ returns load_success vm')
    × IsLoaded lc3_16bit 0x3000 (0x1265 ∷ []) created vm'
load_data_fits_example =
    load_data_fits lc3_16bit true 0x3000 (0x1265 ∷ []) created (omega arith, (omega arith, tt))
      (omega arith)

load_data_too_large_example :
    vm_load_data lc3_16bit false (image lc3_16bit (0xfffe ∷ 0x1265 ∷ [])) 4 created
    ≡ returns input_too_large created
load_data_too_large_example =
    load_data_too_large lc3_16bit false 0xfffe (0x1265 ∷ []) created
      (omega arith, (omega arith, tt)) (omega arith) (omega arith)

wide_instruction_ignored_example :
    vm_perform lc3_32bit silent 0x0001_1265 created ≡ (success, created)
wide_instruction_ignored_example = wide_instruction_ignored silent 0x0001_1265 created (omega arith)

first_round :
    vm_round lc3_16bit silent count_down ≡ (ok tt, (vm_round lc3_16bit silent count_down).1)
unfolding vm_round check_status vm_read vm_mem_read vm_perform opcode_of perform_opcode perform_add
    operand vm_setcc sextend
first_round = refl

Rounds-invariant_example :
    IsValid lc3_16bit (vm_round lc3_16bit silent count_down).1
    × Follows lc3_16bit count_down (vm_round lc3_16bit silent count_down).1
Rounds-invariant_example =
    Rounds-invariant lc3_16bit silent (round first_round at_start) count_down-IsValid

-- An operating system of one word at 0x0200, and a program at 0x3000.
main_runs_example :
    (ready : Vm) × (start : Vm) × IsLoaded lc3_16bit 0x0200 (0 ∷ []) (vm_create lc3_16bit) ready
    × IsLoaded lc3_16bit 0x3000 (0x1265 ∷ []) ready start
    × (main lc3_16bit true silent 9 2
          (image lc3_16bit (0x0200 ∷ 0 ∷ []))
          (some (image lc3_16bit (0x3000 ∷ 0x1265 ∷ [])))
        ≡ run_outcome (vm_run lc3_16bit silent 9 start))
main_runs_example =
    main_runs lc3_16bit true silent 9 0x0200 0x3000 (0 ∷ []) (0x1265 ∷ [])
      (omega arith, (omega arith, tt)) (omega arith, (omega arith, tt)) (omega arith) (omega arith)

main_refuses_example :
    (main lc3_16bit true silent 9 2
        (image lc3_16bit (0x0200 ∷ 0 ∷ []))
        (some (image lc3_16bit (0xfffe ∷ 0x1265 ∷ [])))
      ≡ aborts)
    × (main lc3_16bit true silent 9 2 (image lc3_16bit (0x0200 ∷ 0 ∷ [])) none
        ≡ exits exit_input_invalid)
main_refuses_example =
    main_refuses lc3_16bit true silent 9 0x0200 0xfffe (0 ∷ []) (0x1265 ∷ [])
      (omega arith, (omega arith, tt)) (omega arith, (omega arith, tt)) (omega arith) (omega arith)
      (omega arith)
