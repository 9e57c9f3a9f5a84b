-- ===== src/Vm/Program.antt =====
-- The command line: main of lc3sim-c/main.c. The terminal's settings, the signal handler and the
-- messages are left out, and `vm_destroy` is a `free`.
use lc3_script_tools.Base.{
  ℕ, suc, false, ◌*◌, ◌^◌, ◌≤◌, ◌+◌, ◌<◌, ◌≡◌, refl, Bool, true, Option, none, some, List, ◌∷◌,
  ◌==◌, if◌then◌else◌, All, length,
}
use lc3_script_tools.Vm.Types.{
  Build, addr_max, success, opcode_nop, res_addr_mcr, opcode_not_implemented,
  error_addres_out_of_range, VmResult,
}
use lc3_script_tools.Vm.State.{Console, Vm}
use lc3_script_tools.Vm.Memory.{vm_create}
use lc3_script_tools.Vm.Run.{vm_run}
use lc3_script_tools.Vm.Load.{
  unit_size, load_success, input_not_found, input_too_large, Loading, returns, aborted, undefined,
  vm_load_data, vm_load_os, vm_load_file,
}
use lc3_script_tools.Vm.Load.Image.{image, IsWord, IsLoaded, load_data_fits, load_data_too_large}

abbrev exit_success : ℕ
exit_success = 0

abbrev exit_usage : ℕ
exit_usage = 1

abbrev pub exit_input_invalid : ℕ
exit_input_invalid = 2

abbrev exit_opcode_invalid : ℕ
exit_opcode_invalid = 3

-- `running` is fuel that ran out, `aborts` a failed assertion.
pub data Outcome : Type 0 where
  exits : ℕ → Outcome
  aborts undefined_behaviour running : Outcome

-- The switch on the result of vm_run.
abbrev pub run_outcome : Option (VmResult × Vm) → Outcome
run_outcome none = running
run_outcome (some (success, vm)) = exits exit_success
run_outcome (some (opcode_nop, vm)) = exits exit_success
run_outcome (some (res_addr_mcr, vm)) = exits exit_success
run_outcome (some (opcode_not_implemented, vm)) = exits exit_opcode_invalid
run_outcome (some (error_addres_out_of_range, vm)) = exits exit_opcode_invalid

module _ (b : Build) (asserts : Bool) where
  abbrev load_after_os : Loading → Option (List ℕ) → Loading
  load_after_os (returns load_success vm) file = vm_load_file b asserts file vm
  load_after_os (returns input_not_found vm) file = returns input_not_found vm
  load_after_os (returns input_too_large vm) file = returns input_too_large vm
  load_after_os aborted file = aborted
  load_after_os undefined file = undefined

  module _ (console : Console) (fuel : ℕ) where
    -- The switch on the result of loading, and what follows it.
    abbrev pub run_loaded : Loading → Outcome
    run_loaded (returns load_success vm) = run_outcome (vm_run b console fuel vm)
    run_loaded (returns input_not_found vm) = exits exit_input_invalid
    run_loaded (returns input_too_large vm) = exits exit_input_invalid
    run_loaded aborted = aborts
    run_loaded undefined = undefined_behaviour

    unfoldable pub main : ℕ → List ℕ → Option (List ℕ) → Outcome
    main argc os file =
        if argc == 2
        then run_loaded (load_after_os (vm_load_os b asserts os (vm_create b)) file)
        else exits exit_usage

    module _ (os_origin origin : ℕ) (os ws : List ℕ) (os_words : All (IsWord b) (os_origin ∷ os))
        (words : All (IsWord b) (origin ∷ ws)) (os_fits : os_origin + length os < addr_max b) where
      -- The machine that the operating system's image leaves.
      abbrev with_os :
          (vm : Vm) × (vm_load_data b asserts
              (image b (os_origin ∷ os))
              (length (image b (os_origin ∷ os)))
              (vm_create b)
            ≡ returns load_success vm)
          × IsLoaded b os_origin os (vm_create b) vm
      with_os = load_data_fits b asserts os_origin os (vm_create b) os_words os_fits

      -- main with the images of the operating system and of a program, when both end inside the
      -- memory, with assertions on or off: the run starts from a machine with the operating system
      -- loaded into the created machine and then the program loaded over it, the PC at the
      -- program's origin, and the exit code is that of the run's result.
      pub main_runs :
          origin + length ws < addr_max b
          → (ready : Vm) × (start : Vm) × IsLoaded b os_origin os (vm_create b) ready
            × IsLoaded b origin ws ready start
            × (main 2 (image b (os_origin ∷ os)) (some (image b (origin ∷ ws)))
                ≡ run_outcome (vm_run b console fuel start))
      unfolding main vm_load_os vm_load_file
      main_runs fits =
          let program = load_data_fits b asserts origin ws with_os.0 words fits in
          (with_os.0, program.0, with_os.2, program.2, rw (with_os.1, program.1) refl)

      refused :
          (flag : Bool) (vm : Vm)
          → run_loaded (if flag then aborted else returns input_too_large vm)
            ≡ (if flag then aborts else exits exit_input_invalid)
      refused true vm = refl
      refused false vm = refl

      -- main with a program, of less than 2 ^ 64 bytes, that ends at the last cell or later: it
      -- aborts with assertions on, and exits with VM_EXIT_INPUT_INVALID without them. A file that
      -- cannot be opened or mapped gives that exit code always. The operating system's image is one
      -- that ends inside the memory.
      pub main_refuses :
          unit_size b * suc (length ws) < 2 ^ 64
          → addr_max b ≤ origin + length ws
          → (main 2 (image b (os_origin ∷ os)) (some (image b (origin ∷ ws)))
              ≡ (if asserts then aborts else exits exit_input_invalid))
            × (main 2 (image b (os_origin ∷ os)) none ≡ exits exit_input_invalid)
      unfolding main vm_load_os vm_load_file
      main_refuses size large =
          let program = load_data_too_large b asserts origin ws with_os.0 words size large in
          (rw (with_os.1, program) (refused asserts with_os.0), rw with_os.1 refl)
