-- ===== src/Tests/Agree.antt =====
-- The two simulators at one instruction: lc3tools/lc3sim.c beside lc3sim-c/vm.c.
use lc3_script_tools.Base.{
  ◌%◌, ◌≡◌, refl, arith, inl, inr, true, false, none, some, [], ◌==◌, if◌then◌else◌,
}
use lc3_script_tools.Vm.Types.{lc3_16bit}
use lc3_script_tools.Vm.State.{Console, Vm}
use lc3_script_tools.Vm.Perform.{vm_perform, sextend}
use lc3_script_tools.Sim.Inst.{f_imm5, f_imm6, f_imm9, f_imm11}
use lc3_script_tools.Sim.Table.{jsrr, Action, find_action, definitions}
use lc3_script_tools.Sim.State.{World, Sim, end_of_file}
use lc3_script_tools.Sim.Code.{run_code}
use lc3_script_tools.Sim.Main.{boot}
use lc3_script_tools.Sim.Agree.Immediate.{f_imm-sextend}
use lc3_script_tools.Sim.Agree.Result.{Same, Agree}
use lc3_script_tools.Sim.Agree.Registers.{run_code-vm_perform}

abbrev silent : World
silent = record {
  ready = λ f t. false;
  next_char = λ f t. none;
  next_line = λ f t. end_of_file;
  random_zero = λ t. true;
  sigint = λ t. false;
  contents = λ name t. none;
  writable = λ name t. false;
  install_dir = [];
  gui_connects = false;
}

abbrev no_keys : Console
no_keys = record { select_result = λ k. false; next_char = λ k. none }

-- The PC is x3001, the flag is Z, and R7 holds x4000.
abbrev sim_start : Sim
sim_start = record boot {
  reg = λ i. if i == 8 then 0x3001 else if i == 10 then 0x400 else if i == 7 then 0x4000 else 0;
  mem = λ a. 0;
}

abbrev vm_start : Vm
vm_start = record {
  mem = λ a. 0;
  reg = λ i. if i == 8 then 0x3001 else if i == 9 then 2 else if i == 7 then 0x4000 else 0;
  polls = 0;
  reads = 0;
  output = [];
}

start-Same : Same sim_start vm_start
start-Same = record {
  general = λ r lt. ground arith;
  words = λ r lt. ground arith;
  status = refl;
  flag = inr (inl refl);
  memory = λ a. refl;
}

-- JSRR R7: the base register is the one that the call writes.
abbrev jsrr_r7 : Action
jsrr_r7 = record { flags = 1; code = jsrr }

jsrr_r7_found : find_action 0x41c0 definitions ≡ some jsrr_r7
unfolding find_action definitions
jsrr_r7_found = refl

run_code-vm_perform_example :
    Agree (run_code silent jsrr 0x41c0 sim_start) (vm_perform lc3_16bit no_keys 0x41c0 vm_start)
run_code-vm_perform_example =
    run_code-vm_perform silent no_keys 0x41c0 sim_start vm_start jsrr_r7 (omega arith)
      (λ e. omega arith) (inr (inr (inl refl))) jsrr_r7_found start-Same

-- Every immediate of this word is -1.
f_imm-sextend_example :
    (f_imm5 0x17ff % 65536 ≡ sextend lc3_16bit 0x17ff 5)
    × (f_imm6 0x17ff % 65536 ≡ sextend lc3_16bit 0x17ff 6)
    × (f_imm9 0x17ff % 65536 ≡ sextend lc3_16bit 0x17ff 9)
    × (f_imm11 0x17ff % 65536 ≡ sextend lc3_16bit 0x17ff 11)
f_imm-sextend_example = f_imm-sextend 0x17ff (omega arith)

-- The call went to the old R7.
jsrr_r7_test : (run_code silent jsrr 0x41c0 sim_start).1.reg 8 ≡ 0x4000
unfolding run_code
jsrr_r7_test = refl
