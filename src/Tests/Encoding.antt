-- ===== src/Tests/Encoding.antt =====
-- Instructions of lc3sim_cpp/instr_maker.h: taken apart and performed.
use lc3_script_tools.Instr.Checks.{checked_int_reads_negative}
use lc3_script_tools.Base.{
  ◌-◌, ◌*◌, ◌^◌, ◌+◌, ◌≡◌, refl, arith, true, false, none, some, update, [],
}
use lc3_script_tools.Base.Int.{pos, negsuc, to_signed}
use lc3_script_tools.Vm.Types.{lc3_16bit, success, error_addres_out_of_range, res_addr_mcr}
use lc3_script_tools.Vm.State.{Console, Vm}
use lc3_script_tools.Vm.Perform.{vm_perform}
use lc3_script_tools.Instr.Layout.{config}
use lc3_script_tools.Instr.Parser.{
  int_value, int_after_num2, int_after_num2_flag, int_after_num2_with_flag,
}
use lc3_script_tools.Instr.Maker.{
  make_br, make_ri, check_int_with_mask, make_rri_with_flag, make_add_i, make_and_i, make_lea,
  make_str, make_ldr,
}
use lc3_script_tools.Instr.RoundTrip.{low_bits, Reads, rri_with_flag_round_trip}
use lc3_script_tools.Instr.Asserted.RoundTrip.{asserted_rri_round_trip}
use lc3_script_tools.Isa.Encoded.{config_16-IsLayout, with_result}
use lc3_script_tools.Isa.Address.{perform-make_lea}
use lc3_script_tools.Isa.Branch.{perform-make_br}
use lc3_script_tools.Isa.Alu.{perform-make_add_i, perform-make_and_i}
use lc3_script_tools.Isa.Cells.{perform-make_ldr-make_str, perform-make_str_out_of_range}
use lc3_script_tools.Vm.Run.{vm_run}
use lc3_script_tools.Isa.Halt.{halted, vm_run_halts}
use lc3_script_tools.Isa.Control.{called, ret, ret-jsr}

abbrev no_input : Console
no_input = record { select_result = λ _. false; next_char = λ _. none }

-- R1 is 7, R2 is 0x4000 and R3 is the last address.
abbrev three_registers : Vm
three_registers = record {
  mem = λ _. 0;
  reg = update (update (update (update (λ _. 0) 1 7) 2 0x4000) 3 0xffff) 8 0x3001;
  polls = 0;
  reads = 0;
  output = [];
}

rri_with_flag_round_trip_example :
    Reads (config 16) 1 1 2 (make_rri_with_flag (config 16) 1 1 2 (negsuc 2))
    × (int_after_num2_flag (config 16) (make_rri_with_flag (config 16) 1 1 2 (negsuc 2)) ≡ 2 ^ 5)
    × (to_signed 64
          (int_after_num2_with_flag (config 16) (make_rri_with_flag (config 16) 1 1 2 (negsuc 2)))
        ≡ negsuc 2)
rri_with_flag_round_trip_example =
    rri_with_flag_round_trip config_16-IsLayout 1 1 2 (omega arith) (omega arith) (omega arith)
      (negsuc 2) (omega arith) (omega arith)

-- ADD R4, R1, #-3.
perform-make_add_i_example :
    vm_perform lc3_16bit no_input (make_add_i (config 16) 4 1 (negsuc 2)) three_registers
    ≡ (success, with_result lc3_16bit 4 4 three_registers)
perform-make_add_i_example =
    perform-make_add_i lc3_16bit no_input three_registers 4 1 (omega arith) (omega arith) (negsuc 2)
      (omega arith)

-- STR R1, R2, #-1; LDR R4, R2, #-1.
perform-make_ldr-make_str_example :
    (vm_perform lc3_16bit no_input (make_str (config 16) 1 2 (negsuc 0)) three_registers
      ≡ (success, record three_registers { mem = update (λ _. 0) 0x3fff 7 }))
    × (vm_perform lc3_16bit no_input
          (make_ldr (config 16) 4 2 (negsuc 0))
          (record three_registers { mem = update (λ _. 0) 0x3fff 7 })
        ≡ (
          success,
          with_result lc3_16bit 4 7 (record three_registers { mem = update (λ _. 0) 0x3fff 7 }),
        ))
perform-make_ldr-make_str_example =
    perform-make_ldr-make_str lc3_16bit no_input three_registers 1 4 2 (omega arith) (omega arith)
      (omega arith) (negsuc 0) (omega arith)
      (record {
        in_memory = omega arith;
        not_kbsr = λ e. omega arith;
        not_kbdr = λ e. omega arith;
        not_dsr = λ e. omega arith;
        not_ddr = λ e. omega arith;
      })

-- STR R1, R3, #0.
perform-make_str_out_of_range_example :
    vm_perform lc3_16bit no_input (make_str (config 16) 1 3 (pos 0)) three_registers
    ≡ (error_addres_out_of_range, three_registers)
perform-make_str_out_of_range_example =
    perform-make_str_out_of_range lc3_16bit no_input three_registers 1 4 3 (omega arith)
      (omega arith) (omega arith) (pos 0) (omega arith) (omega arith)

-- JSR #5.
ret-jsr_example :
    (vm_perform lc3_16bit no_input 0x4805 three_registers
      ≡ (success, called lc3_16bit 0x4805 three_registers))
    × (vm_perform lc3_16bit no_input ret (called lc3_16bit 0x4805 three_registers) ≡ (
      success,
      record three_registers {
        reg = update (called lc3_16bit 0x4805 three_registers).reg 8 0x3001;
      },
    ))
ret-jsr_example = ret-jsr lc3_16bit no_input 0x4805 three_registers (omega arith)

-- 300 in the nine digits after the first register number is read back as -212.
checked_int_reads_negative_example :
    (check_int_with_mask (pos 300) (2 ^ 9 - 1) ≡ true)
    × (to_signed 64 (int_value (2 * 2 ^ 9 + low_bits 9 (pos 300)) 9) ≡ negsuc 211)
checked_int_reads_negative_example =
    checked_int_reads_negative 9 2 300 (omega arith) (omega arith) (omega arith) (omega arith)

abbrev positive : Vm
positive = record three_registers { reg = update three_registers.reg 9 1 }

-- BRp #-2.
perform-make_br_example :
    vm_perform lc3_16bit no_input (make_br (config 16) 1 (negsuc 1)) positive
    ≡ (success, record positive { reg = update positive.reg 8 0x2fff })
unfolding make_ri
perform-make_br_example =
    perform-make_br lc3_16bit no_input positive 1 (omega arith) (negsuc 1) (omega arith)

-- LDR R1, R2, #-3.
asserted_rri_round_trip_example :
    Reads (config 16) 6 1 2 25277 × (to_signed 64 (int_after_num2 (config 16) 25277) ≡ negsuc 2)
unfolding lc3_script_tools.Instr.Asserted.asserted_rri
asserted_rri_round_trip_example =
    asserted_rri_round_trip config_16-IsLayout 6 1 2 (negsuc 2) 25277 (omega arith) (omega arith)
      (omega arith) (omega arith) refl

-- STR R1, R3, #-1 at the PC: R1 is 7, and R3 - 1 the address of MCR.
abbrev stopping : Vm
stopping = record three_registers {
  mem = update (update (λ _. 0) 0xfffe 0x8000) 0x3001 (make_str (config 16) 1 3 (negsuc 0));
}

vm_run_halts_example :
    vm_run lc3_16bit no_input 7 stopping
    ≡ some (res_addr_mcr, halted lc3_16bit no_input stopping 1 3 (negsuc 0))
vm_run_halts_example =
    vm_run_halts lc3_16bit no_input stopping 1 3 (negsuc 0) 5 (omega arith) (omega arith)
      (omega arith) refl
      (record {
        in_memory = omega arith;
        not_kbsr = λ e. omega arith;
        not_kbdr = λ e. omega arith;
        not_dsr = λ e. omega arith;
        not_ddr = λ e. omega arith;
      })
      refl refl (omega arith)

-- AND R4, R1, #-3.
perform-make_and_i_example :
    vm_perform lc3_16bit no_input (make_and_i (config 16) 4 1 (negsuc 2)) three_registers
    ≡ (success, with_result lc3_16bit 4 5 three_registers)
perform-make_and_i_example =
    perform-make_and_i lc3_16bit no_input three_registers 4 1 (omega arith) (omega arith) (negsuc 2)
      (omega arith)

-- LEA R4, #-2.
perform-make_lea_example :
    vm_perform lc3_16bit no_input (make_lea (config 16) 4 (negsuc 1)) three_registers
    ≡ (success, with_result lc3_16bit 4 0x2fff three_registers)
perform-make_lea_example =
    perform-make_lea lc3_16bit no_input three_registers 4 (omega arith) (negsuc 1) (omega arith)
