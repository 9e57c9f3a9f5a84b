-- ===== src/Vm/Types.antt =====
-- The two builds of lc3sim-c/types.h, and the enumerations of lc3sim-c/vm.h and lc3sim-c/vm.c.
use lc3_script_tools.Base.{ℕ, ◌-◌, ◌*◌, ◌%◌, ◌^◌, Option, none, some, ◌==◌, if◌then◌else◌}

-- LC3_32BIT is defined, or it is not.
pub data Build : Type 0 where
  lc3_16bit lc3_32bit : Build

-- The width of lc3_register_type and of lc3_mem_addres_type.
abbrev pub register_bits : Build → ℕ
register_bits lc3_16bit = 16
register_bits lc3_32bit = 32

-- LC3_MAX_MEMORY_ADDRES: UINT16_MAX, or twice that. The last address is one less.
abbrev pub addr_max : Build → ℕ
addr_max lc3_16bit = 65535
addr_max lc3_32bit = 2 * 65535

-- A value stored into a vm_byte or passed as a vm_addr.
abbrev pub word : Build → ℕ → ℕ
word b n = n % 2 ^ register_bits b

-- LC3_SIGN_BIT_INDEX and LC3_STATUS_BIT_INDEX are both the highest bit.
abbrev pub sign_bit : Build → ℕ
sign_bit b = 2 ^ (register_bits b - 1)

abbrev pub status_bit : Build → ℕ
status_bit b = 2 ^ (register_bits b - 1)

abbrev pub addr_initial : ℕ
addr_initial = 0x3000

abbrev pub addr_kbsr : ℕ
addr_kbsr = 0xfe00

abbrev pub addr_kbdr : ℕ
addr_kbdr = 0xfe02

abbrev pub addr_dsr : ℕ
addr_dsr = 0xfe04

abbrev pub addr_ddr : ℕ
addr_ddr = 0xfe06

abbrev pub addr_mcr : ℕ
addr_mcr = 0xfffe

abbrev pub reg_pc : ℕ
reg_pc = 8

abbrev pub reg_psr : ℕ
reg_psr = 9

abbrev pub flag_negative : ℕ
flag_negative = 4

abbrev pub flag_zero : ℕ
flag_zero = 2

abbrev pub flag_positive : ℕ
flag_positive = 1

pub data VmResult : Type 0 where
  success opcode_nop res_addr_mcr opcode_not_implemented error_addres_out_of_range : VmResult

pub data Opcode : Type 0 where
  add and br jmp jsr ld ldi ldr lea not rti st sti str trap reserved : Opcode

-- The cast of `instr >> 12` to vm_opcode: `none` is a value without an enumerator, for which the
-- switch has no case.
unfoldable pub opcode_of : ℕ → Option Opcode
opcode_of n =
    if n == 1
    then some add
    else if n == 5
    then some and
    else if n == 0
    then some br
    else if n == 12
    then some jmp
    else if n == 4
    then some jsr
    else if n == 2
    then some ld
    else if n == 10
    then some ldi
    else if n == 6
    then some ldr
    else if n == 14
    then some lea
    else if n == 9
    then some not
    else if n == 8
    then some rti
    else if n == 3
    then some st
    else if n == 11
    then some sti
    else if n == 7
    then some str
    else if n == 15
    then some trap
    else if n == 13
    then some reserved
    else none
