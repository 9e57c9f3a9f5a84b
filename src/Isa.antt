-- ===== src/Isa.antt =====
-- What the machine of lc3sim-c/vm.c does with the instructions that lc3sim_cpp/instr_maker.h makes.
pub mod Encoded
pub mod Alu
pub mod Cells
pub mod Control
pub mod Halt
pub mod Address
pub mod Branch
