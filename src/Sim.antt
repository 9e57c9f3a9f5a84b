-- ===== src/Sim.antt =====
-- lc3tools/lc3sim.c: the interactive simulator, with the instruction table of lc3tools/lc3.def.
pub mod Text
pub mod Inst
pub mod State
pub mod Table
pub mod Memory
pub mod Disassemble
pub mod Store
pub mod Code
pub mod Show
pub mod Execute
pub mod Scan
pub mod Files
pub mod Breakpoints
pub mod Address
pub mod Dump
pub mod Break
pub mod Commands
pub mod Settings
pub mod Machine
pub mod Help
pub mod Command
pub mod Loop
pub mod Main
pub mod Triple
pub mod Run
pub mod Decode
pub mod Agree
