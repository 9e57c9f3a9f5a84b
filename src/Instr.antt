-- ===== src/Instr.antt =====
-- The instruction formats that the C++ simulator shares with its tests, as C macros over the widths
-- of an instruction, an operation code, a register number and a parameter.
pub mod Layout
pub mod Parser
pub mod Maker
pub mod RoundTrip
pub mod Checks
pub mod OneRegister
pub mod Asserted
