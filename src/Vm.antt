-- ===== src/Vm.antt =====
-- The LC-3 virtual machine of lc3sim-c/vm.c, for the 16-bit and the 32-bit build.
pub mod Types
pub mod State
pub mod Memory
pub mod Perform
pub mod Run
pub mod Triple
pub mod Words
pub mod Load
pub mod Invariant
pub mod Rounds
pub mod Program
