-- ===== src/Tests.antt =====
-- Concrete runs of the programs that are modelled, and the theorems at concrete inputs.
pub mod Machine
pub mod Encoding
pub mod Simulator
pub mod Linker
pub mod Paster
pub mod Symbols
pub mod Agree
