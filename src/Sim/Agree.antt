-- ===== src/Sim/Agree.antt =====
-- The instructions of lc3tools/lc3.def beside those of lc3sim-c/vm.c.
pub mod Immediate
pub mod Result
pub mod Perform
pub mod Registers
