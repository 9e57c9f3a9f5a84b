-- ===== src/Sim/Run.antt =====
-- What run_until_stopped and execute_instruction of lc3tools/lc3sim.c do.
pub mod Safety
pub mod AfterLoop
pub mod Stopped
pub mod Breakpoint
pub mod Interrupt
