-- ===== src/Lc3pp.antt =====
-- lcc-1.3/lc3pp/lc3pp.c: the linker of the assembly text that lcc makes.
pub mod Lines
pub mod Address
pub mod Ldr
pub mod Split
pub mod Emit
pub mod Link
pub mod Import
pub mod Resolve
pub mod Main
pub mod Paste
