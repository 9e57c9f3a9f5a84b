-- ===== src/Symbol.antt =====
-- The symbol table of lc3tools/symbol.c: names without regard to case in a hash table.
pub mod Names
pub mod Table
pub mod Lookup
pub mod Adding
pub mod Removal
pub mod Unlink
pub mod Emptied
pub mod Ordered
pub mod Removing
