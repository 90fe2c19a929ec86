-- ===== src/Proc.antt =====
-- kernel/proc.c: the table of processes, and the memory of a process.
mod Memory
pub mod Grow
mod Tests
pub use Memory.*
