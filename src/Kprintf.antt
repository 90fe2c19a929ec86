-- ===== src/Kprintf.antt =====
-- kernel/lib/kprintf.c: formatted output to the console or to a buffer.
pub mod Sink
pub mod Format
pub mod Text
pub mod Whole
pub mod Buffer
pub mod Numeral
pub mod Rounds
mod Tests
