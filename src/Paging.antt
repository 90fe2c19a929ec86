-- ===== src/Paging.antt =====
-- kernel/mm/paging.c: page directories, page tables and address spaces.
-- `frames` is physical memory as the directories and tables see it: the word of an index in the frame
-- of a number. A directory or a table is named by the number of its frame, an entry is its 32 bits,
-- and a frame's address is its number times 4096. What the processor caches (`invlpg`, `cr3`) is left
-- out.
mod Tables
pub mod Frames
pub mod Opening
pub mod Mapping
pub mod Unmapping
pub mod Growing
pub mod Rounds
pub mod Allocating
pub mod Access
pub mod Shared
pub mod Bare
mod Tests
mod Ranges
mod Spaces
pub use Tables.*
pub use Ranges.*
pub use Spaces.*
