-- ===== src/Elf.antt =====
-- kernel/elf.c: the loader of ELF32 programs. The image is the list of its bytes, and `size` their
-- number. The address space is the interface `Space`, what the loader uses of kernel/mm/paging.c.
mod Image
pub use Image.*
pub mod Load
pub mod Header
pub mod Checks
pub mod Safe
mod Tests
