-- ===== src/Sfs.antt =====
-- kernel/fs/sfs.c: the file system on the disk.
pub mod Disk
pub mod Files
pub mod Dirs
pub mod Layout
pub mod Blocks
pub mod Mapped
pub mod Tables
pub mod Growth
pub mod Content
pub mod Writing
pub mod Reading
pub mod Records
pub mod Putting
pub mod Stored
mod Tests
