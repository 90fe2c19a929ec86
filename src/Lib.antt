-- ===== src/Lib.antt =====
-- SifarOS: a verification library for the core of the kernel.
--
-- The kernel is a small 32-bit x86 system in C. The boot code hands it a memory map, from which the
-- physical frame allocator is built; programs are ELF images that the loader checks and places in
-- an address space of their own; threads share the processor round robin; paths name the nodes of a
-- tree of files.
--
-- Parts, and the files that model them:
-- - Common: helpers on booleans, options, lists and native numbers that all parts share.
-- - Div64: kernel/lib/div64.c, the 64-bit division that the compiler calls.
-- - Str: kernel/lib/string.c, the searches and comparisons on C strings. A string is the list of its
--   bytes before the NUL.
-- - Mem: memset, memcpy and memmove of kernel/lib/string.c, on a memory of bytes.
-- - Pmm: kernel/mm/pmm.c, the bitmap allocator of page frames. The bitmap is the list of its bits,
--   lowest frame first; the words of 32 bits are runs of that list.
-- - Paging: kernel/mm/paging.c. Physical memory is a function from a frame and the index of a word in
--   it, a space is the frame of its directory, and frames come from Pmm. `Paging.Tables` has the
--   mapping of one page, `Paging.Ranges` the operations on ranges, `Paging.Spaces` the spaces and the start.
-- - Proc: kernel/proc.c, the searches of the table, the checks of a user's pointer and `proc_sbrk`, on
--   the model of Paging.
-- - Kprintf: kernel/lib/kprintf.c. A sink is the console or a buffer; the variable arguments are a
--   function from their index to the word that `va_arg` reads.
-- - Kheap: kernel/mm/kheap.c, the kernel heap. The blocks are a list in the order of their `next`
--   pointers, each with its address, size, `prev` pointer and magic number; payload bytes are left out.
--   The frames that `grow` gets from Pmm and maps are a supply that each call has as an argument.
-- - Sched: kernel/sched.c and include/kernel/sched.h. A thread is named by its slot in `threads`.
--   `Sched.Threads` has the data and the searches, `Sched.Switch` the context switch and the
--   operations that end in one, `Sched.Lifecycle` the making, joining and reaping of threads, each in the
--   steps that no interrupt divides. `Sched.Reach` has the steps of all of them in any order.
-- - Children: `find_child`, `link_child` and `unlink_child` of kernel/fs/vfs.c, on the list of siblings.
-- - Path: `vfs_abspath` and `vfs_path_of` of kernel/fs/vfs.c, which uses `strlcpy`, `strlen` and `strrchr` of Str.
-- - Ramfs: kernel/fs/ramfs.c, files in memory. A file is its buffer, whose length is the capacity, and
--   its size; whether memory is given is an argument of a call.
-- - Sfs: kernel/fs/sfs.c, the file system on the disk. `Sfs.Disk` has the blocks, the bitmap and the
--   inodes, `Sfs.Files` the blocks and bytes of a file, `Sfs.Dirs` directories and the operations that
--   the tree of files calls. The inodes, the bitmap and the superblock
--   lie in blocks of the disk, which the operations read and write; `Sfs.Layout` says where. Mounting is
--   not modelled.
-- - Elf: kernel/elf.c and include/kernel/elf.h. The loader uses paging through the interface `Space`
--   of Elf.Load: `vmm_alloc_range`, `vmm_translate_in` and a copy to physical memory.
--
-- Conventions: a machine word is a natural number below 2 ^ 32 or 2 ^ 64 with the wrap-around written
-- out; an `int` is its bit pattern. A call that panics, or fails with -1, is `none` where nothing
-- else is returned. Kernel code between `irq_save` and `irq_restore` is one step.
--
-- Bounds: the width of a conversion of `format` is an `int` that is taken to wrap; `format` has the
-- length of its format as fuel, and a number 35 digits; the loop over the components of a path has
-- the length of the path and one as fuel, since each round takes at least a byte; `write_to_space`
-- and the loops of `sfs_file_read` and `sfs_file_write` have the number of bytes left; the doubling
-- of a file buffer has 23 rounds, since 22 reach 4 MiB from one byte. The other loops are recursion
-- on their counters, as in the source.
--
-- Outside the library: `kmalloc`, `timer_ms` and `fpu_new_state` give their results as arguments of
-- the scheduler's operations. The saved stack pointers, thread names and the hardware (descriptor
-- tables, ports, devices, the display) are not modelled, nor are user programs, the window manager,
-- the shell and the system call dispatcher.
pub mod Common
pub mod Div64
pub mod Str
pub mod Mem
pub mod Pmm
pub mod Sched
pub mod Children
pub mod Path
pub mod Elf
pub mod Kheap
pub mod Ramfs
pub mod Paging
pub mod Kprintf
pub mod Sfs
pub mod Proc
