-- ===== src/Sched.antt =====
-- kernel/sched.c: the round-robin preemptive scheduler.
-- A thread is named by its slot in `threads`. What the processor holds for the running thread (its
-- address space, its floating point registers, the kernel stack of the TSS) is part of the state.
-- An `int` is its 32-bit pattern. What runs with interrupts off is one step; an
-- operation that turns them on halfway is several.
mod Threads
mod Switch
mod Lifecycle
pub mod Slots
pub mod Pick
pub mod Inv
pub mod Ops
pub mod Ends
pub mod Steps
pub mod Reach
pub mod Fair
pub mod Exits
mod Tests
pub use Threads.*
pub use Switch.*
pub use Lifecycle.*
