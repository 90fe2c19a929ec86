-- ===== src/Sched/Threads.antt =====
-- The data of kernel/sched.c and include/kernel/sched.h, and the searches over the thread table.
use sifar_os.Common.{
  ℕ, zero, suc, ◌+◌, ◌%◌, Bool, true, false, ◌||◌, Option, none, some, List, [], ◌∷◌, if◌then◌else◌,
  ◌==◌, get_or, set,
}

abbrev pub max_threads : ℕ
max_threads = 32

abbrev pub quantum_ticks : ℕ
quantum_ticks = 5

abbrev pub stack_guard : ℕ
stack_guard = 0x5A11B0DE

abbrev pub exit_history_size : ℕ
exit_history_size = 32

pub data ThreadState : Type 0 where
  ready running sleeping blocked zombie : ThreadState

abbrev pub is_ready : ThreadState → Bool
is_ready ready = true
is_ready _ = false

abbrev pub is_running : ThreadState → Bool
is_running running = true
is_running _ = false

abbrev pub is_sleeping : ThreadState → Bool
is_sleeping sleeping = true
is_sleeping _ = false

abbrev pub is_zombie : ThreadState → Bool
is_zombie zombie = true
is_zombie _ = false

-- `struct thread`. `guard_word` is the word at `stack_base`, `fpu_image` what `fpu_state` points
-- to, `space` is none for NULL, and `proc` is the index of the process.
pub record Thread : Type 0 where
  pub stack_base : ℕ
  pub stack_size : ℕ
  pub guard_word : ℕ
  pub tid : ℕ
  pub state : ThreadState
  pub wake_at_ms : ℕ
  pub cpu_ticks : ℕ
  pub exit_code : ℕ
  pub detached : Bool
  pub proc : Option ℕ
  pub fpu_image : Option ℕ
  pub space : Option ℕ

pub data ProcState : Type 0 where
  proc_free proc_running proc_zombie : ProcState

abbrev pub is_proc_running : ProcState → Bool
is_proc_running proc_running = true
is_proc_running _ = false

-- The fields of `struct process` that the scheduler touches.
pub record Process : Type 0 where
  pub main_tid : ℕ
  pub state : ProcState
  pub exit_code : ℕ

pub record ExitRecord : Type 0 where
  pub tid : ℕ
  pub code : ℕ

pub record Sched : Type 0 where
  pub threads : List (Option Thread)
  pub current : ℕ
  pub next_tid : ℕ
  pub enabled : Bool
  pub need_resched : Bool
  pub slice_left : ℕ
  pub exit_history : List ExitRecord
  pub exit_history_next : ℕ
  pub procs : List Process
  pub cpu_space : ℕ
  pub cpu_fpu : ℕ
  pub tss_stack : ℕ

abbrev pub slot : Sched → ℕ → Option Thread
slot s i = get_or s.threads i none

abbrev pub set_slot : Sched → ℕ → Thread → Sched
set_slot s i t = record s { threads = set s.threads i (some t) }

abbrev pub with_state : Thread → ThreadState → Thread
with_state t st = record t { state = st }

unfoldable pub remember_exit : Sched → ℕ → ℕ → Sched
remember_exit s tid code = record s {
  exit_history = set s.exit_history s.exit_history_next (record { tid = tid; code = code });
  exit_history_next = (s.exit_history_next + 1) % exit_history_size;
}

-- `recall_exit`: what is stored through `code`, if the thread is remembered.
unfoldable pub recall_exit : List ExitRecord → ℕ → Option ℕ
recall_exit [] tid = none
recall_exit (e ∷ es) tid = if e.tid == tid then some e.code else recall_exit es tid

unfoldable pub count_threads : List (Option Thread) → ℕ
count_threads [] = 0
count_threads (none ∷ ts) = count_threads ts
count_threads (some t ∷ ts) = suc (count_threads ts)

-- `thread_count`
unfoldable pub thread_count : Sched → ℕ
thread_count s = count_threads s.threads

abbrev pub has_tid : ℕ → Option Thread → Bool
has_tid tid none = false
has_tid tid (some t) = t.tid == tid

-- The loop that looks a thread up by its number.
unfoldable pub find_tid : ℕ → ℕ → List (Option Thread) → Option ℕ
find_tid tid i [] = none
find_tid tid i (o ∷ ts) = if has_tid tid o then some i else find_tid tid (i + 1) ts

unfoldable pub is_found : Option ℕ → Bool
is_found none = false
is_found (some i) = true

-- `thread_exists`
unfoldable pub thread_exists : Sched → ℕ → Bool
thread_exists s tid = is_found (find_tid tid 0 s.threads)

-- The first free slot, as in `thread_create`.
unfoldable pub free_slot : ℕ → List (Option Thread) → Option ℕ
free_slot i [] = none
free_slot i (none ∷ ts) = some i
free_slot i (some t ∷ ts) = free_slot (i + 1) ts

-- `t && t->state == THREAD_READY`
abbrev pub runnable : Option Thread → Bool
runnable none = false
runnable (some t) = is_ready t.state

-- The search of `pick_next`: `n` steps left.
unfoldable pub next_ready : Sched → ℕ → ℕ → ℕ → Option ℕ
next_ready s start zero step = none
next_ready s start (suc n) step =
    let i = (start + step) % max_threads in
    let rest = next_ready s start n (step + 1) in if runnable (slot s i) then some i else rest

-- `current->state == THREAD_RUNNING || current->state == THREAD_READY`
abbrev pub can_continue : Option Thread → Bool
can_continue none = false
can_continue (some t) = is_running t.state || is_ready t.state

-- `pick_next`. The slot of `current` is where the source's search for it ends.
unfoldable pub pick_next : Sched → ℕ
pick_next s = elim (next_ready s s.current max_threads 1) [
  | some i ↦ i
  | none ↦ if can_continue (slot s s.current) then s.current else 0
]

-- `thread_current`, as its slot holds it.
abbrev pub thread_current : Sched → Option Thread
thread_current s = slot s s.current

-- `sched_enabled`
abbrev pub sched_enabled : Sched → Bool
sched_enabled s = s.enabled
