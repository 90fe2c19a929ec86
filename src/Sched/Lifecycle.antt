-- ===== src/Sched/Lifecycle.antt =====
-- Making, joining and reaping threads in kernel/sched.c.
use sifar_os.Common.{
  ℕ, ◌+◌, ◌-◌, ◌%◌, ◌^◌, true, false, Option, none, some, List, [], ◌∷◌, if◌then◌else◌, ◌==◌, set,
  not, ◌&&◌, replicate,
}
use sifar_os.Sched.Threads.{
  ready, running, is_zombie, Thread, Process, exit_history_size, quantum_ticks, Sched, slot,
  set_slot, recall_exit, find_tid, free_slot, stack_guard,
}
use sifar_os.Sched.Switch.{reap_from, reapable}

-- What `kmalloc` gives out for a thread.
pub data Area : Type 0 where
  descriptor stack fpu_area : Area

-- What `thread_create` has made by the time it stores the thread: what it returns, the thread unless
-- memory ran out, the areas that it gave back, and the state.
pub record Made : Type 0 where
  pub result : ℕ
  pub thread : Option Thread
  pub given_back : List Area
  pub state : Sched

abbrev pub minus_one : ℕ
minus_one = 2 ^ 32 - 1

abbrev pub space_of : Option Thread → Option ℕ → Option ℕ
space_of none kernel = kernel
space_of (some t) kernel = t.space

abbrev pub fresh_thread : Sched → ℕ → ℕ → ℕ → Option ℕ → Thread
fresh_thread s stack_base stack_size image kernel = record {
  stack_base = stack_base;
  stack_size = stack_size;
  guard_word = stack_guard;
  tid = s.next_tid;
  state = ready;
  wake_at_ms = 0;
  cpu_ticks = 0;
  exit_code = 0;
  detached = true;
  proc = none;
  fpu_image = some image;
  space = space_of (slot s s.current) kernel;
}

-- `thread_create` has interrupts off while it searches for a slot and while it stores the thread, and
-- on in between: it is three steps, and other threads may run between them.

-- Its first step, the search.
unfoldable pub create_find : Sched → Option ℕ
create_find s = free_slot 0 s.threads

-- Its second step: the allocations in turn, which are a thread, a stack and the FXSAVE area, and the
-- thread's fields with a number of its own. A pointer of 0 is a failed `kmalloc`. `image` is what
-- `fpu_new_state` writes, `kernel` the kernel's address space.
unfoldable pub create_make :
    Sched → (thread_ptr stack_ptr fpu_ptr : ℕ) → (stack_size image : ℕ) → Option ℕ → Made
create_make s thread_ptr stack_ptr fpu_ptr stack_size image kernel =
    if thread_ptr == 0
    then record { result = minus_one; thread = none; given_back = []; state = s }
    else if stack_ptr == 0
    then record { result = minus_one; thread = none; given_back = descriptor ∷ []; state = s }
    else if fpu_ptr == 0
    then record {
      result = minus_one;
      thread = none;
      given_back = stack ∷ descriptor ∷ [];
      state = s;
    }
    else record {
      result = s.next_tid;
      thread = some (fresh_thread s stack_ptr stack_size image kernel);
      given_back = [];
      state = record s { next_tid = (s.next_tid + 1) % 2 ^ 32 };
    }

-- Its last step: the store to the slot that the search found, whatever stands there by now.
unfoldable pub create_store : Sched → ℕ → Thread → Sched
create_store s i t = set_slot s i t

-- `thread_join` has interrupts off while it searches for the thread and while it claims it: these are
-- two steps of a round, and `sched_yield` is the third.

-- Its first step, and the result where no thread was found.
unfoldable pub join_find : Sched → ℕ → Option ℕ
join_find s tid = find_tid tid 0 s.threads

abbrev pub code_or_zero : Option ℕ → ℕ
code_or_zero none = 0
code_or_zero (some c) = c

unfoldable pub join_gone : Sched → ℕ → ℕ
join_gone s tid = code_or_zero (recall_exit s.exit_history tid)

-- What the claim comes to: the thread is dead and its code is returned; the thread lives and the round
-- ends in `sched_yield`; or the thread was freed since it was found, and the claim reads and writes
-- memory that no slot owns.
pub data Claimed : Type 0 where
  done : ℕ → Sched → Claimed
  waits : Sched → Claimed
  stray : Claimed

abbrev pub claim : Sched → ℕ → Option Thread → Claimed
claim s i none = stray
claim s i (some t) =
    let held = record t { detached = false } in
    if is_zombie t.state
    then done t.exit_code (set_slot s i (record held { detached = true }))
    else waits (set_slot s i held)

-- Its second step, on the slot of the thread that was found.
unfoldable pub join_claim : Sched → ℕ → Claimed
join_claim s i = claim s i (slot s i)

abbrev pub reap_rest : ℕ → List (Option Thread) → List (Option Thread) × List ℕ
reap_rest current [] = ([], [])
reap_rest current (o ∷ ts) = let (us, freed) = reap_from current 1 ts in (o ∷ us, freed)

-- One round of the loop of `sched_reap`, which has interrupts on while it frees the thread.
unfoldable pub reap_one : Sched → ℕ → Sched
reap_one s i =
    if not (i == 0) && reapable s.current i (slot s i)
    then record s { threads = set s.threads i none }
    else s

-- `sched_reap` where nothing runs between its rounds: the state, and the stacks that it frees, each with its thread. The FXSAVE areas are
-- not freed.
unfoldable pub sched_reap : Sched → Sched × List ℕ
sched_reap s = let (us, freed) = reap_rest s.current s.threads in (record s { threads = us }, freed)

-- `sched_init`, over the tables of a zeroed image: the boot thread becomes thread 0.
unfoldable pub sched_init : List Process → ℕ → ℕ → Sched
sched_init procs kernel_space image = record {
  threads = some boot ∷ replicate 31 none;
  current = 0;
  next_tid = 1;
  enabled = true;
  need_resched = false;
  slice_left = quantum_ticks;
  exit_history = replicate exit_history_size (record { tid = 0; code = 0 });
  exit_history_next = 0;
  procs = procs;
  cpu_space = kernel_space;
  cpu_fpu = image;
  tss_stack = 0;
}
  where
    boot : Thread
    boot = record {
      stack_base = 0;
      stack_size = 0;
      guard_word = 0;
      tid = 0;
      state = running;
      wake_at_ms = 0;
      cpu_ticks = 0;
      exit_code = 0;
      detached = false;
      proc = none;
      fpu_image = some image;
      space = some kernel_space;
    }
