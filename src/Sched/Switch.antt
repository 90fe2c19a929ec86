-- ===== src/Sched/Switch.antt =====
-- The context switch of kernel/sched.c and the operations that end in one.
use sifar_os.Common.{
  ℕ, ◌+◌, ◌-◌, ◌%◌, ◌^◌, Bool, true, false, ◌&&◌, ◌||◌, not, Option, none, some, List, [], ◌∷◌,
  if◌then◌else◌, leb, ◌==◌, set, get_elem?, ◌++◌,
}
use sifar_os.Sched.Threads.{
  ready, running, sleeping, zombie, is_ready, is_running, is_sleeping, is_zombie, Thread, Process,
  proc_zombie, is_proc_running, Sched, slot, set_slot, with_state, remember_exit, pick_next,
  quantum_ticks, stack_guard,
}

-- `prev->stack_base && *(uint32_t *)prev->stack_base != STACK_GUARD`
abbrev pub overflowed : Thread → Bool
overflowed t = not (t.stack_base == 0) && not (t.guard_word == stack_guard)

-- `if (prev->state == THREAD_RUNNING) prev->state = THREAD_READY`
abbrev pub preempted : Thread → Thread
preempted t = if is_running t.state then with_state t ready else t

-- `if (prev->fpu_state) fpu_save(prev->fpu_state)`
abbrev pub saved_image : Option ℕ → ℕ → Option ℕ
saved_image none fpu = none
saved_image (some _) fpu = some fpu

abbrev pub or_keep : Option ℕ → ℕ → ℕ
or_keep none x = x
or_keep (some y) x = y

-- The part of `switch_to` that changes threads: `c` is the slot of `prev`, `n` that of `next`.
unfoldable pub change_thread : Sched → ℕ → Thread → ℕ → Thread → Sched
change_thread s c prev n next =
    let prev' = record (preempted prev) { fpu_image = saved_image prev.fpu_image s.cpu_fpu } in
    record s {
      threads = set (set s.threads c (some prev')) n (some (with_state next running));
      current = n;
      slice_left = quantum_ticks;
      cpu_fpu = or_keep next.fpu_image s.cpu_fpu;
      cpu_space = or_keep next.space s.cpu_space;
      tss_stack = if next.stack_base == 0 then 0 else next.stack_base + next.stack_size;
    }

-- `switch_to`; `none` is a panic, or an access through NULL.
abbrev pub switch_between : Sched → ℕ → Option Thread → Option Thread → Option Sched
switch_between s n none next = none
switch_between s n (some prev) none = none
switch_between s n (some prev) (some next) =
    if n == s.current
    then some (if is_ready prev.state then set_slot s s.current (with_state prev running) else s)
    else if overflowed prev
    then none
    else some (change_thread s s.current prev n next)

unfoldable pub switch_to : Sched → ℕ → Option Sched
switch_to s n = switch_between s n (slot s s.current) (slot s n)

unfoldable pub yield_now : Sched → Option Sched
yield_now s = let t = record s { need_resched = false } in switch_to t (pick_next t)

-- `sched_yield`
unfoldable pub sched_yield : Sched → Option Sched
sched_yield s = if s.enabled then yield_now s else some s

-- `sched_preempt`
unfoldable pub sched_preempt : Sched → Option Sched
sched_preempt s = if not s.enabled || not s.need_resched then some s else yield_now s

abbrev pub wake_one : ℕ → Option Thread → Option Thread
wake_one now none = none
wake_one now (some t) =
    if is_sleeping t.state && leb t.wake_at_ms now then some (with_state t ready) else some t

unfoldable pub wake : ℕ → List (Option Thread) → List (Option Thread)
wake now [] = []
wake now (o ∷ ts) = wake_one now o ∷ wake now ts

abbrev pub charge : Sched → Option Thread → Sched
charge s none = s
charge s (some t) = set_slot s s.current (record t { cpu_ticks = (t.cpu_ticks + 1) % 2 ^ 64 })

-- `sched_tick` at the time `now`. The slice is at least 1 before, so `--slice_left <= 0` is a test
-- for 1.
unfoldable pub sched_tick : Sched → ℕ → Sched
sched_tick s now =
    let charged = charge s (slot s s.current) in
    let awake = record charged { threads = wake now charged.threads } in
    if s.enabled
    then (if s.slice_left - 1 == 0
        then record awake { slice_left = quantum_ticks; need_resched = true }
        else record awake { slice_left = s.slice_left - 1 })
    else s

abbrev pub sleep_current : Sched → ℕ → Option Thread → Option Sched
sleep_current s until none = none
sleep_current s until (some t) =
    let asleep = set_slot s s.current (record t { wake_at_ms = until; state = sleeping }) in
    switch_to asleep (pick_next asleep)

-- `thread_sleep_ms`. Before the scheduler runs it waits on the spot, which changes nothing here.
unfoldable pub thread_sleep_ms : Sched → ℕ → ℕ → Option Sched
thread_sleep_ms s now ms =
    if s.enabled then sleep_current s ((now + ms) % 2 ^ 64) (slot s s.current) else some s

abbrev pub finish_proc : Thread → ℕ → Process → Process
finish_proc t code p =
    if (p.main_tid == t.tid) && is_proc_running p.state
    then record p { exit_code = code; state = proc_zombie }
    else p

abbrev pub finish_in : List Process → Thread → ℕ → ℕ → Option Process → List Process
finish_in ps t code i none = ps
finish_in ps t code i (some p) = set ps i (finish_proc t code p)

abbrev pub finish_procs : List Process → Thread → ℕ → Option ℕ → List Process
finish_procs ps t code none = ps
finish_procs ps t code (some i) = finish_in ps t code i (get_elem? ps i)

-- The state that `thread_exit` hands to `pick_next`.
unfoldable pub bury : Sched → Thread → ℕ → Sched
bury s t code =
    remember_exit
      (record s {
        procs = finish_procs s.procs t code t.proc;
        threads = set s.threads s.current (some (record t { exit_code = code; state = zombie }));
      })
      t.tid code

abbrev pub exit_current : Sched → ℕ → Option Thread → Option Sched
exit_current s code none = none
exit_current s code (some t) =
    let dead = bury s t code in
    let n = pick_next dead in if n == s.current then none else switch_to dead n

-- `thread_exit`: where the switch returns to the dead thread, it panics.
unfoldable pub thread_exit : Sched → ℕ → Option Sched
thread_exit s code = exit_current s code (slot s s.current)

abbrev pub killable : ℕ → Option Thread → Bool
killable tid none = false
killable tid (some t) = (t.tid == tid) && not (t.tid == 0) && not (is_zombie t.state)

abbrev pub killed : Thread → Thread
killed t = record t { state = zombie; exit_code = 2 ^ 32 - 1 }

abbrev pub kill_slot : Option Thread → Option Thread
kill_slot none = none
kill_slot (some t) = some (killed t)

-- The loop of `thread_kill`: the table after it, if it found a thread.
unfoldable pub kill_in : ℕ → List (Option Thread) → Option (List (Option Thread))
kill_in tid [] = none
kill_in tid (o ∷ ts) =
    if killable tid o
    then some (kill_slot o ∷ ts)
    else elim (kill_in tid ts) [ none ↦ none | some us ↦ some (o ∷ us) ]

abbrev pub has_number : ℕ → Option Thread → Bool
has_number tid none = false
has_number tid (some t) = t.tid == tid

abbrev pub after_kill : Sched → ℕ → Option (List (Option Thread)) → Option (ℕ × Sched)
after_kill s tid none = some (2 ^ 32 - 1, s)
after_kill s tid (some ts) =
    let dead = remember_exit (record s { threads = ts }) tid (2 ^ 32 - 1) in
    if has_number tid (slot dead s.current)
    then elim (sched_yield dead) [ none ↦ none | some r ↦ some (0, r) ]
    else some (0, dead)

-- `thread_kill`: the result, and the state.
unfoldable pub thread_kill : Sched → ℕ → Option (ℕ × Sched)
thread_kill s tid = after_kill s tid (kill_in tid s.threads)

abbrev pub reapable : ℕ → ℕ → Option Thread → Bool
reapable current i none = false
reapable current i (some t) = is_zombie t.state && not (i == current) && t.detached

abbrev pub stack_of : Option Thread → List ℕ
stack_of none = []
stack_of (some t) = t.stack_base ∷ []

-- The loop of `sched_reap` from slot `i` on: the table after it, and the stacks that it frees.
unfoldable pub reap_from : ℕ → ℕ → List (Option Thread) → List (Option Thread) × List ℕ
reap_from current i [] = ([], [])
reap_from current i (o ∷ ts) =
    let (us, freed) = reap_from current (i + 1) ts in
    if reapable current i o then (none ∷ us, stack_of o ++ freed) else (o ∷ us, freed)
