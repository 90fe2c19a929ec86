-- ===== src/Sched/Reach.antt =====
-- Every state that the scheduler reaches from `sched_init` satisfies its invariant.
use sifar_os.Common.{
  ℕ, zero, suc, ◌+◌, ◌-◌, ◌^◌, ◌<◌, ◌≡◌, refl, ap, true, false, Option, none, some, List, [], ◌∷◌,
  arith, inl, inr, if◌then◌else◌, ◌==◌, get_or, length, Option-cases, ◌&&◌, not, replicate, Bool,
  ◌∙◌,
}
use sifar_os.Sched.Threads.{
  Thread, Sched, slot, max_threads, is_zombie, Process, ready, remember_exit,
}
use sifar_os.Sched.Switch.{
  sched_yield, sched_preempt, sched_tick, thread_sleep_ms, thread_exit, thread_kill, kill_in,
  reapable,
}
use sifar_os.Sched.Lifecycle.{
  create_make, create_store, join_claim, reap_one, sched_reap, reap_rest, sched_init,
}
use sifar_os.Sched.Slots.{present}
use sifar_os.Sched.Inv.{IsValid, runs}
use sifar_os.Sched.Ops.{
  Retable-IsValid, sched_yield-IsValid, sched_preempt-IsValid, sched_tick-IsValid,
}
use sifar_os.Sched.Ends.{
  thread_sleep_ms-IsValid, thread_exit-IsValid, thread_kill-IsValid, marked-IsValid, reap_from-slot,
  length-reap_from,
}
use sifar_os.Sched.Steps.{
  Claims, create_make-IsValid, create_store-IsValid, join_claim-IsValid, reap_one-IsValid,
}

reap_rest-slot :
    (current : ℕ) (ts : List (Option Thread)) (j : ℕ)
    → get_or (reap_rest current ts).0 j none
      ≡ (if not (j == 0) && reapable current j (get_or ts j none) then none else get_or ts j none)
reap_rest-slot current [] j = ground arith
reap_rest-slot current (o ∷ ts) zero = ground arith
reap_rest-slot current (o ∷ ts) (suc j) =
    let e : 1 + j ≡ suc j = omega arith in ground (arith, reap_from-slot current 1 ts j, e)

length-reap_rest :
    (current : ℕ) (ts : List (Option Thread)) → length (reap_rest current ts).0 ≡ length ts
length-reap_rest current [] = refl
length-reap_rest current (o ∷ ts) = ap suc (length-reap_from current 1 ts)

-- A detached thread that is dead.
abbrev pub is_finished : Option Thread → Bool
is_finished none = false
is_finished (some t) = is_zombie t.state && t.detached

-- Where nothing runs between its rounds, reaping empties exactly the slots that hold a detached zombie,
-- slot 0 and the current slot excepted, leaves every other slot as it was, and keeps the invariant.
pub sched_reap-slot :
    (s : Sched)
    → IsValid s
    → IsValid (sched_reap s).0
      × ((j : ℕ)
          → slot (sched_reap s).0 j ≡ (
              if not (j == 0) && (not (j == s.current) && is_finished (slot s j))
              then none
              else slot s j))
unfolding sched_reap
sched_reap-slot s v =
    let w = reap_rest-slot s.current s.threads in
    (
      Retable-IsValid s (reap_rest s.current s.threads).0 v (record {
        size = length-reap_rest s.current s.threads;
        holds = reaped_current (w s.current);
        boot = ground (arith, w 0, v.boot);
        single = λ i h. ground (arith, w i);
      }),
      λ j. w j ∙ ap (λ x. if not (j == 0) && x then none else slot s j) (same j (slot s j)),
    )
  where
    same :
        (j : ℕ) (o : Option Thread)
        → reapable s.current j o ≡ (not (j == s.current) && is_finished o)
    same j none = ground arith
    same j (some t) = ground arith

    reaped_current :
        {o : Option Thread}
        → o ≡ (
            if not (s.current == 0) && reapable s.current s.current (slot s s.current)
            then none
            else slot s s.current)
        → present o ≡ true
    reaped_current {o} e = elim (Option-cases (slot s s.current)) [
      | inl k ↦ absurd (ground (arith, v.holds))
      | inr (t, k) ↦ ground (arith, e)
    ]

-- A part of an operation of the scheduler that no interrupt divides; the arguments, the time and
-- whether there is memory come from outside. What `thread_create`, `thread_join`, `thread_kill` and
-- `sched_reap` do is several steps. A store, a claim and a round of reaping take any slot, also one
-- that has changed since it was found, and the thread that is stored is any that is ready. `kills` is
-- a `thread_kill` that runs through, `marks` its part with interrupts off.
pub data Step (s : Sched) : Sched → Type 0 where
  yields : {u : Sched} → sched_yield s ≡ some u → Step s u
  preempts : {u : Sched} → sched_preempt s ≡ some u → Step s u
  ticks : (now : ℕ) → Step s (sched_tick s now)
  sleeps : {u : Sched} (now ms : ℕ) → thread_sleep_ms s now ms ≡ some u → Step s u
  exits : {u : Sched} (code : ℕ) → thread_exit s code ≡ some u → Step s u
  kills : {u : Sched} (tid r : ℕ) → thread_kill s tid ≡ some (r, u) → Step s u
  marks :
      {us : List (Option Thread)} (tid : ℕ)
      → kill_in tid s.threads ≡ some us
      → Step s (remember_exit (record s { threads = us }) tid (2 ^ 32 - 1))
  makes :
      (thread_ptr stack_ptr fpu_ptr stack_size image : ℕ) (kernel : Option ℕ)
      → Step s (create_make s thread_ptr stack_ptr fpu_ptr stack_size image kernel).state
  stores : (k : ℕ) (t : Thread) → k < max_threads → t.state ≡ ready → Step s (create_store s k t)
  claims : {u : Sched} (i : ℕ) → i < max_threads → Claims s (join_claim s i) u → Step s u
  reaps : (i : ℕ) → i < max_threads → Step s (reap_one s i)

pub data Reach (s : Sched) : Sched → Type 0 where
  here : Reach s s
  next : {t u : Sched} → Reach s t → Step t u → Reach s u

Step-IsValid : {s u : Sched} → Step s u → IsValid s → IsValid u
Step-IsValid (yields e) v = sched_yield-IsValid _ _ v e
Step-IsValid (preempts e) v = sched_preempt-IsValid _ _ v e
Step-IsValid (ticks now) v = sched_tick-IsValid _ now v
Step-IsValid (sleeps now ms e) v = thread_sleep_ms-IsValid _ _ now ms v e
Step-IsValid (exits code e) v = (thread_exit-IsValid _ _ code v e).0
Step-IsValid (kills tid r e) v = thread_kill-IsValid _ _ tid r v e
Step-IsValid (marks {us} tid e) v = marked-IsValid _ tid us v e
Step-IsValid (makes a b c d e k) v = create_make-IsValid _ a b c d e k v
Step-IsValid (stores k t h e) v = create_store-IsValid _ k t v h e
Step-IsValid (claims i h r) v = join_claim-IsValid _ _ i v h r
Step-IsValid (reaps i h) v = reap_one-IsValid _ i v h

nobody_else : (n i : ℕ) → runs (get_or (replicate n none) i none) ≡ false
nobody_else zero i = refl
nobody_else (suc n) zero = refl
nobody_else (suc n) (suc i) = nobody_else n i

sched_init-IsValid :
    (procs : List Process) (space image : ℕ) → IsValid (sched_init procs space image)
unfolding sched_init
sched_init-IsValid procs space image = record {
  size = refl;
  here = omega arith;
  holds = refl;
  boot = refl;
  single = alone;
  slice = omega arith;
  history = (refl, omega arith);
}
  where
    alone : (i : ℕ) → runs (slot (sched_init procs space image) i) ≡ true → i ≡ 0
    alone zero h = refl
    alone (suc i) h = absurd (cc (nobody_else 31 i))

Reach-IsValid_from : {s u : Sched} → IsValid s → Reach s u → IsValid u
Reach-IsValid_from v here = v
Reach-IsValid_from v (next r st) = Step-IsValid st (Reach-IsValid_from v r)

-- Whatever sequence of steps the kernel takes from `sched_init` on, where operations that turn
-- interrupts on again halfway are several steps with others in between, the current slot and the boot
-- slot hold threads, no thread but the current one is in the state RUNNING, the slice lies in 1 to 5
-- ticks, and the index into the exit history stays in range.
pub Reach-IsValid :
    (procs : List Process) (space image : ℕ) (s : Sched)
    → Reach (sched_init procs space image) s
    → IsValid s
Reach-IsValid procs space image s r = Reach-IsValid_from (sched_init-IsValid procs space image) r
