-- ===== src/Sched/Inv.antt =====
-- The invariant of the scheduler and the context switch.
use sifar_os.Common.{
  ℕ, ◌<◌, ◌≤◌, ◌≡◌, ◌≢◌, refl, Bool, true, false, Option, none, some, List, arith, inl, inr,
  if◌then◌else◌, ◌==◌, get_or, set, length, length-set, Bool-cases, not,
}
use sifar_os.Sched.Threads.{
  Thread, Sched, slot, runnable, pick_next, max_threads, quantum_ticks, exit_history_size, running,
  is_running, is_ready, set_slot, with_state,
}
use sifar_os.Sched.Switch.{
  switch_to, switch_between, change_thread, preempted, saved_image, overflowed,
}
use sifar_os.Sched.Slots.{slot-set, present}
use sifar_os.Sched.Pick.{pick_next-Picked}

abbrev pub runs : Option Thread → Bool
runs none = false
runs (some t) = is_running t.state

-- The running thread is the current one, and no other; slot 0 holds the boot thread.
pub record IsValid (s : Sched) : Type 0 where
  pub size : length s.threads ≡ max_threads
  pub here : s.current < max_threads
  pub holds : present (slot s s.current) ≡ true
  pub boot : present (slot s 0) ≡ true
  pub single : (i : ℕ) → runs (slot s i) ≡ true → i ≡ s.current
  pub slice : (1 ≤ s.slice_left) × (s.slice_left ≤ quantum_ticks)
  pub history :
      (length s.exit_history ≡ exit_history_size) × (s.exit_history_next < exit_history_size)

-- Two writes to the table, read back.
two_writes :
    (ts : List (Option Thread)) (c n : ℕ) (a b : Option Thread) (i : ℕ)
    → c < length ts
    → n < length ts
    → get_or (set (set ts c a) n b) i none
      ≡ (if n == i then b else if c == i then a else get_or ts i none)
two_writes ts c n a b i h k =
    ground (arith, length-set {0} ts c a, slot-set (set ts c a) n i b, slot-set ts c i a)

change_thread-IsValid :
    (s : Sched) (n : ℕ) (prev next : Thread)
    → IsValid s
    → n < max_threads
    → n ≢ s.current
    → slot s s.current ≡ some prev
    → slot s n ≡ some next
    → IsValid (change_thread s s.current prev n next)
unfolding change_thread
change_thread-IsValid s n prev next v h ne p q = record {
  size = ground (
    arith,
    length-set {0} (set s.threads s.current (some prev')) n (some (with_state next running)),
    length-set {0} s.threads s.current (some prev'),
    v.size,
  );
  here = h;
  holds = ground (arith, w n);
  boot = ground (arith, w 0, v.boot);
  single = λ i e. ground (arith, w i, v.single i, e);
  slice = omega arith;
  history = v.history;
}
  where
    prev' : Thread
    prev' = record (preempted prev) { fpu_image = saved_image prev.fpu_image s.cpu_fpu }

    w :
        (i : ℕ)
        → slot (change_thread s s.current prev n next) i ≡ (
            if n == i
            then some (with_state next running)
            else if s.current == i
            then some prev'
            else slot s i)
    w i =
        two_writes s.threads s.current n (some prev') (some (with_state next running)) i
          (omega (arith, v.here, v.size)) (omega (arith, v.size))

change_thread-current :
    (s : Sched) (c : ℕ) (prev : Thread) (n : ℕ) (next : Thread)
    → (change_thread s c prev n next).current ≡ n
unfolding change_thread
change_thread-current s c prev n next = refl

pub set_state-IsValid :
    (s : Sched) (i : ℕ) (t t' : Thread)
    → IsValid s
    → i < max_threads
    → slot s i ≡ some t
    → (is_running t'.state ≡ true → i ≡ s.current)
    → IsValid (set_slot s i t')
set_state-IsValid s i t t' v h e r = record {
  size = ground (arith, length-set {0} s.threads i (some t'), v.size);
  here = v.here;
  holds = ground (arith, w s.current, v.holds);
  boot = ground (arith, w 0, v.boot);
  single = λ j k. ground (arith, w j, v.single j, k);
  slice = v.slice;
  history = v.history;
}
  where
    w : (j : ℕ) → get_or (set s.threads i (some t')) j none ≡ (if i == j then some t' else slot s j)
    w j = slot-set s.threads i j (some t') (omega (arith, v.size))

-- The guard word at the low end of the stack is in place.
abbrev pub intact : Option Thread → Bool
intact none = true
intact (some t) = not (overflowed t)

-- What a switch to slot `n` does.
pub record Switched (s : Sched) (n : ℕ) (u : Sched) : Type 0 where
  pub valid : IsValid u
  pub to : u.current ≡ n
  pub kept : (i : ℕ) → i ≢ n → runnable (slot s i) ≡ true → runnable (slot u i) ≡ true
  pub enabled : u.enabled ≡ s.enabled
  pub guarded : (i : ℕ) → intact (slot s i) ≡ true → intact (slot u i) ≡ true

change_thread-kept :
    (s : Sched) (n : ℕ) (prev next : Thread)
    → IsValid s
    → n < max_threads
    → slot s s.current ≡ some prev
    → (i : ℕ) → i ≢ n
    → runnable (slot s i) ≡ true
    → runnable (slot (change_thread s s.current prev n next) i) ≡ true
unfolding change_thread
change_thread-kept s n prev next v h p i ne r = ground (
  arith,
  two_writes s.threads s.current n
      (some (record (preempted prev) { fpu_image = saved_image prev.fpu_image s.cpu_fpu }))
      (some (with_state next running)) i (omega (arith, v.here, v.size)) (omega (arith, v.size)),
)

change_thread-guarded :
    (s : Sched) (n : ℕ) (prev next : Thread)
    → IsValid s
    → n < max_threads
    → slot s s.current ≡ some prev
    → slot s n ≡ some next
    → (i : ℕ) → intact (slot s i) ≡ true
    → intact (slot (change_thread s s.current prev n next) i) ≡ true
unfolding change_thread
change_thread-guarded s n prev next v h p q i r = ground (
  arith,
  two_writes s.threads s.current n
      (some (record (preempted prev) { fpu_image = saved_image prev.fpu_image s.cpu_fpu }))
      (some (with_state next running)) i (omega (arith, v.here, v.size)) (omega (arith, v.size)),
)

change_thread-enabled :
    (s : Sched) (c : ℕ) (prev : Thread) (n : ℕ) (next : Thread)
    → (change_thread s c prev n next).enabled ≡ s.enabled
unfolding change_thread
change_thread-enabled s c prev n next = refl

switch_between-Switched :
    (s : Sched) (n : ℕ) (a b : Option Thread) (u : Sched)
    → IsValid s
    → n < max_threads
    → slot s s.current ≡ a
    → slot s n ≡ b
    → switch_between s n a b ≡ some u
    → Switched s n u
switch_between-Switched s n none b u v h p q e = absurd (cc)
switch_between-Switched s n (some prev) none u v h p q e = absurd (cc)
switch_between-Switched s n (some prev) (some next) u v h p q e =
    elim (Bool-cases (n == s.current)) [
      | inl same ↦ elim (Bool-cases (is_ready prev.state)) [
        | inl r ↦
            let eq : set_slot s s.current (with_state prev running) ≡ u = ground arith in
            rw (← eq) (record {
              valid =
                  set_state-IsValid s s.current prev (with_state prev running) v v.here p
                    (λ _. refl);
              to = ground arith;
              kept = λ i ne k. ground (
                arith,
                slot-set s.threads s.current i (some (with_state prev running))
                    (omega (arith, v.here, v.size)),
              );
              enabled = refl;
              guarded = λ i k. ground (
                arith,
                slot-set s.threads s.current i (some (with_state prev running))
                    (omega (arith, v.here, v.size)),
              );
            })
        | inr r ↦
            let eq : s ≡ u = ground arith in
            rw (← eq) (record {
              valid = v;
              to = ground arith;
              kept = λ i ne k. k;
              enabled = refl;
              guarded = λ i k. k;
            })
      ]
      | inr other ↦
          let eq : change_thread s s.current prev n next ≡ u = ground arith in
          rw (← eq) (record {
            valid = change_thread-IsValid s n prev next v h (ground arith) p q;
            to = change_thread-current s s.current prev n next;
            kept = change_thread-kept s n prev next v h p;
            enabled = change_thread-enabled s s.current prev n next;
            guarded = change_thread-guarded s n prev next v h p q;
          })
    ]

pub switch_to-Switched :
    (s : Sched) (n : ℕ) (u : Sched)
    → IsValid s
    → n < max_threads
    → switch_to s n ≡ some u
    → Switched s n u
unfolding switch_to
switch_to-Switched s n u v h e =
    switch_between-Switched s n (slot s s.current) (slot s n) u v h refl refl e

pub pick_next-lt : (s : Sched) → IsValid s → pick_next s < max_threads
pick_next-lt s v = elim (pick_next-Picked s) [
  | inl (k, a, b, c, d, e) ↦ omega arith
  | inr (a, b) ↦ ground (arith, v.here)
]

pub switch_to_total :
    (s : Sched) (n : ℕ)
    → IsValid s
    → present (slot s n) ≡ true
    → intact (slot s s.current) ≡ true
    → (u : Sched) × (switch_to s n ≡ some u)
unfolding switch_to
switch_to_total s n v h k = between (slot s s.current) (slot s n) v.holds h k
  where
    between :
        (a b : Option Thread)
        → present a ≡ true
        → present b ≡ true
        → intact a ≡ true
        → (u : Sched) × (switch_between s n a b ≡ some u)
    between none b p q r = absurd (cc)
    between (some x) none p q r = absurd (cc)
    between (some x) (some y) p q r = elim (Bool-cases (n == s.current)) [
      | inl same ↦ (
        if is_ready x.state then set_slot s s.current (with_state x running) else s,
        ground arith,
      )
      | inr other ↦ (change_thread s s.current x n y, ground arith)
    ]

pub pick_next-present : (s : Sched) → IsValid s → present (slot s (pick_next s)) ≡ true
pick_next-present s v = elim (pick_next-Picked s) [
  | inl (k, a, b, c, d, e) ↦ held (slot s (pick_next s)) d
  | inr (a, b) ↦ ground (arith, v.holds, v.boot)
]
  where
    held : (o : Option Thread) → runnable o ≡ true → present o ≡ true
    held none h = absurd (cc)
    held (some t) h = refl
