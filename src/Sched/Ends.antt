-- ===== src/Sched/Ends.antt =====
-- Sleeping, dying and being reaped keep the invariant of the scheduler.
use sifar_os.Common.{
  ℕ, zero, suc, ◌+◌, ◌-◌, ◌%◌, ◌^◌, ◌≡◌, ◌≢◌, refl, ap, true, false, Option, none, some, List, [],
  ◌∷◌, arith, inl, inr, if◌then◌else◌, get_or, length, length-set, Bool-cases, Option-cases, sym,
  ◌∙◌,
}
use sifar_os.Sched.Threads.{
  Thread, Sched, slot, pick_next, sleeping, zombie, set_slot, remember_exit,
}
use sifar_os.Sched.Switch.{
  switch_to, sched_yield, thread_sleep_ms, thread_exit, bury, thread_kill, kill_in, reap_from,
  kill_slot, killable, has_number, reapable,
}
use sifar_os.Sched.Slots.{present}
use sifar_os.Sched.Inv.{IsValid, switch_to-Switched, pick_next-lt, runs, set_state-IsValid}
use sifar_os.Sched.Ops.{Retable-IsValid, sched_yield-IsValid}

asleep : Sched → ℕ → Thread → Sched
asleep s until t = set_slot s s.current (record t { wake_at_ms = until; state = sleeping })

asleep-IsValid :
    (s : Sched) (until : ℕ) (t : Thread)
    → IsValid s
    → slot s s.current ≡ some t
    → IsValid (asleep s until t)
unfolding asleep
asleep-IsValid s until t v e = set_state-IsValid s s.current t _ v v.here e (λ k. absurd (cc))

sleep_at :
    (s : Sched) (now ms : ℕ) (t : Thread)
    → slot s s.current ≡ some t
    → s.enabled ≡ true
    → thread_sleep_ms s now ms
      ≡ switch_to (asleep s ((now + ms) % 2 ^ 64) t) (pick_next (asleep s ((now + ms) % 2 ^ 64) t))
unfolding thread_sleep_ms asleep
sleep_at s now ms t e on = rw (on, e)

sleep_off : (s : Sched) (now ms : ℕ) → s.enabled ≡ false → thread_sleep_ms s now ms ≡ some s
unfolding thread_sleep_ms
sleep_off s now ms off = rw off

pub thread_sleep_ms-IsValid :
    (s u : Sched) (now ms : ℕ) → IsValid s → thread_sleep_ms s now ms ≡ some u → IsValid u
thread_sleep_ms-IsValid s u now ms v h = elim (Option-cases (slot s s.current)) [
  | inl e ↦ absurd (ground (arith, v.holds))
  | inr (t, e) ↦ elim (Bool-cases s.enabled) [
    | inl on ↦
        let a = asleep s ((now + ms) % 2 ^ 64) t in
        let w = asleep-IsValid s ((now + ms) % 2 ^ 64) t v e in
        (switch_to-Switched a (pick_next a) u w (pick_next-lt a w)
          (sym (sleep_at s now ms t e on) ∙ h)).valid
    | inr off ↦ (let q : s ≡ u = ground (arith, sleep_off s now ms off) in rw (← q) v)
  ]
]

remember_exit-IsValid : (s : Sched) (tid code : ℕ) → IsValid s → IsValid (remember_exit s tid code)
unfolding remember_exit
remember_exit-IsValid s tid code v = record {
  size = v.size;
  here = v.here;
  holds = v.holds;
  boot = v.boot;
  single = v.single;
  slice = v.slice;
  history = (
    omega (
      arith,
      length-set {0} s.exit_history s.exit_history_next (record { tid = tid; code = code }),
      v.history,
    ),
    omega arith,
  );
}

bury-IsValid :
    (s : Sched) (t : Thread) (code : ℕ)
    → IsValid s
    → slot s s.current ≡ some t
    → IsValid (bury s t code)
unfolding bury
bury-IsValid s t code v e =
    let w =
      set_state-IsValid s s.current t (record t { exit_code = code; state = zombie }) v v.here e
        (λ k. absurd (cc)) in
    remember_exit-IsValid _ t.tid code (record {
      size = w.size;
      here = w.here;
      holds = w.holds;
      boot = w.boot;
      single = w.single;
      slice = w.slice;
      history = w.history;
    })

pub thread_exit-IsValid :
    (s u : Sched) (code : ℕ)
    → IsValid s
    → thread_exit s code ≡ some u
    → IsValid u × (u.current ≢ s.current)
unfolding thread_exit
thread_exit-IsValid s u code v h = elim (Option-cases (slot s s.current)) [
  | inl e ↦ absurd (ground (arith, v.holds))
  | inr (t, e) ↦
      let a = bury s t code in
      let w = bury-IsValid s t code v e in
      let (ne, go) = exits h e in
      let r = switch_to-Switched a (pick_next a) u w (pick_next-lt a w) go in
      (r.valid, ground (arith, r.to))
]
  where
    exits :
        {t : Thread}
        → thread_exit s code ≡ some u
        → slot s s.current ≡ some t
        → (pick_next (bury s t code) ≢ s.current)
          × (switch_to (bury s t code) (pick_next (bury s t code)) ≡ some u)
    exits h e = ground arith

kill_in-Retable :
    (tid : ℕ) (ts us : List (Option Thread)) (c : ℕ)
    → kill_in tid ts ≡ some us
    → (length us ≡ length ts)
      × ((i : ℕ) → present (get_or us i none) ≡ present (get_or ts i none))
      × ((i : ℕ) → runs (get_or us i none) ≡ true → runs (get_or ts i none) ≡ true)
unfolding kill_in
kill_in-Retable tid [] us c e = absurd (cc)
kill_in-Retable tid (o ∷ ts) us c e = elim (Bool-cases (killable tid o)) [
  | inl hit ↦
      let q : kill_slot o ∷ ts ≡ us = ground arith in
      rw (← q) (refl, first_present o ts, first_runs o ts)
  | inr miss ↦ elim (Option-cases (kill_in tid ts)) [
    | inl stop ↦ absurd (ground arith)
    | inr (vs, go) ↦
        let q : o ∷ vs ≡ us = ground arith in
        let (a, b, d) = kill_in-Retable tid ts vs c go in
        rw (← q) (ap suc a, same_present o ts vs b, same_runs o ts vs d)
  ]
]
  where
    first_present :
        (o : Option Thread) (ts : List (Option Thread)) (i : ℕ)
        → present (get_or (kill_slot o ∷ ts) i none) ≡ present (get_or (o ∷ ts) i none)
    first_present none ts zero = refl
    first_present (some t) ts zero = refl
    first_present o ts (suc i) = refl

    first_runs :
        (o : Option Thread) (ts : List (Option Thread)) (i : ℕ)
        → runs (get_or (kill_slot o ∷ ts) i none) ≡ true
        → runs (get_or (o ∷ ts) i none) ≡ true
    first_runs none ts zero h = h
    first_runs (some t) ts zero h = absurd (cc)
    first_runs o ts (suc i) h = h

    same_present :
        (o : Option Thread) (ts vs : List (Option Thread))
        → ((i : ℕ) → present (get_or vs i none) ≡ present (get_or ts i none))
        → (i : ℕ) → present (get_or (o ∷ vs) i none) ≡ present (get_or (o ∷ ts) i none)
    same_present o ts vs h zero = refl
    same_present o ts vs h (suc i) = h i

    same_runs :
        (o : Option Thread) (ts vs : List (Option Thread))
        → ((i : ℕ) → runs (get_or vs i none) ≡ true → runs (get_or ts i none) ≡ true)
        → (i : ℕ) → runs (get_or (o ∷ vs) i none) ≡ true
        → runs (get_or (o ∷ ts) i none) ≡ true
    same_runs o ts vs h zero k = k
    same_runs o ts vs h (suc i) k = h i k

-- The first part of `thread_kill`, with interrupts off.
pub marked-IsValid :
    (s : Sched) (tid : ℕ) (us : List (Option Thread))
    → IsValid s
    → kill_in tid s.threads ≡ some us
    → IsValid (remember_exit (record s { threads = us }) tid (2 ^ 32 - 1))
marked-IsValid s tid us v hit =
    let (a, b, c) = kill_in-Retable tid s.threads us 0 hit in
    let w =
      Retable-IsValid s us v
        (record { size = a; holds = b s.current ∙ v.holds; boot = b 0 ∙ v.boot; single = c }) in
    remember_exit-IsValid (record s { threads = us }) tid (2 ^ 32 - 1) w

pub thread_kill-IsValid :
    (s u : Sched) (tid r : ℕ) → IsValid s → thread_kill s tid ≡ some (r, u) → IsValid u
unfolding thread_kill
thread_kill-IsValid s u tid r v e = elim (Option-cases (kill_in tid s.threads)) [
  | inl miss ↦ (let q : s ≡ u = ground arith in rw (← q) v)
  | inr (us, hit) ↦
      let dead = remember_exit (record s { threads = us }) tid (2 ^ 32 - 1) in
      let w = marked-IsValid s tid us v hit in
      elim (Bool-cases (has_number tid (slot dead s.current))) [
        | inl self ↦ elim (Option-cases (sched_yield dead)) [
          | inl stop ↦ absurd (ground arith)
          | inr (x, go) ↦
              (let q : x ≡ u = ground arith in rw (← q) (sched_yield-IsValid dead x w go))
        ]
        | inr other ↦ (let q : dead ≡ u = ground arith in rw (← q) w)
      ]
]

-- Reaping frees no slot but those of zombies other than the current thread.
pub reap_from-slot :
    (current i : ℕ) (ts : List (Option Thread)) (j : ℕ)
    → get_or (reap_from current i ts).0 j none
      ≡ (if reapable current (i + j) (get_or ts j none) then none else get_or ts j none)
unfolding reap_from
reap_from-slot current i [] j = refl
reap_from-slot current i (o ∷ ts) zero = let e : i + 0 ≡ i = omega arith in rw e (ground arith)
reap_from-slot current i (o ∷ ts) (suc j) =
    let e : i + suc j ≡ i + 1 + j = omega arith in
    rw e (ground (arith, reap_from-slot current (i + 1) ts j))

pub length-reap_from :
    (current i : ℕ) (ts : List (Option Thread)) → length (reap_from current i ts).0 ≡ length ts
unfolding reap_from
length-reap_from current i [] = refl
length-reap_from current i (o ∷ ts) = ground (arith, length-reap_from current (i + 1) ts)
