-- ===== src/Sched/Ops.antt =====
-- Every operation of the scheduler keeps the invariant.
use sifar_os.Common.{
  ℕ, zero, suc, ◌+◌, ◌-◌, ◌%◌, ◌^◌, ◌≤◌, ◌≡◌, refl, ap, Bool, true, false, Option, none, some, List,
  [], ◌∷◌, arith, inl, inr, if◌then◌else◌, ◌==◌, get_or, length, Bool-cases, Option-cases, ◌&&◌,
  ◌||◌, not, leb,
}
use sifar_os.Sched.Threads.{
  Thread, Sched, slot, pick_next, quantum_ticks, ready, is_sleeping, set_slot, with_state,
}
use sifar_os.Sched.Switch.{yield_now, sched_yield, sched_preempt, sched_tick, wake}
use sifar_os.Sched.Slots.{present}
use sifar_os.Sched.Inv.{
  IsValid, Switched, switch_to-Switched, pick_next-lt, pick_next-present, switch_to_total, intact,
  runs, set_state-IsValid,
}

-- A new table is valid if it has the same size, still holds the current and the boot thread, and
-- makes no further thread running.
pub record Retable (ts us : List (Option Thread)) (c : ℕ) : Type 0 where
  pub size : length us ≡ length ts
  pub holds : present (get_or us c none) ≡ true
  pub boot : present (get_or us 0 none) ≡ true
  pub single : (i : ℕ) → runs (get_or us i none) ≡ true → runs (get_or ts i none) ≡ true

pub Retable-IsValid :
    (s : Sched) (us : List (Option Thread))
    → IsValid s
    → Retable s.threads us s.current
    → IsValid (record s { threads = us })
Retable-IsValid s us v r = record {
  size = omega (arith, r.size, v.size);
  here = v.here;
  holds = r.holds;
  boot = r.boot;
  single = λ i e. v.single i (r.single i e);
  slice = v.slice;
  history = v.history;
}

pub yield_now-Switched :
    (s u : Sched)
    → IsValid s
    → yield_now s ≡ some u
    → Switched s (pick_next (record s { need_resched = false })) u
unfolding yield_now
yield_now-Switched s u v e =
    let t = record s { need_resched = false } in
    let w : IsValid t = record {
      size = v.size;
      here = v.here;
      holds = v.holds;
      boot = v.boot;
      single = v.single;
      slice = v.slice;
      history = v.history;
    } in
    let r = switch_to-Switched t (pick_next t) u w (pick_next-lt t w) e in
    record { valid = r.valid; to = r.to; kept = r.kept; enabled = r.enabled; guarded = r.guarded }

pub yield_now_total :
    (s : Sched)
    → IsValid s
    → intact (slot s s.current) ≡ true
    → (u : Sched) × (yield_now s ≡ some u)
unfolding yield_now
yield_now_total s v h =
    let t = record s { need_resched = false } in
    let w : IsValid t = record {
      size = v.size;
      here = v.here;
      holds = v.holds;
      boot = v.boot;
      single = v.single;
      slice = v.slice;
      history = v.history;
    } in
    switch_to_total t (pick_next t) w (pick_next-present t w) h

pub sched_yield-IsValid : (s u : Sched) → IsValid s → sched_yield s ≡ some u → IsValid u
unfolding sched_yield
sched_yield-IsValid s u v e = elim (Bool-cases s.enabled) [
  | inl on ↦ (yield_now-Switched s u v (ground arith)).valid
  | inr off ↦ (let q : s ≡ u = ground arith in rw (← q) v)
]

pub sched_preempt-IsValid : (s u : Sched) → IsValid s → sched_preempt s ≡ some u → IsValid u
unfolding sched_preempt
sched_preempt-IsValid s u v e = elim (Bool-cases (not s.enabled || not s.need_resched)) [
  | inl off ↦ (let q : s ≡ u = ground arith in rw (← q) v)
  | inr on ↦ (yield_now-Switched s u v (ground arith)).valid
]

length-wake : (now : ℕ) (ts : List (Option Thread)) → length (wake now ts) ≡ length ts
unfolding wake
length-wake now [] = refl
length-wake now (o ∷ ts) = ap suc (length-wake now ts)

-- A thread whose sleep is over becomes ready; every other thread is left alone.
pub slot-wake :
    (now : ℕ) (ts : List (Option Thread)) (i : ℕ) (t : Thread)
    → get_or ts i none ≡ some t
    → get_or (wake now ts) i none
      ≡ some (if is_sleeping t.state && leb t.wake_at_ms now then with_state t ready else t)
unfolding wake
slot-wake now [] i t e = absurd (cc)
slot-wake now (some x ∷ ts) zero t e = ground arith
slot-wake now (none ∷ ts) zero t e = absurd (cc)
slot-wake now (x ∷ ts) (suc i) t e = slot-wake now ts i t e

slot-wake-none :
    (now : ℕ) (ts : List (Option Thread)) (i : ℕ)
    → get_or ts i none ≡ none
    → get_or (wake now ts) i none ≡ none
unfolding wake
slot-wake-none now [] i e = refl
slot-wake-none now (some x ∷ ts) zero e = absurd (cc)
slot-wake-none now (none ∷ ts) zero e = refl
slot-wake-none now (x ∷ ts) (suc i) e = slot-wake-none now ts i e

wake-Retable :
    (now : ℕ) (ts : List (Option Thread)) (c : ℕ)
    → present (get_or ts c none) ≡ true
    → present (get_or ts 0 none) ≡ true
    → Retable ts (wake now ts) c
wake-Retable now ts c p q = record {
  size = length-wake now ts;
  holds = kept c p;
  boot = kept 0 q;
  single = runs_kept;
}
  where
    kept :
        (i : ℕ) → present (get_or ts i none) ≡ true → present (get_or (wake now ts) i none) ≡ true
    kept i h = elim (Option-cases (get_or ts i none)) [
      | inl e ↦ absurd (cc)
      | inr (t, e) ↦ rw (slot-wake now ts i t e)
    ]

    runs_kept : (i : ℕ) → runs (get_or (wake now ts) i none) ≡ true → runs (get_or ts i none) ≡ true
    runs_kept i h = elim (Option-cases (get_or ts i none)) [
      | inl e ↦ absurd (ground (arith, slot-wake-none now ts i e))
      | inr (t, e) ↦ ground (arith, slot-wake now ts i t e)
    ]

slices-IsValid :
    (s : Sched) (n : ℕ) (b : Bool)
    → IsValid s
    → 1 ≤ n
    → n ≤ quantum_ticks
    → IsValid (record s { slice_left = n; need_resched = b })
slices-IsValid s n b v h k = record {
  size = v.size;
  here = v.here;
  holds = v.holds;
  boot = v.boot;
  single = v.single;
  slice = (h, k);
  history = v.history;
}

charged : Sched → Thread → Sched
charged s t = set_slot s s.current (record t { cpu_ticks = (t.cpu_ticks + 1) % 2 ^ 64 })

charged-IsValid :
    (s : Sched) (t : Thread) → IsValid s → slot s s.current ≡ some t → IsValid (charged s t)
unfolding charged
charged-IsValid s t v e = set_state-IsValid s s.current t _ v v.here e (λ _. refl)

awake : Sched → ℕ → Thread → Sched
unfolding charged
awake s now t = record (charged s t) { threads = wake now (charged s t).threads }

awake-IsValid :
    (s : Sched) (now : ℕ) (t : Thread)
    → IsValid s
    → slot s s.current ≡ some t
    → IsValid (awake s now t)
unfolding awake
awake-IsValid s now t v e =
    let w = charged-IsValid s t v e in
    Retable-IsValid (charged s t) _ w
      (wake-Retable now (charged s t).threads s.current w.holds w.boot)

tick_at :
    (s : Sched) (now : ℕ) (t : Thread)
    → IsValid s
    → slot s s.current ≡ some t
    → s.enabled ≡ true
    → sched_tick s now ≡ (
        if s.slice_left - 1 == 0
        then record (awake s now t) { slice_left = quantum_ticks; need_resched = true }
        else record (awake s now t) { slice_left = s.slice_left - 1 })
unfolding sched_tick awake
tick_at s now t v e on = rw (on, e)

tick_off : (s : Sched) (now : ℕ) → s.enabled ≡ false → sched_tick s now ≡ s
unfolding sched_tick
tick_off s now off = rw off

-- The timer interrupt keeps the invariant.
pub sched_tick-IsValid : (s : Sched) (now : ℕ) → IsValid s → IsValid (sched_tick s now)
sched_tick-IsValid s now v = elim (Option-cases (slot s s.current)) [
  | inl e ↦ absurd (ground (arith, v.holds))
  | inr (t, e) ↦ elim (Bool-cases s.enabled) [
    | inl on ↦ rw (tick_at s now t v e on) (elim (Bool-cases (s.slice_left - 1 == 0)) [
      | inl last ↦ rw last (
          slices-IsValid (awake s now t) quantum_ticks true (awake-IsValid s now t v e)
            (omega arith) (omega arith))
      | inr more ↦ rw more (
          slices-IsValid (awake s now t) (s.slice_left - 1) (awake s now t).need_resched
            (awake-IsValid s now t v e) (ground arith) (omega (arith, v.slice)))
    ])
    | inr off ↦ let q : sched_tick s now ≡ s = tick_off s now off in rw q v
  ]
]
