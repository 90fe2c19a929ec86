-- ===== src/Sched/Pick.antt =====
-- `pick_next`: the next ready thread in slot order, from the slot after the current one.
use sifar_os.Common.{
  ℕ, zero, suc, ◌+◌, ◌%◌, ◌<◌, ◌≤◌, ◌≡◌, refl, true, false, Option, none, some, arith, ◌⊎◌, inl,
  inr, if◌then◌else◌, ◌==◌, Bool-cases, subst,
}
use sifar_os.Sched.Threads.{Sched, slot, runnable, next_ready, pick_next, can_continue, max_threads}

-- No slot at a distance of `lo` up to `hi` after `start` holds a ready thread.
abbrev pub NoneReady : Sched → ℕ → ℕ → ℕ → Type 0
NoneReady s start lo hi =
    (k : ℕ) → lo ≤ k → k < hi → runnable (slot s ((start + k) % max_threads)) ≡ false

abbrev Nearest : Sched → ℕ → ℕ → ℕ → Option ℕ → Type 0
Nearest s start lo hi none = NoneReady s start lo hi
Nearest s start lo hi (some i) =
    (k : ℕ) × (lo ≤ k)
    × (k < hi)
    × (i ≡ (start + k) % max_threads)
    × (runnable (slot s i) ≡ true)
    × NoneReady s start lo k

NoneReady-one :
    (s : Sched) (start step hi : ℕ)
    → runnable (slot s ((start + step) % max_threads)) ≡ false
    → NoneReady s start (step + 1) hi
    → NoneReady s start step hi
NoneReady-one s start step hi e h k a b = elim (Bool-cases (step == k)) [
  | inl same ↦
      (let q : step ≡ k = ground arith in
        subst (λ x. runnable (slot s ((start + x) % max_threads)) ≡ false) q e)
  | inr other ↦ h k (ground arith) b
]

Nearest-skip :
    (s : Sched) (start step hi : ℕ) (r : Option ℕ)
    → runnable (slot s ((start + step) % max_threads)) ≡ false
    → Nearest s start (step + 1) hi r
    → Nearest s start step hi r
Nearest-skip s start step hi none e h = NoneReady-one s start step hi e h
Nearest-skip s start step hi (some i) e (k, a, b, c, d, h) =
    (k, omega arith, b, c, d, NoneReady-one s start step k e h)

next_ready-Nearest :
    (s : Sched) (start n step hi : ℕ)
    → step + n ≡ hi
    → Nearest s start step hi (next_ready s start n step)
unfolding next_ready
next_ready-Nearest s start zero step hi e = λ k a b. absurd (omega arith)
next_ready-Nearest s start (suc n) step hi e =
    elim (Bool-cases (runnable (slot s ((start + step) % max_threads)))) [
      | inl go ↦ rw go (step, omega arith, omega arith, refl, go, λ k a b. absurd (omega arith))
      | inr no_go ↦ rw no_go (
          Nearest-skip s start step hi _ no_go
            (next_ready-Nearest s start n (step + 1) hi (omega arith)))
    ]

-- What `pick_next` may answer.
abbrev pub Picked : Sched → ℕ → Type 0
Picked s i =
    ((k : ℕ) × (1 ≤ k)
      × (k < max_threads + 1)
      × (i ≡ (s.current + k) % max_threads)
      × (runnable (slot s i) ≡ true)
      × NoneReady s s.current 1 k)
    ⊎ (NoneReady s s.current 1 (max_threads + 1)
        × (i ≡ (if can_continue (slot s s.current) then s.current else 0)))

picked :
    (s : Sched) (r : Option ℕ)
    → Nearest s s.current 1 (max_threads + 1) r
    → Picked s
        (elim r [ some i ↦ i | none ↦ if can_continue (slot s s.current) then s.current else 0 ])
picked s none h = inr (h, refl)
picked s (some i) h = inl h

-- `pick_next` is round robin: it picks the ready thread in the first slot after the current one,
-- going round; with none ready it stays with the current thread if that can go on, and falls back
-- to slot 0 if not.
pub pick_next-Picked : (s : Sched) → Picked s (pick_next s)
unfolding pick_next
pick_next-Picked s =
    picked s _ (next_ready-Nearest s s.current max_threads 1 (max_threads + 1) refl)
