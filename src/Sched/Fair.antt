-- ===== src/Sched/Fair.antt =====
-- No ready thread starves.
use sifar_os.Common.{
  ℕ, zero, suc, ◌+◌, ◌-◌, ◌%◌, ◌<◌, ◌≤◌, ◌≡◌, ◌≢◌, ap, true, false, Option, none, some, arith, ◌⊎◌,
  inl, inr, ◌==◌, Bool-cases, sym, ◌∙◌,
}
use native.Mathlib.Decide.{dec_lt}
use sifar_os.Sched.Threads.{Sched, slot, max_threads, runnable, pick_next}
use sifar_os.Sched.Switch.{sched_yield, yield_now}
use sifar_os.Sched.Inv.{IsValid, Switched, intact}
use sifar_os.Sched.Pick.{Picked, pick_next-Picked}
use sifar_os.Sched.Ops.{yield_now-Switched, yield_now_total}

-- `n` calls of `sched_yield`, each by the thread that runs then.
pub yields : ℕ → Sched → Option Sched
yields zero s = some s
yields (suc n) s = elim (sched_yield s) [ none ↦ none | some u ↦ yields n u ]

-- How far slot `i` is after the current one, going round: 1 to 32.
abbrev pub ahead : Sched → ℕ → ℕ
ahead s i = (i + max_threads - s.current - 1) % max_threads + 1

-- Where a yield leaves the waiting thread of slot `i`: running, or nearer its turn.
abbrev Nearer : Sched → Sched → ℕ → Type 0
Nearer s u i = (u.current ≡ i) ⊎ ((runnable (slot u i) ≡ true) × (ahead u i < ahead s i))

at_distance :
    (s : Sched) (i : ℕ) → IsValid s → i < max_threads → (s.current + ahead s i) % max_threads ≡ i
at_distance s i v h = omega (arith, v.here)

turn :
    (c i k u : ℕ)
    → c < 32
    → i < 32
    → 1 ≤ k
    → k ≤ (i + 32 - c - 1) % 32 + 1
    → u ≡ (c + k) % 32
    → u ≢ i
    → (i + 32 - u - 1) % 32 + 1 < (i + 32 - c - 1) % 32 + 1
turn c i k u hc hi a b e ne = omega arith

not_passed :
    (s : Sched) (i k : ℕ)
    → IsValid s
    → i < max_threads
    → runnable (slot s i) ≡ true
    → (ahead s i < k → runnable (slot s ((s.current + ahead s i) % max_threads)) ≡ false)
    → k ≤ ahead s i
not_passed s i k v h r g = elim (dec_lt (ahead s i) k) [
  | yes p ↦
      absurd
        (true_not_false (sym r ∙ ap (λ x. runnable (slot s x)) (sym (at_distance s i v h)) ∙ g p))
  | no p ↦ omega arith
]
  where
    true_not_false : true ≡ false → ⊥
    true_not_false e = cc

yield-Nearer :
    (s u : Sched) (i : ℕ)
    → IsValid s
    → i < max_threads
    → runnable (slot s i) ≡ true
    → yield_now s ≡ some u
    → Nearer s u i
yield-Nearer s u i v h r e = go (pick_next-Picked (record s { need_resched = false }))
  where
    sw : Switched s (pick_next (record s { need_resched = false })) u
    sw = yield_now-Switched s u v e

    go :
        Picked (record s { need_resched = false }) (pick_next (record s { need_resched = false }))
        → Nearer s u i
    go (inl (k, a, b, c, d, f)) = elim (Bool-cases (u.current == i)) [
      | inl here ↦ inl (ground arith)
      | inr away ↦ inr (
        sw.kept i (ground (arith, sw.to)) r,
        turn s.current i k u.current v.here h a
            (not_passed s i k v h r (λ p. f (ahead s i) (omega arith) p)) (sw.to ∙ c)
            (ground arith),
      )
    ]
    go (inr (f, x)) =
        absurd (cc (f (ahead s i) (omega arith) (omega arith), at_distance s i v h, r))

-- Every stack has its guard word.
abbrev pub AreGuarded : Sched → Type 0
AreGuarded s = (i : ℕ) → intact (slot s i) ≡ true

yield_on : (s : Sched) → s.enabled ≡ true → sched_yield s ≡ yield_now s
unfolding sched_yield
yield_on s e = rw e

yields-suc :
    (n : ℕ) (s u : Sched) → s.enabled ≡ true → yield_now s ≡ some u → yields (suc n) s ≡ yields n u
unfolding yields
yields-suc n s u on e = let q : sched_yield s ≡ some u = yield_on s on ∙ e in rw (q, yields)

-- Within `d` yields slot `i` runs.
abbrev RunsWithin : ℕ → Sched → ℕ → Type 0
RunsWithin d s i = (n : ℕ) × (u : Sched) × (n ≤ d) × (yields n s ≡ some u) × (u.current ≡ i)

later :
    (d : ℕ) (s u : Sched) (i : ℕ)
    → s.enabled ≡ true
    → yield_now s ≡ some u
    → RunsWithin d u i
    → RunsWithin (suc d) s i
later d s u i on e (n, w, a, b, c) = (suc n, w, omega arith, yields-suc n s u on e ∙ b, c)

run_at_once :
    (d : ℕ) (s u : Sched) (i : ℕ)
    → s.enabled ≡ true
    → yield_now s ≡ some u
    → u.current ≡ i
    → RunsWithin (suc d) s i
unfolding yields
run_at_once d s u i on e h = (1, u, omega arith, yields-suc 0 s u on e, h)

reaches :
    (d : ℕ) (s : Sched) (i : ℕ)
    → IsValid s
    → s.enabled ≡ true
    → AreGuarded s
    → i < max_threads
    → runnable (slot s i) ≡ true
    → ahead s i ≤ d
    → RunsWithin d s i
reaches zero s i v on g h r d = absurd (omega arith)
reaches (suc m) s i v on g h r d =
    let (u, e) = yield_now_total s v (g s.current) in
    let sw = yield_now-Switched s u v e in
    elim (yield-Nearer s u i v h r e) [
      | inl here ↦ run_at_once m s u i on e here
      | inr (r', closer) ↦
          later m s u i on e
            (reaches m u i sw.valid (sw.enabled ∙ on) (λ j. sw.guarded j (g j)) h r' (omega arith))
    ]

-- Round robin starves nobody: on a valid, running scheduler whose stacks are intact, a ready
-- thread in slot `i` runs after at most `ahead s i` yields, so after at most 32, whatever the states of
-- the other threads.
pub yields-RunsWithin :
    (s : Sched) (i : ℕ)
    → IsValid s
    → s.enabled ≡ true
    → AreGuarded s
    → i < max_threads
    → runnable (slot s i) ≡ true
    → (n : ℕ) × (u : Sched) × (n ≤ max_threads) × (yields n s ≡ some u) × (u.current ≡ i)
yields-RunsWithin s i v on g h r = reaches max_threads s i v on g h r (omega arith)
