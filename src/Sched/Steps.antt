-- ===== src/Sched/Steps.antt =====
-- The steps of `thread_create`, `thread_join` and `sched_reap` keep the invariant of the scheduler.
use sifar_os.Common.{
  ℕ, suc, ◌+◌, ◌-◌, ◌%◌, ◌^◌, ◌<◌, ◌≤◌, ◌≡◌, refl, true, false, Option, none, some, List, [], ◌∷◌,
  arith, inl, inr, if◌then◌else◌, ◌==◌, get_or, set, length, length-set, Bool-cases, subst, ◌&&◌,
  ◌≢◌, not, if_elim,
}
use sifar_os.Sched.Threads.{
  Thread, Sched, slot, max_threads, is_zombie, has_tid, free_slot, find_tid, ready,
}
use sifar_os.Sched.Switch.{reapable}
use sifar_os.Sched.Lifecycle.{
  create_find, create_make, create_store, join_find, Claimed, done, waits, stray, claim, join_claim,
  reap_one, Made,
}
use sifar_os.Sched.Slots.{slot-set}
use sifar_os.Sched.Inv.{IsValid, set_state-IsValid}
use sifar_os.Sched.Ops.{Retable-IsValid}

free_slot-empty :
    (ts : List (Option Thread)) (i k : ℕ)
    → free_slot i ts ≡ some k
    → (i ≤ k) × (k < i + length ts) × (get_or ts (k - i) none ≡ none)
unfolding free_slot
free_slot-empty [] i k e = absurd (cc)
free_slot-empty (none ∷ ts) i k e =
    let q : i ≡ k = ground arith in
    let z : k - i ≡ 0 = omega arith in (omega arith, omega arith, rw z)
free_slot-empty (some t ∷ ts) i k e =
    let (a, b, c) = free_slot-empty ts (i + 1) k e in
    let z : k - i ≡ suc (k - (i + 1)) = omega arith in (omega arith, omega arith, rw z c)

-- The search finds an empty slot.
pub create_find-empty :
    (s : Sched) (k : ℕ) → IsValid s → create_find s ≡ some k → (k < max_threads) × (slot s k ≡ none)
unfolding create_find
create_find-empty s k v e =
    let (a, b, c) = free_slot-empty s.threads 0 k e in
    (
      omega (arith, b, v.size),
      (let z : k - 0 ≡ k = omega arith in subst (λ x. get_or s.threads x none ≡ none) z c),
    )

-- The store keeps the invariant wherever it goes, also to a slot that was filled since the search.
pub create_store-IsValid :
    (s : Sched) (k : ℕ) (t : Thread)
    → IsValid s
    → k < max_threads
    → t.state ≡ ready
    → IsValid (create_store s k t)
unfolding create_store
create_store-IsValid s k t v h e = record {
  size = omega (arith, length-set {0} s.threads k (some t), v.size);
  here = v.here;
  holds = ground (arith, w s.current, v.holds);
  boot = ground (arith, w 0, v.boot);
  single = λ i r. ground (arith, w i, v.single i);
  slice = v.slice;
  history = v.history;
}
  where
    w : (j : ℕ) → get_or (set s.threads k (some t)) j none ≡ (if k == j then some t else slot s j)
    w j = slot-set s.threads k j (some t) (omega (arith, v.size))

pub create_make-IsValid :
    (s : Sched) (a b c d e : ℕ) (kernel : Option ℕ)
    → IsValid s
    → IsValid (create_make s a b c d e kernel).state
unfolding create_make
create_make-IsValid s a b c d e kernel v =
    if_elim (λ (m : Made). IsValid m.state) (a == 0) _ _ (λ k. v)
      (λ k.
        if_elim (λ (m : Made). IsValid m.state) (b == 0) _ _ (λ l. v)
          (λ l. if_elim (λ (m : Made). IsValid m.state) (c == 0) _ _ (λ m. v) (λ m. numbered)))
  where
    numbered : IsValid (record s { next_tid = (s.next_tid + 1) % 2 ^ 32 })
    numbered = record {
      size = v.size;
      here = v.here;
      holds = v.holds;
      boot = v.boot;
      single = v.single;
      slice = v.slice;
      history = v.history;
    }

find_tid-below :
    (tid k i : ℕ) (ts : List (Option Thread))
    → find_tid tid k ts ≡ some i
    → (k ≤ i) × (i < k + length ts)
unfolding find_tid
find_tid-below tid k i [] e = absurd (cc)
find_tid-below tid k i (o ∷ ts) e = elim (Bool-cases (has_tid tid o)) [
  | inl same ↦ (let q : k ≡ i = ground arith in (omega arith, omega arith))
  | inr other ↦
      (let (a, b) = find_tid-below tid (k + 1) i ts (ground arith) in (omega arith, omega arith))
]

-- The search finds a slot that holds a thread of the number asked for.
pub join_find-lt : (s : Sched) (tid i : ℕ) → IsValid s → join_find s tid ≡ some i → i < max_threads
unfolding join_find
join_find-lt s tid i v e = omega (arith, (find_tid-below tid 0 i s.threads e).1, v.size)

-- The state after the claim of `thread_join`; a stray one changes no slot.
abbrev pub Claims : Sched → Claimed → Sched → Type 0
Claims s (done c u) w = u ≡ w
Claims s (waits u) w = u ≡ w
Claims s stray w = s ≡ w

pub join_claim-IsValid :
    (s u : Sched) (i : ℕ) → IsValid s → i < max_threads → Claims s (join_claim s i) u → IsValid u
unfolding join_claim
join_claim-IsValid s u i v h r = at (slot s i) refl r
  where
    at : (o : Option Thread) → slot s i ≡ o → Claims s (claim s i o) u → IsValid u
    at none e r = subst IsValid r v
    at (some t) e r = elim (Bool-cases (is_zombie t.state)) [
      | inl dead ↦
          subst IsValid (ground arith) (
            set_state-IsValid s i t (record t { detached = true }) v h e (λ k. v.single i (rw e k)))
      | inr alive ↦
          subst IsValid (ground arith) (
            set_state-IsValid s i t (record t { detached = false }) v h e
              (λ k. v.single i (rw e k)))
    ]

pub reap_one-IsValid : (s : Sched) (i : ℕ) → IsValid s → i < max_threads → IsValid (reap_one s i)
unfolding reap_one
reap_one-IsValid s i v h =
    if_elim IsValid (not (i == 0) && reapable s.current i (slot s i)) _ _ (λ e. emptied e) (λ e. v)
  where
    w : (j : ℕ) → get_or (set s.threads i none) j none ≡ (if i == j then none else slot s j)
    w j = slot-set s.threads i j none (omega (arith, v.size))

    other : (o : Option Thread) → not (i == 0) && reapable s.current i o ≡ true → i ≢ s.current
    other none e = absurd (ground arith)
    other (some t) e = ground arith

    emptied :
        not (i == 0) && reapable s.current i (slot s i) ≡ true
        → IsValid (record s { threads = set s.threads i none })
    emptied e = Retable-IsValid s (set s.threads i none) v (record {
      size = length-set {0} s.threads i none;
      holds = ground (arith, w s.current, v.holds, other (slot s i) e);
      boot = ground (arith, w 0, v.boot);
      single = λ j k. ground (arith, w j, k);
    })
