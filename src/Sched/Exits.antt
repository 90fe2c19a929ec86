-- ===== src/Sched/Exits.antt =====
-- How long an exit code can be recalled, and what a sleep does when nothing else can run.
use sifar_os.Common.{
  ℕ, zero, suc, ◌+◌, ◌%◌, ◌^◌, ◌<◌, ◌≤◌, ◌≡◌, ◌≢◌, refl, ap, Bool, true, false, none, some, List,
  [], ◌∷◌, arith, inl, inr, if◌then◌else◌, ◌==◌, Bool-cases, sym, ◌∙◌, get_elem?, set, length,
  length-set,
}
use sifar_os.Sched.Threads.{
  Sched, Thread, ExitRecord, slot, max_threads, runnable, pick_next, remember_exit, recall_exit,
  exit_history_size, can_continue, sleeping, set_slot,
}
use sifar_os.Sched.Switch.{thread_sleep_ms, switch_to}
use sifar_os.Sched.Inv.{IsValid}
use sifar_os.Sched.Slots.{slot-set}
use sifar_os.Sched.Pick.{pick_next-Picked, NoneReady}

get-set :
    (es : List ExitRecord) (i j : ℕ) (e : ExitRecord)
    → i < length es
    → get_elem? (set es i e) j ≡ (if i == j then some e else get_elem? es j)
get-set [] i j e h = absurd (omega arith)
get-set (x ∷ es) zero zero e h = refl
get-set (x ∷ es) zero (suc j) e h = ground arith
get-set (x ∷ es) (suc i) zero e h = ground arith
get-set (x ∷ es) (suc i) (suc j) e h = ground (arith, get-set es i j e)

-- Every record of the thread has the code.
abbrev AllHave : List ExitRecord → ℕ → ℕ → Type 0
AllHave [] tid code = Unit {0}
AllHave (e ∷ es) tid code = (e.tid ≡ tid → e.code ≡ code) × AllHave es tid code

AllHave-set :
    (es : List ExitRecord) (i tid code : ℕ) (e : ExitRecord)
    → (e.tid ≡ tid → e.code ≡ code)
    → AllHave es tid code
    → AllHave (set es i e) tid code
AllHave-set [] i tid code e h a = tt
AllHave-set (x ∷ es) zero tid code e h a = (h, a.1)
AllHave-set (x ∷ es) (suc i) tid code e h a = (a.0, AllHave-set es i tid code e h a.1)

recall_found :
    (es : List ExitRecord) (p tid code : ℕ)
    → get_elem? es p ≡ some (record { tid = tid; code = code })
    → AllHave es tid code
    → recall_exit es tid ≡ some code
unfolding recall_exit
recall_found [] p tid code h a = absurd (cc)
recall_found (x ∷ es) zero tid code h a = ground arith
recall_found (x ∷ es) (suc p) tid code h a = ground (arith, recall_found es p tid code h a.1)

AllHave-unknown :
    (es : List ExitRecord) (tid code : ℕ) → recall_exit es tid ≡ none → AllHave es tid code
unfolding recall_exit
AllHave-unknown [] tid code h = tt
AllHave-unknown (x ∷ es) tid code h = elim (Bool-cases (x.tid == tid)) [
  | inl same ↦ absurd (ground arith)
  | inr other ↦ (λ e. absurd (ground arith), AllHave-unknown es tid code (ground arith))
]

-- The code of `tid` stands at index `p`, `k` places before the next write.
record Remembered (s : Sched) (p tid code k : ℕ) : Type 0 where
  size : length s.exit_history ≡ exit_history_size
  place : (p + k) % exit_history_size ≡ s.exit_history_next
  low : p < exit_history_size
  at : get_elem? s.exit_history p ≡ some (record { tid = tid; code = code })
  same : AllHave s.exit_history tid code

first-Remembered :
    (s : Sched) (tid code : ℕ)
    → IsValid s
    → recall_exit s.exit_history tid ≡ none
    → Remembered (remember_exit s tid code) s.exit_history_next tid code 1
unfolding remember_exit
first-Remembered s tid code v u = record {
  size = omega (
    arith,
    length-set {0} s.exit_history s.exit_history_next (record { tid = tid; code = code }),
    v.history,
  );
  place = refl;
  low = v.history.1;
  at = ground (
    arith,
    get-set s.exit_history s.exit_history_next s.exit_history_next
        (record { tid = tid; code = code }),
    v.history,
  );
  same =
      AllHave-set s.exit_history _ tid code _ (λ e. refl)
        (AllHave-unknown s.exit_history tid code u);
}

next-Remembered :
    (s : Sched) (p tid code k other code' : ℕ)
    → other ≢ tid
    → 0 < k
    → k < exit_history_size
    → Remembered s p tid code k
    → Remembered (remember_exit s other code') p tid code (k + 1)
unfolding remember_exit
next-Remembered s p tid code k other code' ne h l r = record {
  size = omega (
    arith,
    length-set {0} s.exit_history s.exit_history_next (record { tid = other; code = code' }),
    r.size,
  );
  place = omega (arith, r.place);
  low = r.low;
  at = ground (
    arith,
    get-set s.exit_history s.exit_history_next p (record { tid = other; code = code' }),
    r.place,
    r.size,
    r.low,
    r.at,
  );
  same = AllHave-set s.exit_history _ tid code _ (λ e. absurd (ne e)) r.same;
}

-- Later exits, oldest first.
abbrev pub remember_all : Sched → List ExitRecord → Sched
remember_all s [] = s
remember_all s (e ∷ es) = remember_all (remember_exit s e.tid e.code) es

abbrev pub AreOthers : ℕ → List ExitRecord → Type 0
AreOthers tid [] = Unit {0}
AreOthers tid (e ∷ es) = (e.tid ≢ tid) × AreOthers tid es

all-Remembered :
    (es : List ExitRecord) (s : Sched) (p tid code k : ℕ)
    → AreOthers tid es
    → 0 < k
    → k + length es ≤ exit_history_size
    → Remembered s p tid code k
    → recall_exit (remember_all s es).exit_history tid ≡ some code
all-Remembered [] s p tid code k o h l r = recall_found s.exit_history p tid code r.at r.same
all-Remembered (e ∷ es) s p tid code k (ne, o) h l r =
    all-Remembered es (remember_exit s e.tid e.code) p tid code (k + 1) o (omega arith)
      (omega arith) (next-Remembered s p tid code k e.tid e.code ne h (omega arith) r)

-- The exit code of a thread that had no record before is still recalled after up to 31 exits of
-- other threads.
pub recall_exit-remember_all :
    (s : Sched) (tid code : ℕ) (es : List ExitRecord)
    → IsValid s
    → recall_exit s.exit_history tid ≡ none
    → AreOthers tid es
    → length es < exit_history_size
    → recall_exit (remember_all (remember_exit s tid code) es).exit_history tid ≡ some code
recall_exit-remember_all s tid code es v u o l =
    all-Remembered es (remember_exit s tid code) s.exit_history_next tid code 1 o (omega arith)
      (omega arith) (first-Remembered s tid code v u)

abbrev pub dozing : Sched → ℕ → Thread → Sched
dozing s until t = set_slot s s.current (record t { wake_at_ms = until; state = sleeping })

doze-slot :
    (s : Sched) (until i : ℕ) (t : Thread)
    → IsValid s
    → slot (dozing s until t) i ≡ (
        if s.current == i
        then some (record t { wake_at_ms = until; state = sleeping })
        else slot s i)
doze-slot s until i t v = slot-set s.threads s.current i _ (omega (arith, v.here, v.size))

pick_nobody :
    (s : Sched)
    → s.current ≡ 0
    → runnable (slot s 0) ≡ false
    → can_continue (slot s 0) ≡ false
    → NoneReady s 0 1 max_threads
    → pick_next s ≡ 0
pick_nobody s z r c none_ready = elim (pick_next-Picked s) [
  | inl (k, a, b, e, d, f) ↦ elim (Bool-cases (k == max_threads)) [
    | inl whole ↦ ground arith
    | inr part ↦ absurd (
        runs_and_not (none_ready k a (ground arith))
          (sym (ap (λ x. runnable (slot s x)) (e ∙ ap (λ x. (x + k) % max_threads) z)) ∙ d))
  ]
  | inr (f, e) ↦ ground (arith, c)
]
  where
    runs_and_not : {b : Bool} → b ≡ false → b ≡ true → ⊥
    runs_and_not p q = cc

-- When thread 0 goes to sleep and no other thread is ready, the call returns at once, at any time
-- and for any delay: thread 0 is still the current thread, and is marked as sleeping while it runs.
pub thread_sleep_ms_returns :
    (s : Sched) (now ms : ℕ) (t : Thread)
    → IsValid s
    → s.enabled ≡ true
    → s.current ≡ 0
    → slot s 0 ≡ some t
    → ((i : ℕ) → i ≢ 0 → runnable (slot s i) ≡ false)
    → thread_sleep_ms s now ms ≡ some (dozing s ((now + ms) % 2 ^ 64) t)
unfolding thread_sleep_ms switch_to
thread_sleep_ms_returns s now ms t v on z e quiet =
    let u = dozing s ((now + ms) % 2 ^ 64) t in
    let d : (i : ℕ)
        → slot u i ≡ (
            if s.current == i
            then some (record t { wake_at_ms = (now + ms) % 2 ^ 64; state = sleeping })
            else slot s i) =
      λ i. doze-slot s ((now + ms) % 2 ^ 64) i t v in
    let p : pick_next u ≡ 0 =
      pick_nobody u z (ground (arith, d 0)) (ground (arith, d 0))
        (λ k a b. ground (arith, d ((0 + k) % max_threads), quiet ((0 + k) % max_threads))) in
    ground (arith, p, d 0)
