-- ===== src/Sched/Tests.antt =====
-- Runs of the scheduler, and the theorems at a scheduler with one thread beside the boot thread.
use sifar_os.Common.{
  ℕ, zero, suc, ◌≤◌, ◌≡◌, ◌≢◌, ◌==◌, if◌then◌else◌, not, ◌&&◌, refl, true, false, none, some, [],
  arith, replicate, get_or,
}
use sifar_os.Sched.Threads.{
  Sched, Thread, slot, free_slot, pick_next, next_ready, max_threads, runnable, running,
}
use sifar_os.Sched.Switch.{thread_sleep_ms, sched_tick}
use sifar_os.Sched.Lifecycle.{
  sched_init, create_find, create_make, create_store, fresh_thread, sched_reap,
}
use sifar_os.Sched.Inv.{IsValid, intact}
use sifar_os.Sched.Pick.{Picked, pick_next-Picked}
use sifar_os.Sched.Reach.{
  Reach, here, next, makes, stores, ticks, Reach-IsValid, is_finished, sched_reap-slot,
}
use sifar_os.Sched.Fair.{AreGuarded, yields, yields-RunsWithin}
use sifar_os.Sched.Exits.{thread_sleep_ms_returns, dozing}

abbrev start : Sched
start = sched_init [] 7 0

abbrev worker : Thread
worker = fresh_thread start 4096 32768 0 none

-- Slot 1 is found, the thread is made, and a tick comes before it is stored.
two-Reach :
    Reach start
      (create_store (sched_tick (create_make start 1 4096 3 32768 0 none).state 10) 1 worker)
two-Reach =
    next (next (next here (makes 1 4096 3 32768 0 none)) (ticks 10))
      (stores 1 worker (omega arith) refl)

slot_one_is_found : create_find start ≡ some 1
unfolding create_find free_slot sched_init
slot_one_is_found = refl

worker_is_made : (create_make start 1 4096 3 32768 0 none).thread ≡ some worker
unfolding create_make
worker_is_made = refl

Reach-IsValid_example :
    IsValid (create_store (sched_tick (create_make start 1 4096 3 32768 0 none).state 10) 1 worker)
Reach-IsValid_example = Reach-IsValid [] 7 0 _ two-Reach

abbrev two : Sched
two = create_store (create_make start 1 4096 3 32768 0 none).state 1 worker

start-IsValid : IsValid start
start-IsValid = Reach-IsValid [] 7 0 start here

two-IsValid : IsValid two
two-IsValid =
    Reach-IsValid [] 7 0 two
      (next (next here (makes 1 4096 3 32768 0 none)) (stores 1 worker (omega arith) refl))

two-AreGuarded : AreGuarded two
unfolding sched_init create_make create_store
two-AreGuarded i = guarded i
  where
    no_thread : (n i : ℕ) → intact (get_or (replicate n none) i none) ≡ true
    no_thread zero i = refl
    no_thread (suc n) zero = refl
    no_thread (suc n) (suc i) = no_thread n i

    guarded : (i : ℕ) → intact (slot two i) ≡ true
    guarded zero = refl
    guarded (suc zero) = refl
    guarded (suc (suc i)) = no_thread 30 i

picks_one : pick_next two ≡ 1
unfolding sched_init create_make create_store pick_next next_ready
picks_one = refl

pick_next-Picked_example : Picked two (pick_next two)
pick_next-Picked_example = pick_next-Picked two

yields-RunsWithin_example :
    (n : ℕ) × (u : Sched) × (n ≤ max_threads) × (yields n two ≡ some u) × (u.current ≡ 1)
unfolding sched_init create_make create_store
yields-RunsWithin_example =
    yields-RunsWithin two 1 two-IsValid refl two-AreGuarded (omega arith) refl

sched_reap-slot_example :
    IsValid (sched_reap two).0
    × ((j : ℕ)
        → slot (sched_reap two).0 j ≡ (
            if not (j == 0) && (not (j == two.current) && is_finished (slot two j))
            then none
            else slot two j))
sched_reap-slot_example = sched_reap-slot two two-IsValid

alone : (i : ℕ) → i ≢ 0 → runnable (slot start i) ≡ false
unfolding sched_init
alone zero h = absurd (h refl)
alone (suc i) h = nobody 31 i
  where
    nobody : (n i : ℕ) → runnable (get_or (replicate n none) i none) ≡ false
    nobody zero i = refl
    nobody (suc n) zero = refl
    nobody (suc n) (suc i) = nobody n i

abbrev boot_thread : Thread
boot_thread = record {
  stack_base = 0;
  stack_size = 0;
  guard_word = 0;
  tid = 0;
  state = running;
  wake_at_ms = 0;
  cpu_ticks = 0;
  exit_code = 0;
  detached = false;
  proc = none;
  fpu_image = some 0;
  space = some 7;
}

-- The boot thread is alone and asks for ten milliseconds.
thread_sleep_ms_returns_example :
    thread_sleep_ms (record start { enabled = true }) 100 10
    ≡ some (dozing (record start { enabled = true }) 110 boot_thread)
unfolding sched_init
thread_sleep_ms_returns_example =
    thread_sleep_ms_returns (record start { enabled = true }) 100 10 boot_thread
      (let v = start-IsValid in
        record {
          size = v.size;
          here = v.here;
          holds = v.holds;
          boot = v.boot;
          single = v.single;
          slice = v.slice;
          history = v.history;
        })
      refl refl refl alone
