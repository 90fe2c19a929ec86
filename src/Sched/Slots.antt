-- ===== src/Sched/Slots.antt =====
-- Facts about the thread table.
use sifar_os.Common.{
  ℕ, zero, suc, ◌<◌, ◌≡◌, refl, Bool, true, false, Option, none, some, List, [], ◌∷◌, arith,
  if◌then◌else◌, ◌==◌, get_or, set, length,
}
use sifar_os.Sched.Threads.{Thread}

pub slot-set :
    (ts : List (Option Thread)) (i j : ℕ) (o : Option Thread)
    → i < length ts
    → get_or (set ts i o) j none ≡ (if i == j then o else get_or ts j none)
slot-set [] i j o h = absurd (omega arith)
slot-set (x ∷ ts) zero zero o h = refl
slot-set (x ∷ ts) zero (suc j) o h = ground arith
slot-set (x ∷ ts) (suc i) zero o h = ground arith
slot-set (x ∷ ts) (suc i) (suc j) o h = ground (arith, slot-set ts i j o)

abbrev pub present : Option Thread → Bool
present none = false
present (some t) = true

pub present-in :
    (ts : List (Option Thread)) (i : ℕ) → present (get_or ts i none) ≡ true → i < length ts
present-in [] i h = absurd (cc)
present-in (x ∷ ts) zero h = omega arith
present-in (x ∷ ts) (suc i) h = omega (arith, present-in ts i h)
