-- ===== src/Proc/Grow.antt =====
-- `proc_sbrk` on top of `vmm_alloc_range`.
use sifar_os.Common.{
  ℕ, ◌+◌, ◌^◌, ◌<◌, ◌≤◌, ◌≡◌, ◌≢◌, refl, Bool, true, false, ◌||◌, leb, ltb, arith, if_elim,
}
use sifar_os.Paging.{Vm, user_min, user_max, align_down, translate_in}
use sifar_os.Paging.Frames.{IsSpace}
use sifar_os.Paging.Growing.{NoFrameZero}
use sifar_os.Paging.Unmapping.{meets}
use sifar_os.Paging.Allocating.{Allocates, alloc_range-Allocates}
use sifar_os.Proc.Memory.{Process, Sbrk, sbrk_grow, stack_floor, grown, refused}

-- What a request for more memory does. Where it is refused, the break and what every address reads as
-- are as before. Where it is granted, it gives the break from before, the break has moved by the
-- increment and stays below the stack, every page of the new memory is mapped, and an address whose
-- page the new memory does not meet reads as before.
pub record Extends (p : Process) (m : Vm) (increment : ℕ) (r : Sbrk) : Type 0 where
  pub refusal :
      r.result ≢ p.brk
      → (r.result ≡ 0)
        × (r.process ≡ p)
        × ((v : ℕ) → v < 2 ^ 32 → translate_in r.machine p.pd v ≡ translate_in m p.pd v)
  pub granted :
      r.result ≡ p.brk
      → (r.process.brk ≡ p.brk + increment)
        × (r.process.brk < stack_floor p)
        × (r.process.brk ≤ user_max)
  pub new_memory :
      r.result ≡ p.brk
      → (v : ℕ) → p.brk ≤ v
      → v < p.brk + increment
      → translate_in r.machine p.pd (align_down v) ≢ 0
  pub old_memory :
      r.result ≡ p.brk
      → (v : ℕ) → v < 2 ^ 32
      → meets v p.brk increment ≡ false
      → translate_in r.machine p.pd v ≡ translate_in m p.pd v

refused-Extends :
    (p : Process) (m m' : Vm) (increment : ℕ)
    → user_min ≤ p.brk
    → ((v : ℕ) → v < 2 ^ 32 → translate_in m' p.pd v ≡ translate_in m p.pd v)
    → Extends p m increment (refused p m')
refused-Extends p m m' increment h same = record {
  refusal = λ n. (refl, refl, same);
  granted = λ e. absurd (not_zero e);
  new_memory = λ e. absurd (not_zero e);
  old_memory = λ e. absurd (not_zero e);
}
  where
    not_zero : 0 ≡ p.brk → ⊥
    not_zero e = omega arith

grown-Extends :
    (p : Process) (m : Vm) (increment : ℕ) (r : Bool × Vm)
    → user_min ≤ p.brk
    → 0 < increment
    → p.brk + increment < stack_floor p
    → p.brk + increment ≤ user_max
    → Allocates m p.pd p.brk increment r
    → Extends p m increment (grown p (p.brk + increment) r)
grown-Extends p m increment (false, m') h k l b a =
    refused-Extends p m m' increment h (a.fails refl)
grown-Extends p m increment (true, m') h k l b a = record {
  refusal = λ n. absurd (n refl);
  granted = λ e. (refl, l, b);
  new_memory = λ e v c d. a.mapped refl v (omega arith) (ground arith);
  old_memory = λ e v c d. a.others refl v c (ground arith);
}

-- `proc_sbrk` of a positive increment, in a process whose space is well formed, maps no page but
-- page 0 to frame 0, and has its break in the half of the user, either refuses, and changes neither the break nor what
-- an address reads as, or grants new memory that ends below the stack and leaves the old as it was.
pub sbrk_grow-Extends :
    (p : Process) (m : Vm) (increment : ℕ)
    → IsSpace m p.pd
    → NoFrameZero m p.pd
    → user_min ≤ p.brk
    → 0 < increment
    → Extends p m increment (sbrk_grow p m increment)
unfolding sbrk_grow
sbrk_grow-Extends p m increment s z h k =
    if_elim (Extends p m increment)
      (leb (stack_floor p) (p.brk + increment) || ltb user_max (p.brk + increment)) _ _
      (λ e. refused-Extends p m m increment h (λ v l. refl))
      (λ e.
        grown-Extends p m increment _ h k (ground arith) (ground arith)
          (alloc_range-Allocates m p.pd p.brk increment 7 s z (omega arith)))
