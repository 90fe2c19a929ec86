-- ===== src/Pmm/Runs.antt =====
-- `pmm_alloc_frames` takes the lowest run of free frames of the length asked for.
use sifar_os.Common.{
  ℕ, zero, suc, ◌+◌, ◌-◌, ◌*◌, ◌%◌, ◌^◌, ◌<◌, ◌≤◌, ◌≡◌, ◌≢◌, refl, true, false, Option, none, some,
  arith, if◌then◌else◌, ◌⊎◌, inl, inr, leb, ltb, ◌==◌, Bool-cases, subst, ◌&&◌,
}
use sifar_os.Pmm.{
  Pmm, page_size, bit_test, take_frame, find_run, take_run, alloc_frame, alloc_frames,
}
use sifar_os.Pmm.Inv.{IsValid, take_frame-IsValid}
use sifar_os.Pmm.Bits.{get_or-set, clear-in}
use sifar_os.Pmm.Alloc.{FirstFit, alloc_frame-FirstFit, alloc_frame-IsValid}

-- The `n` frames from `s` on are free.
abbrev pub FreeRun : Pmm → ℕ → ℕ → Type 0
FreeRun p s n = (g : ℕ) → s ≤ g → g < s + n → bit_test p g ≡ false

-- What the search for `count` free frames yields.
abbrev pub LowestRun : Pmm → ℕ → Option ℕ → Type 0
LowestRun p count none = (s : ℕ) → s + count ≤ p.total_frames → ¬ FreeRun p s count
LowestRun p count (some s) =
    (s + count ≤ p.total_frames) × FreeRun p s count × ((t : ℕ) → FreeRun p t count → s ≤ t)

-- Before `frame` the search stands at the end of a free run of length `run`, too short, and no
-- run that is long enough starts before that one.
record Search (p : Pmm) (count frame run start : ℕ) : Type 0 where
  short : run < count
  place : 0 < run → start + run ≡ frame
  fits : run ≤ frame
  free : FreeRun p (frame - run) run
  lowest : (t : ℕ) → FreeRun p t count → frame - run ≤ t

Search-skip :
    (p : Pmm) (count frame run start : ℕ)
    → bit_test p frame ≡ true
    → Search p count frame run start
    → Search p count (frame + 1) 0 start
Search-skip p count frame run start taken v = record {
  short = omega (arith, v.short);
  place = λ h. absurd (omega arith);
  fits = omega arith;
  free = λ g a b. absurd (omega arith);
  lowest = λ t h. ground (arith, v.short, v.fits, v.lowest t h, h frame);
}

FreeRun-more :
    (p : Pmm) (frame run : ℕ)
    → run ≤ frame
    → bit_test p frame ≡ false
    → FreeRun p (frame - run) run
    → FreeRun p (frame - run) (run + 1)
FreeRun-more p frame run k e h g a b = elim (Bool-cases (g == frame)) [
  | inl same ↦ let s : frame ≡ g = ground arith in subst (λ x. bit_test p x ≡ false) s e
  | inr other ↦ h g a (ground arith)
]

Search-next :
    (p : Pmm) (count frame run start : ℕ)
    → bit_test p frame ≡ false
    → run + 1 ≢ count
    → Search p count frame run start
    → Search p count (frame + 1) (run + 1) (if run == 0 then frame else start)
Search-next p count frame run start e ne v =
    let s : frame + 1 - (run + 1) ≡ frame - run = omega arith in
    record {
      short = omega (arith, v.short);
      place = λ h. ground (arith, v.place);
      fits = omega (arith, v.fits);
      free = rw s (FreeRun-more p frame run v.fits e v.free);
      lowest = rw s (v.lowest);
    }

Search-done :
    (p : Pmm) (count frame run start : ℕ)
    → bit_test p frame ≡ false
    → run + 1 ≡ count
    → frame < p.total_frames
    → Search p count frame run start
    → LowestRun p count (some (if run == 0 then frame else start))
Search-done p count frame run start e d h v =
    let s : (if run == 0 then frame else start) ≡ frame - run = ground (arith, v.place, v.fits) in
    rw (s, ← d) (omega (arith, v.fits), FreeRun-more p frame run v.fits e v.free, rw d v.lowest)

find_run-LowestRun :
    (p : Pmm) (count n frame run start : ℕ)
    → frame + n ≡ p.total_frames
    → Search p count frame run start
    → LowestRun p count (find_run p count n frame run start)
unfolding find_run
find_run-LowestRun p count zero frame run start e v =
    λ s h f. omega (arith, v.short, v.fits, v.lowest s f)
find_run-LowestRun p count (suc n) frame run start e v = elim (Bool-cases (bit_test p frame)) [
  | inl taken ↦ rw taken (
      find_run-LowestRun p count n (frame + 1) 0 start (omega arith)
        (Search-skip p count frame run start taken v))
  | inr free ↦ rw free (elim (Bool-cases (run + 1 == count)) [
    | inl last ↦ rw last (Search-done p count frame run start free (ground arith) (omega arith) v)
    | inr more ↦ rw more (
        find_run-LowestRun p count n (frame + 1) (run + 1) _ (omega arith)
          (Search-next p count frame run start free (ground arith) v))
  ])
]

take_frame-bit :
    (p : Pmm) (f g : ℕ)
    → bit_test p f ≡ false
    → bit_test (take_frame p f) g ≡ (if f == g then true else bit_test p g)
take_frame-bit p f g e = get_or-set p.bitmap f g true (clear-in p.bitmap f e)

FreeRun-tail : (p : Pmm) (s n : ℕ) → FreeRun p s (suc n) → FreeRun (take_frame p s) (s + 1) n
FreeRun-tail p s n h g a b =
    ground (
      arith,
      take_frame-bit p s g (h s (omega arith) (omega arith)),
      h g (omega arith) (omega arith),
    )

-- Exactly the frames of the run are marked.
pub take_run-bit :
    (n s : ℕ) (p : Pmm) (g : ℕ)
    → FreeRun p s n
    → bit_test (take_run n s p) g ≡ (if leb s g && ltb g (s + n) then true else bit_test p g)
unfolding take_run
take_run-bit zero s p g h = ground arith
take_run-bit (suc n) s p g h = ground (
  arith,
  take_run-bit n (s + 1) (take_frame p s) g (FreeRun-tail p s n h),
  take_frame-bit p s g (h s (omega arith) (omega arith)),
)

pub take_run-IsValid :
    (n s : ℕ) (p : Pmm)
    → s + n ≤ p.total_frames
    → FreeRun p s n
    → IsValid p
    → IsValid (take_run n s p)
unfolding take_run
take_run-IsValid zero s p h f v = v
take_run-IsValid (suc n) s p h f v =
    take_run-IsValid n (s + 1) (take_frame p s) (omega arith) (FreeRun-tail p s n f)
      (take_frame-IsValid p s (omega arith) (f s (omega arith) (omega arith)) v)

total_frames-take_run : (n s : ℕ) (p : Pmm) → (take_run n s p).total_frames ≡ p.total_frames
unfolding take_run
total_frames-take_run zero s p = refl
total_frames-take_run (suc n) s p = total_frames-take_run n (s + 1) (take_frame p s)

start-Search : (p : Pmm) (count : ℕ) → 0 < count → Search p count 0 0 0
start-Search p count h = record {
  short = h;
  place = λ k. omega arith;
  fits = omega arith;
  free = λ g a b. absurd (omega arith);
  lowest = λ t f. omega arith;
}

-- What a request for a contiguous run yields: the lowest free run, all of it marked taken and no
-- other frame, or 0 and no change where the memory has no free run of that length.
abbrev pub FirstRun : Pmm → ℕ → ℕ × Pmm → Type 0
FirstRun p count (addr, q) =
    ((s : ℕ) × (s + count ≤ p.total_frames)
      × FreeRun p s count
      × ((t : ℕ) → FreeRun p t count → s ≤ t)
      × (addr ≡ s * page_size)
      × ((g : ℕ) → bit_test q g ≡ (if leb s g && ltb g (s + count) then true else bit_test p g))
      × IsValid q
      × (q.total_frames ≡ p.total_frames))
    ⊎ (((s : ℕ) → s + count ≤ p.total_frames → ¬ FreeRun p s count) × (addr ≡ 0) × (q ≡ p))

run_outcome :
    (p : Pmm) (count : ℕ) (r : Option ℕ)
    → IsValid p
    → 0 < count
    → LowestRun p count r
    → FirstRun p count
        (elim r [ none ↦ (0, p) | some s ↦ (s * page_size % 2 ^ 32, take_run count s p) ])
run_outcome p count none v k h = inr (h, refl, refl)
run_outcome p count (some s) v k (a, b, c) = inl (
  s,
  a,
  b,
  c,
  omega (arith, v.small),
  λ g. take_run-bit count s p g b,
  take_run-IsValid count s p a b v,
  total_frames-take_run count s p,
)

one_frame : (p : Pmm) (r : ℕ × Pmm) → IsValid p → FirstFit p r → IsValid r.1 → FirstRun p 1 r
one_frame p (addr, q) v (inl (f, h, e, t, a, same)) w = inl (
  f,
  omega arith,
  λ g k l. (let s : f ≡ g = omega arith in subst (λ x. bit_test p x ≡ false) s e),
  λ s r. ground (arith, t s, r s),
  a,
  λ g. rw same (ground (arith, take_frame-bit p f g e)),
  w,
  rw same,
)
one_frame p (addr, q) v (inr (t, a, same)) w = inr (λ s h r. ground (arith, t s, r s), a, same)

-- On a valid allocator a request for `count > 0` frames returns the address of the lowest run of
-- `count` free frames, marks exactly these and keeps the invariant, or there is no such run, and it
-- returns 0 and changes nothing.
pub alloc_frames-FirstRun :
    (p : Pmm) (count : ℕ) → IsValid p → 0 < count → FirstRun p count (alloc_frames p count)
unfolding alloc_frames
alloc_frames-FirstRun p count v h =
    let nz : (count == 0) ≡ false = ground arith in
    rw nz (elim (Bool-cases (count == 1)) [
      | inl one ↦
          (let e : count ≡ 1 = ground arith in
            rw one (
              rw e (
                one_frame p (alloc_frame p) v (alloc_frame-FirstFit p v)
                  (alloc_frame-IsValid p v))))
      | inr many ↦ rw many (elim (Bool-cases (ltb p.total_frames count)) [
        | inl large ↦ rw large (inr (λ s k f. ground arith, refl, refl))
        | inr small ↦ rw small (
            run_outcome p count _ v h (
              find_run-LowestRun p count p.total_frames 0 0 0 (omega arith)
                (start-Search p count h)))
      ])
    ])
