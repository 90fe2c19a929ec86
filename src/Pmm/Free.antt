-- ===== src/Pmm/Free.antt =====
-- Giving frames back: `pmm_free_frame` and `pmm_free_contiguous`.
use sifar_os.Common.{
  ℕ, zero, suc, ◌+◌, ◌*◌, ◌/◌, ◌%◌, ◌^◌, ◌<◌, ◌≤◌, ◌≡◌, ◌≢◌, true, false, arith, if◌then◌else◌, ◌⊎◌,
  inl, inr, leb, ltb, ◌==◌, subst, ◌&&◌, Option-cases, refl, sym, ap, ◌∙◌, Bool, List, [], ◌∷◌,
  length, get_or,
}
use sifar_os.Pmm.{
  Pmm, page_size, bit_test, take_frame, free_frame, free_loop, free_contiguous, free_frames,
  alloc_frames, alloc_frame, take_run, find_run,
}
use sifar_os.Pmm.Inv.{IsValid, free_frame-IsValid}
use sifar_os.Pmm.Bits.{get_or-set, clear-in, set-set, count_set, count_set-le}
use sifar_os.Pmm.Runs.{FirstRun, alloc_frames-FirstRun}

pub free_frame-bit :
    (p : Pmm) (f g : ℕ)
    → IsValid p
    → f < p.total_frames
    → bit_test (free_frame p (f * page_size)) g ≡ (if f == g then false else bit_test p g)
unfolding free_frame
free_frame-bit p f g v h =
    let e : f * page_size / page_size ≡ f = omega arith in
    let m : f * page_size % page_size ≡ 0 = omega arith in
    rw (e, m) (ground (arith, get_or-set p.bitmap f g false, v.size, v.words))

-- An address that is not page aligned, or that is past the managed frames, or whose frame is
-- already free, changes nothing.
pub free_frame_ignored :
    (p : Pmm) (addr : ℕ)
    → (addr % page_size ≢ 0)
      ⊎ ((p.total_frames ≤ addr / page_size) ⊎ (bit_test p (addr / page_size) ≡ false))
    → free_frame p addr ≡ p
unfolding free_frame
free_frame_ignored p addr h = ground arith

pub total_frames-free_frame :
    (p : Pmm) (addr : ℕ) → (free_frame p addr).total_frames ≡ p.total_frames
unfolding free_frame
total_frames-free_frame p addr = ground arith

-- Freeing twice is freeing once.
pub free_frame_twice :
    (p : Pmm) (addr : ℕ) → IsValid p → free_frame (free_frame p addr) addr ≡ free_frame p addr
unfolding free_frame
free_frame_twice p addr v =
    ground (arith, get_or-set p.bitmap (addr / page_size) (addr / page_size) false, v.size, v.words)

pub free_loop-bit :
    (n f i : ℕ) (p : Pmm) (g : ℕ)
    → IsValid p
    → f + i + n ≤ p.total_frames
    → bit_test (free_loop n (f * page_size) i p) g
      ≡ (if leb (f + i) g && ltb g (f + i + n) then false else bit_test p g)
unfolding free_loop
free_loop-bit zero f i p g v h = ground arith
free_loop-bit (suc n) f i p g v h =
    let e : (f * page_size + i * page_size) % 2 ^ 32 ≡ (f + i) * page_size =
      omega (arith, v.small) in
    rw (e, free_loop)
      (ground (
        arith,
        free_loop-bit n f (i + 1) (free_frame p ((f + i) * page_size)) g (free_frame-IsValid p _ v)
            (rw total_frames-free_frame (omega arith)),
        free_frame-bit p (f + i) g v (omega arith),
      ))

pub free_loop-IsValid : (n base i : ℕ) (p : Pmm) → IsValid p → IsValid (free_loop n base i p)
unfolding free_loop
free_loop-IsValid zero base i p v = v
free_loop-IsValid (suc n) base i p v =
    free_loop-IsValid n base (i + 1) (free_frame p ((base + i * page_size) % 2 ^ 32))
      (free_frame-IsValid p _ v)

-- Freeing a run of frames clears exactly their bits and keeps the invariant.
pub free_contiguous-bit :
    (p : Pmm) (f n : ℕ)
    → IsValid p
    → f + n ≤ p.total_frames
    → IsValid (free_contiguous p (f * page_size) n)
      × ((g : ℕ)
          → bit_test (free_contiguous p (f * page_size) n) g
            ≡ (if leb f g && ltb g (f + n) then false else bit_test p g))
unfolding free_contiguous
free_contiguous-bit p f n v h =
    let m : f * page_size % page_size ≡ 0 = omega arith in
    rw m (
      free_loop-IsValid n (f * page_size) 0 p v,
      λ g. ground (arith, free_loop-bit n f 0 p g v (omega arith)),
    )

total_bytes-free_loop :
    (n base i : ℕ) (p : Pmm)
    → ((free_loop n base i p).total_frames ≡ p.total_frames)
      × ((free_loop n base i p).total_bytes ≡ p.total_bytes)
unfolding free_loop free_frame
total_bytes-free_loop zero base i p = (refl, refl)
total_bytes-free_loop (suc n) base i p =
    let (a, b) =
      total_bytes-free_loop n base (i + 1) (free_frame p ((base + i * page_size) % 2 ^ 32)) in
    (ground (arith, a), ground (arith, b))

total_bytes-free_contiguous :
    (p : Pmm) (base n : ℕ)
    → ((free_contiguous p base n).total_frames ≡ p.total_frames)
      × ((free_contiguous p base n).total_bytes ≡ p.total_bytes)
unfolding free_contiguous
total_bytes-free_contiguous p base n =
    let (a, b) = total_bytes-free_loop n base 0 p in (ground (arith, a), ground (arith, b))

total_bytes-take_run : (n s : ℕ) (p : Pmm) → (take_run n s p).total_bytes ≡ p.total_bytes
unfolding take_run
total_bytes-take_run zero s p = refl
total_bytes-take_run (suc n) s p = total_bytes-take_run n (s + 1) (take_frame p s)

total_bytes-alloc_frames :
    (p : Pmm) (count : ℕ) → (alloc_frames p count).1.total_bytes ≡ p.total_bytes
unfolding alloc_frames alloc_frame
total_bytes-alloc_frames p count = elim (Option-cases (find_run p count p.total_frames 0 0 0)) [
  | inl e ↦ ground arith
  | inr (s, e) ↦ ground (arith, total_bytes-take_run count s p)
]

bits_same :
    (xs ys : List Bool)
    → length xs ≡ length ys
    → ((i : ℕ) → get_or xs i true ≡ get_or ys i true)
    → xs ≡ ys
bits_same [] [] e h = refl
bits_same [] (y ∷ ys) e h = absurd (omega arith)
bits_same (x ∷ xs) [] e h = absurd (omega arith)
bits_same (x ∷ xs) (y ∷ ys) e h =
    ap (λ z. z ∷ xs) (h 0) ∙ ap (λ zs. y ∷ zs) (bits_same xs ys (omega arith) (λ i. h (suc i)))

-- Of a valid allocator, the memory's size and the bits are all there is to know.
bits-determine :
    (p q : Pmm)
    → IsValid p
    → IsValid q
    → p.total_frames ≡ q.total_frames
    → p.total_bytes ≡ q.total_bytes
    → ((g : ℕ) → bit_test p g ≡ bit_test q g)
    → p ≡ q
bits-determine p q v w a b h =
    let e : p.bitmap ≡ q.bitmap =
      bits_same p.bitmap q.bitmap (omega (arith, v.size, w.size, v.words, w.words)) h in
    let n : p.bitmap_words ≡ q.bitmap_words = omega (arith, v.words, w.words) in
    let u : p.used_frames ≡ q.used_frames =
      v.used
      ∙ (ap (λ x. count_set x p.bitmap) a ∙ (ap (count_set q.total_frames) e ∙ sym w.used)) in
    λ i. record {
      bitmap = e i;
      bitmap_words = n i;
      total_frames = a i;
      used_frames = u i;
      total_bytes = b i;
    }

-- On a valid state a request for `count > 0` frames that returned another address than 0 is undone by
-- freeing that run: the whole state of the allocator is the one from before.
pub free_contiguous-alloc_frames :
    (p : Pmm) (count addr : ℕ) (q : Pmm)
    → IsValid p
    → 0 < count
    → alloc_frames p count ≡ (addr, q)
    → addr ≢ 0
    → free_contiguous q addr count ≡ p
free_contiguous-alloc_frames p count addr q v h e nz =
    give_back (subst (FirstRun p count) e (alloc_frames-FirstRun p count v h))
      (sym (ap (λ (r : ℕ × Pmm). r.1.total_bytes) e) ∙ total_bytes-alloc_frames p count)
  where
    give_back :
        FirstRun p count (addr, q)
        → q.total_bytes ≡ p.total_bytes
        → free_contiguous q addr count ≡ p
    give_back (inr (a, b, c)) k = absurd (nz b)
    give_back (inl (s, a, b, c, d, m, w, t)) k = rw d (
        let (x, y) = free_contiguous-bit q s count w (omega arith) in
        let (f, g) = total_bytes-free_contiguous q (s * page_size) count in
        bits-determine _ p x v (f ∙ t) (g ∙ k) (λ i. ground (arith, y i, m i, b i)))

-- The free frames that the allocator reports are those it has not handed out.
pub free_frames-count : (p : Pmm) → IsValid p → free_frames p + p.used_frames ≡ p.total_frames
unfolding free_frames
free_frames-count p v = ground (arith, v.small, v.used, count_set-le p.total_frames p.bitmap)

-- A frame that was free, taken by `bit_set` and freed again leaves the allocator as it was.
pub free_frame-take_frame :
    (p : Pmm) (f : ℕ)
    → IsValid p
    → f < p.total_frames
    → bit_test p f ≡ false
    → free_frame (take_frame p f) (f * page_size) ≡ p
unfolding free_frame
free_frame-take_frame p f v h e =
    let a : f * page_size / page_size ≡ f = omega arith in
    let m : f * page_size % page_size ≡ 0 = omega arith in
    rw (a, m)
      (ground (
        arith,
        get_or-set p.bitmap f f true,
        set-set p.bitmap f false,
        clear-in p.bitmap f e,
        v.small,
        v.used,
        count_set-le p.total_frames p.bitmap,
      ))
