-- ===== src/Kheap/Alloc.antt =====
-- `kmalloc`: what it gives out, and its round trip with `kfree`.
use sifar_os.Common.{
  ℕ, zero, suc, ◌+◌, ◌-◌, ◌^◌, ◌<◌, ◌≤◌, ◌≡◌, ◌≢◌, refl, ap, true, false, none, some, List, arith,
  ◌==◌, if◌then◌else◌, Bool-cases, Option-cases, ◌⊎◌, inl, inr, ◌∙◌, sym, subst,
}
use sifar_os.Kheap.{
  Block, Heap, heap_base, header_size, align_up, extend_heap, place, attempts, kmalloc, kfree,
}
use sifar_os.Kheap.Chain.{IsValid, owned}
use sifar_os.Kheap.Place.{place-Placed, NoneFits, place-NoneFits}
use sifar_os.Kheap.Release.{kfree-owned}
use sifar_os.Kheap.Grow.{Same, extend_heap-Same}

-- Between `h` and `h'` the block before the payload at `p` came into use, with `got` bytes, and none else.
pub record Given (h : Heap) (size p : ℕ) (h' : Heap) : Type 0 where
  pub got : ℕ
  pub large : size ≤ got
  pub above : heap_base + header_size ≤ p
  pub inside : p + got ≤ h'.heap_end
  pub fresh : owned h.blocks (p - header_size) ≡ none
  pub others :
      (a : ℕ) → owned h'.blocks a ≡ (if a + header_size == p then some got else owned h.blocks a)

-- The two ends of an allocation: memory, or NULL, when no free block was large enough.
abbrev pub Allocated : Heap → ℕ → ℕ × Heap → Type 0
Allocated h size (p, h') =
    IsValid h'
    × (Given h size p h'
        ⊎ ((p ≡ 0) × NoneFits size h.blocks × ((a : ℕ) → owned h'.blocks a ≡ owned h.blocks a)))

placed-Allocated :
    (h : Heap) (size p : ℕ) (bs : List Block)
    → IsValid h
    → place size h.blocks ≡ some (p, bs)
    → Allocated h size (p, record h { blocks = bs })
placed-Allocated h size p bs v e =
    let (got, w) =
      place-Placed 0 heap_base h.heap_end size p h.blocks bs (omega arith) v.top v.chain e in
    (
      record { chain = w.chain; top = v.top; coalesced = w.coalesced false v.coalesced },
      inl (record {
        got = got;
        large = w.large;
        above = w.above;
        inside = w.inside;
        fresh = w.fresh;
        others = w.others;
      }),
    )

-- What an allocation from a heap `g` with the blocks of `h` in use is to `h`.
from-Same :
    (h g : Heap) (size : ℕ) (r : ℕ × Heap)
    → NoneFits size h.blocks
    → Same h g
    → Allocated g size r
    → Allocated h size r
from-Same h g size (p, h') n (v, s) (v', inl w) = (
  v',
  inl (record {
    got = w.got;
    large = w.large;
    above = w.above;
    inside = w.inside;
    fresh = sym (s (p - header_size)) ∙ w.fresh;
    others = λ a. w.others a ∙ ap (λ x. if a + header_size == p then some (w.got) else x) (s a);
  }),
)
from-Same h g size (p, h') n (v, s) (v', inr (z, m, t)) = (v', inr (z, n, λ a. t a ∙ s a))

attempts_found :
    (k size supply p : ℕ) (h : Heap) (bs : List Block)
    → place size h.blocks ≡ some (p, bs)
    → attempts (suc k) size supply h ≡ (p, record h { blocks = bs })
unfolding attempts
attempts_found k size supply p h bs e = rw (e, attempts) refl

attempts_stop :
    (k size supply : ℕ) (h : Heap)
    → place size h.blocks ≡ none
    → (extend_heap h size supply).ok ≡ false
    → attempts (suc k) size supply h ≡ (0, (extend_heap h size supply).heap)
unfolding attempts
attempts_stop k size supply h e f = rw (e, f, attempts) refl

attempts_more :
    (k size supply : ℕ) (h : Heap)
    → place size h.blocks ≡ none
    → (extend_heap h size supply).ok ≡ true
    → attempts (suc k) size supply h
      ≡ attempts k size (extend_heap h size supply).left (extend_heap h size supply).heap
unfolding attempts
attempts_more k size supply h e f = rw (e, f, attempts) refl

attempts-Allocated :
    (k size supply : ℕ) (h : Heap)
    → IsValid h
    → size ≤ 2 ^ 29
    → 0 < k
    → Allocated h size (attempts k size supply h)
unfolding attempts
attempts-Allocated zero size supply h v l p = absurd (omega arith)
attempts-Allocated (suc k) size supply h v l p = elim (Option-cases (place size h.blocks)) [
  | inr ((q, bs), found) ↦
      subst (Allocated h size) (sym (attempts_found k size supply q h bs found))
        (placed-Allocated h size q bs v found)
  | inl nothing ↦
      let n = place-NoneFits size h.blocks nothing in
      let s = extend_heap-Same h size supply v l in
      elim (Bool-cases (extend_heap h size supply).ok) [
        | inr stop ↦
            subst (Allocated h size) (sym (attempts_stop k size supply h nothing stop))
              (s.0, inr (refl, n, s.1))
        | inl more ↦ subst (Allocated h size) (sym (attempts_more k size supply h nothing more)) (
            again k n s (λ z.
              attempts-Allocated k size (extend_heap h size supply).left
                (extend_heap h size supply).heap s.0 l z))
      ]
]
  where
    again :
        (k : ℕ)
        → NoneFits size h.blocks
        → Same h (extend_heap h size supply).heap
        → (0 < k
            → Allocated
                (extend_heap h size supply).heap
                size
                (attempts k size (extend_heap h size supply).left (extend_heap h size supply).heap))
        → Allocated h size
            (attempts k size (extend_heap h size supply).left (extend_heap h size supply).heap)
    again zero n s w = (s.0, inr (refl, n, s.1))
    again (suc k) n s w =
        from-Same h (extend_heap h size supply).heap size
          (attempts (suc k) size (extend_heap h size supply).left (extend_heap h size supply).heap)
          n s (w (omega arith))

Allocated-less :
    (h : Heap) (size size' : ℕ) (r : ℕ × Heap)
    → size ≤ size'
    → Allocated h size' r
    → IsValid (r.1)
      × (Given h size r.0 r.1
          ⊎ ((r.0 ≡ 0)
              × NoneFits size' h.blocks
              × ((a : ℕ) → owned (r.1).blocks a ≡ owned h.blocks a)))
Allocated-less h size size' (p, h') l (v, inl w) = (
  v,
  inl (record {
    got = w.got;
    large = omega (arith, w.large);
    above = w.above;
    inside = w.inside;
    fresh = w.fresh;
    others = w.others;
  }),
)
Allocated-less h size size' (p, h') l (v, inr w) = (v, inr w)

-- On a valid heap a request of 1 byte to 512 MiB leaves a valid heap, however many frames can still be
-- had, and either yields memory inside the heap, of a block that was not in use, of at least the
-- size asked for, while every other block in use stays as it was; or it yields NULL, no free block
-- had the size rounded up to 8, and the blocks in use are as they were.
pub kmalloc-Given :
    (h : Heap) (size supply : ℕ)
    → IsValid h
    → 0 < size
    → size ≤ 2 ^ 29
    → IsValid (kmalloc h size supply).1
      × (Given h size (kmalloc h size supply).0 (kmalloc h size supply).1
          ⊎ (((kmalloc h size supply).0 ≡ 0)
              × NoneFits (align_up size 8) h.blocks
              × ((a : ℕ) → owned (kmalloc h size supply).1.blocks a ≡ owned h.blocks a)))
unfolding kmalloc
kmalloc-Given h size supply v p l =
    let z : (size == 0) ≡ false = ground arith in
    rw z (
      Allocated-less h size (align_up size 8) (attempts 2 (align_up size 8) supply h) (omega arith)
        (attempts-Allocated 2 (align_up size 8) supply h v (omega arith) (omega arith)))

-- What a request of 1 byte to 512 MiB from a valid heap yields, when it is not NULL, `kfree` accepts:
-- the heap is valid after it, and the blocks in use are those from before the request.
pub kfree-kmalloc :
    (h : Heap) (size supply : ℕ)
    → IsValid h
    → 0 < size
    → size ≤ 2 ^ 29
    → (kmalloc h size supply).0 ≢ 0
    → (h' : Heap) × (kfree (kmalloc h size supply).1 (kmalloc h size supply).0 ≡ some h')
      × IsValid h'
      × ((a : ℕ) → owned h'.blocks a ≡ owned h.blocks a)
kfree-kmalloc h size supply v p l ne =
    back (kmalloc h size supply) (kmalloc-Given h size supply v p l) ne
  where
    back :
        (r : ℕ × Heap)
        → IsValid r.1
          × (Given h size r.0 r.1
              ⊎ ((r.0 ≡ 0)
                  × NoneFits (align_up size 8) h.blocks
                  × ((a : ℕ) → owned (r.1).blocks a ≡ owned h.blocks a)))
        → r.0 ≢ 0
        → (h' : Heap) × (kfree r.1 r.0 ≡ some h')
          × IsValid h'
          × ((a : ℕ) → owned h'.blocks a ≡ owned h.blocks a)
    back (q, g) (w, inr (z, x, y)) ne = absurd (ne z)
    back (q, g) (w, inl k) ne =
        let e : q - header_size + header_size ≡ q = omega (arith, k.above) in
        let (h', f, w', o) =
          kfree-owned g (q - header_size) k.got w
            (ground (arith, k.others (q - header_size), k.above))
            (omega (arith, k.above, k.inside, w.top)) in
        (
          h',
          subst (λ x. kfree g x ≡ some h') e f,
          w',
          λ a. ground (arith, o a, k.others a, k.fresh, k.above),
        )
