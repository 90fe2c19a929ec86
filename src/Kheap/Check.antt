-- ===== src/Kheap/Check.antt =====
-- The heap's own check, over every sequence of calls, and a request that is too large for it.
use sifar_os.Common.{
  ℕ, zero, suc, ◌+◌, ◌-◌, ◌*◌, ◌/◌, ◌%◌, ◌^◌, ◌<◌, ◌≤◌, ◌≡◌, refl, true, false, some, List, [], ◌∷◌,
  arith, ltb, Bool-cases, inl, inr, sym, subst,
}
use sifar_os.Kheap.{
  Block, Heap, Grown, heap_base, heap_max, header_size, page_size, align_up, grow_loop, grow,
  kheap_init, kmalloc, kfree, check_blocks, has_prev, free_block,
}
use sifar_os.Kheap.Chain.{IsValid, Chain, Chain-below}
use sifar_os.Kheap.Alloc.{kmalloc-Given}
use sifar_os.Kheap.Release.{kfree-IsValid}

check_blocks-Chain :
    (prev low end : ℕ) (bs : List Block) → Chain prev low bs end → check_blocks end bs ≡ 0
unfolding check_blocks
check_blocks-Chain prev low end [] c = refl
check_blocks-Chain prev low end (b ∷ bs) (l, m, q, c) =
    let low_end : b.at + header_size + b.size ≤ end =
      Chain-below b.at (b.at + header_size + b.size) end bs c in
    ground (
      arith,
      check_blocks-Chain b.at (b.at + header_size + b.size) end bs c,
      linked b (b.at + header_size + b.size) end bs c,
    )
  where
    linked :
        (b : Block) (low end : ℕ) (bs : List Block) → Chain b.at low bs end → has_prev b bs ≡ true
    linked b low end [] c = refl
    linked b low end (d ∷ bs) (l, m, q, c) = ground arith

grow_loop-full :
    (n supply : ℕ) (h : Heap)
    → h.heap_end + n * page_size < 2 ^ 32
    → h.heap_bytes + n * page_size < 2 ^ 32
    → (grow_loop n supply h).ok ≡ true
    → ((grow_loop n supply h).heap.heap_end ≡ h.heap_end + n * page_size)
      × ((grow_loop n supply h).heap.heap_bytes ≡ h.heap_bytes + n * page_size)
unfolding grow_loop
grow_loop-full zero supply h a b e = (omega arith, omega arith)
grow_loop-full (suc n) zero h a b e = absurd (clash e)
  where
    clash : false ≡ true → ⊥
    clash e = cc
grow_loop-full (suc n) (suc supply) h a b e =
    let (x, y) =
      grow_loop-full n supply
        (record h {
          heap_end = (h.heap_end + page_size) % 2 ^ 32;
          heap_bytes = (h.heap_bytes + page_size) % 2 ^ 32;
        })
        (omega arith) (omega arith) e in
    (omega (arith, x), omega (arith, y))

kheap_init-IsValid : (supply : ℕ) (h : Heap) → kheap_init supply ≡ some h → IsValid h
unfolding kheap_init grow
kheap_init-IsValid supply h e = elim (Bool-cases (grow_loop 16 supply empty).ok) [
  | inl good ↦
      let (x, y) = grow_loop-full 16 supply empty (omega arith) (omega arith) good in
      let r : whole (grow_loop 16 supply empty) ≡ h = ground arith in
      subst IsValid r (record {
        chain = (omega arith, refl, refl, omega (arith, x, y));
        top = omega (arith, x);
        coalesced = (λ k. absurd (cc), tt);
      })
  | inr bad ↦ absurd (ground arith)
]
  where
    empty : Heap
    empty = record { blocks = []; heap_end = heap_base; heap_bytes = 0 }

    whole : Grown → Heap
    whole g = record (g.heap) {
      blocks = free_block heap_base ((g.heap.heap_bytes + 2 ^ 32 - header_size) % 2 ^ 32) 0 ∷ [];
    }

-- One call of the heap: a request of at most 512 MiB, or `kfree` of any pointer that does not panic.
pub data Step (h : Heap) : Heap → Type 0 where
  allocates : (size supply : ℕ) → size ≤ 2 ^ 29 → Step h (kmalloc h size supply).1
  frees : {h' : Heap} (ptr : ℕ) → kfree h ptr ≡ some h' → Step h h'

pub data Reach (h : Heap) : Heap → Type 0 where
  here : Reach h h
  next : {g k : Heap} → Reach h g → Step g k → Reach h k

kmalloc_nothing : (h : Heap) (supply : ℕ) → (kmalloc h 0 supply).1 ≡ h
unfolding kmalloc
kmalloc_nothing h supply = refl

Step-IsValid : {g k : Heap} → Step g k → IsValid g → IsValid k
Step-IsValid (allocates zero supply l) v = subst IsValid (sym (kmalloc_nothing _ supply)) v
Step-IsValid (allocates (suc n) supply l) v = (kmalloc-Given _ (suc n) supply v (omega arith) l).0
Step-IsValid (frees ptr e) v = kfree-IsValid _ _ ptr v e

Reach-IsValid_from : {h k : Heap} → IsValid h → Reach h k → IsValid k
Reach-IsValid_from v here = v
Reach-IsValid_from v (next r s) = Step-IsValid s (Reach-IsValid_from v r)

-- After `kheap_init` and any sequence of calls of `kmalloc`, each for at most 512 MiB, and of `kfree`,
-- the heap is valid, its blocks in order without overlap and no two free ones neighbours, and
-- `kheap_check` answers 0.
pub check_blocks-Reach :
    (supply : ℕ) (h k : Heap)
    → kheap_init supply ≡ some h
    → Reach h k
    → IsValid k × (check_blocks k.heap_end k.blocks ≡ 0)
check_blocks-Reach supply h k e r =
    let v = Reach-IsValid_from (kheap_init-IsValid supply h e) r in
    (v, check_blocks-Chain 0 heap_base k.heap_end k.blocks v.chain)

grow_loop-short :
    (n supply : ℕ) (h : Heap)
    → supply < n
    → h.heap_end + supply * page_size < 2 ^ 32
    → ((grow_loop n supply h).ok ≡ false)
      × ((grow_loop n supply h).left ≡ 0)
      × ((grow_loop n supply h).heap.heap_end ≡ h.heap_end + supply * page_size)
unfolding grow_loop
grow_loop-short zero supply h l b = absurd (omega arith)
grow_loop-short (suc n) zero h l b = (refl, refl, omega arith)
grow_loop-short (suc n) (suc supply) h l b =
    let (x, y, z) =
      grow_loop-short n supply
        (record h {
          heap_end = (h.heap_end + page_size) % 2 ^ 32;
          heap_bytes = (h.heap_bytes + page_size) % 2 ^ 32;
        })
        (omega arith) (omega arith) in
    (x, y, omega (arith, z))

-- When the request reaches past the end of the address space, the sum that `grow` compares with the
-- end of the heap's window wraps: with more than 2 ^ 14 frames to be had, and no more than fit
-- below 2 ^ 32, `grow` uses up every one of them, fails, and leaves the heap's end outside its window.
pub grow_past_window :
    (h : Heap) (bytes supply : ℕ)
    → heap_base ≤ h.heap_end
    → h.heap_end ≤ heap_max
    → 2 ^ 32 ≤ h.heap_end + bytes
    → bytes ≤ 2 ^ 32 - page_size
    → 2 ^ 14 < supply
    → h.heap_end + supply * page_size < 2 ^ 32
    → ((grow h bytes supply).ok ≡ false)
      × ((grow h bytes supply).left ≡ 0)
      × (heap_max < (grow h bytes supply).heap.heap_end)
unfolding grow
grow_past_window h bytes supply low top wraps most many fits =
    let guard : ltb heap_max
          ((h.heap_end + align_up bytes page_size / page_size * page_size) % 2 ^ 32)
        ≡ false =
      ground arith in
    let (x, y, z) =
      grow_loop-short (align_up bytes page_size / page_size) supply h (omega arith) fits in
    let past : heap_max
        < (grow_loop (align_up bytes page_size / page_size) supply h).heap.heap_end =
      omega (arith, z) in
    rw guard (x, y, past)
