-- ===== src/Kheap/Tests.antt =====
-- Runs of the heap, and the theorems at concrete heaps.
use sifar_os.Common.{
  ℕ, ◌+◌, ◌^◌, ◌<◌, ◌≡◌, refl, true, false, none, some, [], ◌∷◌, arith, ◌==◌, if◌then◌else◌, ◌⊎◌,
}
use sifar_os.Kheap.{
  Heap, heap_base, heap_max, block_magic, header_size, align_up, free_block, grow, grow_loop,
  kheap_init, kmalloc, kfree, attempts, place, split, relink, release, merge_next, merge_prev,
  check_blocks, stats,
}
use sifar_os.Kheap.Chain.{IsValid, owned}
use sifar_os.Kheap.Place.{NoneFits}
use sifar_os.Kheap.Alloc.{Given, kmalloc-Given, kfree-kmalloc}
use sifar_os.Kheap.Release.{kfree-owned}
use sifar_os.Kheap.Check.{here, next, allocates, check_blocks-Reach, grow_past_window}

abbrev fresh_heap : Heap
fresh_heap = record {
  blocks = free_block heap_base 65516 0 ∷ [];
  heap_end = heap_base + 65536;
  heap_bytes = 65536;
}

kheap_init-fresh : kheap_init 16 ≡ some fresh_heap
unfolding kheap_init grow grow_loop
kheap_init-fresh = refl

fresh-IsValid : IsValid fresh_heap
fresh-IsValid = record {
  chain = (omega arith, refl, refl, omega arith);
  top = omega arith;
  coalesced = (λ e. refl_or e, tt);
}
  where
    refl_or : false ≡ true → true ≡ false
    refl_or e = cc

abbrev one_used : Heap
one_used = record fresh_heap {
  blocks =
      record { at = heap_base; magic = block_magic; size = 104; prev = 0; free = false }
      ∷ free_block (heap_base + 124) 65392 heap_base
      ∷ [];
}

kmalloc-one : kmalloc fresh_heap 100 0 ≡ (heap_base + header_size, one_used)
unfolding kmalloc attempts place split relink
kmalloc-one = refl

kfree-one : kfree one_used (heap_base + header_size) ≡ some fresh_heap
unfolding kfree release merge_next merge_prev relink
kfree-one = refl

stats_one : stats one_used.blocks ≡ (104, (65392, 2))
unfolding stats
stats_one = refl

kmalloc-Given_example :
    IsValid (kmalloc fresh_heap 100 0).1
    × (Given fresh_heap 100 (kmalloc fresh_heap 100 0).0 (kmalloc fresh_heap 100 0).1
        ⊎ (((kmalloc fresh_heap 100 0).0 ≡ 0)
            × NoneFits (align_up 100 8) fresh_heap.blocks
            × ((a : ℕ) → owned (kmalloc fresh_heap 100 0).1.blocks a ≡ owned fresh_heap.blocks a)))
kmalloc-Given_example = kmalloc-Given fresh_heap 100 0 fresh-IsValid (omega arith) (omega arith)

one-IsValid : IsValid one_used
unfolding kmalloc attempts place split relink
one-IsValid = (kmalloc-Given fresh_heap 100 0 fresh-IsValid (omega arith) (omega arith)).0

kfree-owned_example :
    (h : Heap) × (kfree one_used (heap_base + header_size) ≡ some h)
    × IsValid h
    × ((a : ℕ) → owned h.blocks a ≡ (if a == heap_base then none else owned one_used.blocks a))
kfree-owned_example = kfree-owned one_used heap_base 104 one-IsValid refl (omega arith)

kfree-kmalloc_example :
    (h : Heap) × (kfree (kmalloc fresh_heap 100 0).1 (kmalloc fresh_heap 100 0).0 ≡ some h)
    × IsValid h
    × ((a : ℕ) → owned h.blocks a ≡ owned fresh_heap.blocks a)
unfolding kmalloc attempts place split relink
kfree-kmalloc_example =
    kfree-kmalloc fresh_heap 100 0 fresh-IsValid (omega arith) (omega arith) (omega arith)

check_blocks-Reach_example :
    IsValid (kmalloc fresh_heap 100 0).1
    × (check_blocks (kmalloc fresh_heap 100 0).1.heap_end (kmalloc fresh_heap 100 0).1.blocks ≡ 0)
check_blocks-Reach_example =
    check_blocks-Reach 16 fresh_heap (kmalloc fresh_heap 100 0).1 kheap_init-fresh
      (next here (allocates 100 0 (omega arith)))

-- A request of 1 GiB, with 20,000 frames to be had.
grow_past_window_example :
    ((grow fresh_heap (2 ^ 30) 20000).ok ≡ false)
    × ((grow fresh_heap (2 ^ 30) 20000).left ≡ 0)
    × (heap_max < (grow fresh_heap (2 ^ 30) 20000).heap.heap_end)
grow_past_window_example =
    grow_past_window fresh_heap (2 ^ 30) 20000 (omega arith) (omega arith) (omega arith)
      (omega arith) (omega arith) (omega arith)
