-- ===== src/Kheap.antt =====
-- kernel/mm/kheap.c: the kernel heap, a first-fit allocator over a list of blocks.
-- The blocks stand in the order of their `next` pointers; the address, the magic number, the size
-- and the `prev` pointer of each are in the model, and what a payload holds is not. `supply` is how
-- many times `pmm_alloc_frame` and `vmm_map` still succeed for a call.
use sifar_os.Common.{
  ℕ, zero, suc, ◌+◌, ◌-◌, ◌*◌, ◌/◌, ◌%◌, ◌^◌, Bool, true, false, ◌&&◌, not, Option, none, some,
  List, [], ◌∷◌, if◌then◌else◌, leb, ltb, ◌==◌,
}
pub mod Chain
pub mod Place
pub mod Grow
pub mod Alloc
pub mod Release
pub mod Check
mod Tests

abbrev pub page_size : ℕ
page_size = 4096

abbrev pub heap_base : ℕ
heap_base = 0xD0000000

-- `HEAP_BASE + HEAP_MAX_SIZE`
abbrev pub heap_max : ℕ
heap_max = 0xD4000000

abbrev pub block_magic : ℕ
block_magic = 0x48454150

abbrev pub min_split : ℕ
min_split = 32

-- `sizeof(struct block)`
abbrev pub header_size : ℕ
header_size = 20

abbrev pub heap_chunk : ℕ
heap_chunk = 65536

abbrev pub align_up : ℕ → ℕ → ℕ
align_up x a = (x + (a - 1)) % 2 ^ 32 / a * a

-- `struct block`, at the address `at`.
pub record Block : Type 0 where
  pub at : ℕ
  pub magic : ℕ
  pub size : ℕ
  pub prev : ℕ
  pub free : Bool

pub record Heap : Type 0 where
  pub blocks : List Block
  pub heap_end : ℕ
  pub heap_bytes : ℕ

-- Whether a growth succeeded, the supply that is left, and the heap.
pub record Grown : Type 0 where
  pub ok : Bool
  pub left : ℕ
  pub heap : Heap

-- The loop of `grow`: `n` pages left.
unfoldable pub grow_loop : ℕ → ℕ → Heap → Grown
grow_loop zero supply h = record { ok = true; left = supply; heap = h }
grow_loop (suc n) zero h = record { ok = false; left = 0; heap = h }
grow_loop (suc n) (suc supply) h = grow_loop n supply (record h {
  heap_end = (h.heap_end + page_size) % 2 ^ 32;
  heap_bytes = (h.heap_bytes + page_size) % 2 ^ 32;
})

-- `grow`
unfoldable pub grow : Heap → ℕ → ℕ → Grown
grow h bytes supply =
    let pages = align_up bytes page_size / page_size in
    if ltb heap_max ((h.heap_end + pages * page_size) % 2 ^ 32)
    then record { ok = false; left = supply; heap = h }
    else grow_loop pages supply h

abbrev pub free_block : ℕ → ℕ → ℕ → Block
free_block at size prev = record {
  at = at;
  magic = block_magic;
  size = size;
  prev = prev;
  free = true;
}

-- `kheap_init`; `none` is its panic.
unfoldable pub kheap_init : ℕ → Option Heap
kheap_init supply =
    let g = grow (record { blocks = []; heap_end = heap_base; heap_bytes = 0 }) heap_chunk supply in
    if g.ok
    then some (record (g.heap) {
      blocks = free_block heap_base ((g.heap.heap_bytes + 2 ^ 32 - header_size) % 2 ^ 32) 0 ∷ [];
    })
    else none

-- The end of `extend_heap`: the space from `old_end` to `new_end` goes to the last block.
unfoldable pub extend_last : ℕ → ℕ → List Block → List Block
extend_last old_end new_end [] = []
extend_last old_end new_end (b ∷ []) =
    let more = (new_end + 2 ^ 32 - old_end) % 2 ^ 32 in
    if b.free
    then record b { size = (b.size + more) % 2 ^ 32 } ∷ []
    else b ∷ free_block old_end ((more + 2 ^ 32 - header_size) % 2 ^ 32) b.at ∷ []
extend_last old_end new_end (b ∷ c ∷ bs) = b ∷ extend_last old_end new_end (c ∷ bs)

-- `extend_heap`
unfoldable pub extend_heap : Heap → ℕ → ℕ → Grown
extend_heap h needed supply =
    let g = grow h (align_up ((needed + header_size) % 2 ^ 32) heap_chunk) supply in
    if g.ok
    then record g {
      heap = record (g.heap) { blocks = extend_last h.heap_end g.heap.heap_end g.heap.blocks };
    }
    else g

-- `b->next->prev = a`, if there is a next block.
unfoldable pub relink : ℕ → List Block → List Block
relink a [] = []
relink a (b ∷ bs) = record b { prev = a } ∷ bs

-- `split`, for a block and those after it.
unfoldable pub split : ℕ → Block → List Block → List Block
unfolding relink
split size b bs =
    if ltb b.size ((size + header_size + min_split) % 2 ^ 32)
    then b ∷ bs
    else let rest = (b.at + header_size + size) % 2 ^ 32 in
      record b { size = size }
      ∷ free_block rest ((b.size + 2 ^ 33 - size - header_size) % 2 ^ 32) b.at
      ∷ relink rest bs

-- `b->free = 0` for the first block.
abbrev pub take_first : List Block → List Block
take_first [] = []
take_first (b ∷ bs) = record b { free = false } ∷ bs

abbrev pub keep : Block → Option (ℕ × List Block) → Option (ℕ × List Block)
keep b none = none
keep b (some (p, bs)) = some (p, b ∷ bs)

-- The search of `kmalloc`: the payload's address and the blocks.
unfoldable pub place : ℕ → List Block → Option (ℕ × List Block)
unfolding split
place size [] = none
place size (b ∷ bs) =
    let rest = place size bs in
    if b.free && leb size b.size
    then some (b.at + header_size, take_first (split size b bs))
    else keep b rest

-- The attempts of `kmalloc`.
unfoldable pub attempts : ℕ → ℕ → ℕ → Heap → ℕ × Heap
attempts zero size supply h = (0, h)
attempts (suc k) size supply h = elim (place size h.blocks) [
  | some (p, bs) ↦ (p, record h { blocks = bs })
  | none ↦
      let g = extend_heap h size supply in
      let rest = attempts k size g.left g.heap in if g.ok then rest else (0, g.heap)
]

-- `kmalloc`; a result of 0 is NULL.
unfoldable pub kmalloc : Heap → ℕ → ℕ → ℕ × Heap
unfolding attempts
kmalloc h size supply = if size == 0 then (0, h) else attempts 2 (align_up size 8) supply h

-- `kcalloc`, without the bytes it clears.
unfoldable pub kcalloc : Heap → ℕ → ℕ → ℕ → ℕ × Heap
kcalloc h count size supply = kmalloc h (count * size % 2 ^ 32) supply

-- `coalesce`, its first half: a freed block and those after it.
unfoldable pub merge_next : Block → List Block → List Block
unfolding relink
merge_next b [] = b ∷ []
merge_next b (n ∷ bs) =
    if n.free
    then record b { size = (b.size + header_size + n.size) % 2 ^ 32 } ∷ relink b.at bs
    else b ∷ n ∷ bs

-- Its second half, for the block `p` and those after it, when the first of these is the freed one.
unfoldable pub merge_prev : ℕ → Block → List Block → List Block
unfolding relink
merge_prev freed p [] = p ∷ []
merge_prev freed p (b ∷ bs) =
    if (b.at == freed) && p.free
    then record p { size = (p.size + header_size + b.size) % 2 ^ 32 } ∷ relink p.at bs
    else p ∷ b ∷ bs

abbrev pub free_found : Block → List Block → Option (List Block)
free_found b bs =
    if not (b.magic == block_magic)
    then none
    else if b.free
    then none
    else some (merge_next (record b { free = true }) bs)

-- `kfree` on the block at an address; `none` is a panic, also where no block stands there.
unfoldable pub release : ℕ → List Block → Option (List Block)
unfolding merge_next merge_prev
release freed [] = none
release freed (b ∷ bs) =
    if b.at == freed
    then free_found b bs
    else elim (release freed bs) [ none ↦ none | some rs ↦ some (merge_prev freed b rs) ]

-- `kfree`
unfoldable pub kfree : Heap → ℕ → Option Heap
unfolding release
kfree h ptr =
    if ptr == 0 then some h else elim (release ((ptr + 2 ^ 32 - header_size) % 2 ^ 32) h.blocks) [
      | none ↦ none
      | some bs ↦ some (record h { blocks = bs })
    ]

-- The block at an address.
unfoldable pub block_at : ℕ → List Block → Option Block
block_at a [] = none
block_at a (b ∷ bs) = if b.at == a then some b else block_at a bs

abbrev pub freed_after : Heap → ℕ → ℕ → Option (ℕ × Heap)
freed_after h ptr fresh = elim (kfree h ptr) [ none ↦ none | some h' ↦ some (fresh, h') ]

-- The end of `krealloc`, without the bytes it copies.
abbrev pub realloc_block : Heap → ℕ → ℕ → ℕ → Block → Option (ℕ × Heap)
realloc_block h ptr size supply b =
    if not (b.magic == block_magic)
    then none
    else if leb size b.size
    then some (ptr, h)
    else let (fresh, h') = kmalloc h size supply in
      if fresh == 0 then some (0, h') else freed_after h' ptr fresh

-- `krealloc`
unfoldable pub krealloc : Heap → ℕ → ℕ → ℕ → Option (ℕ × Heap)
krealloc h ptr size supply =
    if ptr == 0
    then some (kmalloc h size supply)
    else if size == 0
    then freed_after h ptr 0
    else elim (block_at ((ptr + 2 ^ 32 - header_size) % 2 ^ 32) h.blocks) [
      | none ↦ none
      | some b ↦ realloc_block h ptr size supply b
    ]

-- `kheap_stats`: the bytes in use, the free bytes and the number of blocks.
unfoldable pub stats : List Block → ℕ × (ℕ × ℕ)
stats [] = (0, (0, 0))
stats (b ∷ bs) =
    let (u, (f, n)) = stats bs in
    if b.free then (u, (f + b.size, n + 1)) else (u + b.size, (f, n + 1))

abbrev pub has_prev : Block → List Block → Bool
has_prev b [] = true
has_prev b (c ∷ bs) = c.prev == b.at

-- `kheap_check`: 0, or the pattern of -1, -2 or -3.
unfoldable pub check_blocks : ℕ → List Block → ℕ
check_blocks heap_end [] = 0
check_blocks heap_end (b ∷ bs) =
    let rest = check_blocks heap_end bs in
    if not (b.magic == block_magic)
    then 2 ^ 32 - 1
    else if not (has_prev b bs)
    then 2 ^ 32 - 2
    else if leb heap_end b.at
    then 2 ^ 32 - 3
    else rest
