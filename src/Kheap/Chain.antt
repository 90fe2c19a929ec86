-- ===== src/Kheap/Chain.antt =====
-- The invariant of the heap's block list.
use sifar_os.Common.{
  ℕ, ◌+◌, ◌<◌, ◌≤◌, ◌≡◌, refl, Bool, true, false, Option, none, some, List, [], ◌∷◌, arith, ◌==◌,
  if◌then◌else◌,
}
use sifar_os.Kheap.{Block, Heap, heap_base, heap_max, header_size, block_magic, relink}

-- The blocks stand between `low` and `end` in the order of their addresses without overlap, each with
-- its magic number, and each `prev` is the address of the block before, `prev` for the first.
abbrev pub Chain : ℕ → ℕ → List Block → ℕ → Type 0
Chain prev low [] end = low ≤ end
Chain prev low (b ∷ bs) end =
    (low ≤ b.at)
    × (b.magic ≡ block_magic)
    × (b.prev ≡ prev)
    × Chain b.at (b.at + header_size + b.size) bs end

-- No two neighbours are free.
abbrev pub Coalesced : Bool → List Block → Type 0
Coalesced before [] = Unit {0}
Coalesced before (b ∷ bs) = (before ≡ true → b.free ≡ false) × Coalesced b.free bs

pub record IsValid (h : Heap) : Type 0 where
  pub chain : Chain 0 heap_base h.blocks h.heap_end
  pub top : h.heap_end ≤ heap_max
  pub coalesced : Coalesced false h.blocks

pub Chain-below : (prev low end : ℕ) (bs : List Block) → Chain prev low bs end → low ≤ end
Chain-below prev low end [] c = c
Chain-below prev low end (b ∷ bs) (a, m, p, c) =
    omega (arith, Chain-below b.at (b.at + header_size + b.size) end bs c)

pub Chain-lower :
    (prev low low' end : ℕ) (bs : List Block)
    → low' ≤ low
    → Chain prev low bs end
    → Chain prev low' bs end
Chain-lower prev low low' end [] h c = omega arith
Chain-lower prev low low' end (b ∷ bs) h (a, m, p, c) = (omega arith, m, p, c)

pub Chain-relink :
    (prev prev' low end : ℕ) (bs : List Block)
    → Chain prev low bs end
    → Chain prev' low (relink prev' bs) end
unfolding relink
Chain-relink prev prev' low end [] c = c
Chain-relink prev prev' low end (b ∷ bs) (a, m, p, c) = (a, m, refl, c)

pub Chain-raise :
    (prev low end end' : ℕ) (bs : List Block)
    → end ≤ end'
    → Chain prev low bs end
    → Chain prev low bs end'
Chain-raise prev low end end' [] h c = omega arith
Chain-raise prev low end end' (b ∷ bs) h (a, m, p, c) =
    (a, m, p, Chain-raise b.at (b.at + header_size + b.size) end end' bs h c)

pub Coalesced-relink :
    (a : ℕ) (f : Bool) (bs : List Block) → Coalesced f bs → Coalesced f (relink a bs)
unfolding relink
Coalesced-relink a f [] c = c
Coalesced-relink a f (b ∷ bs) c = c

pub Coalesced-weaken : (f : Bool) (bs : List Block) → Coalesced f bs → Coalesced false bs
Coalesced-weaken f [] c = c
Coalesced-weaken f (b ∷ bs) (h, c) = (λ e. absurd (cc), c)

-- The size of the block in use at an address.
abbrev pub owned : List Block → ℕ → Option ℕ
owned [] a = none
owned (b ∷ bs) a = if b.at == a then (if b.free then none else some b.size) else owned bs a

pub owned-relink : (p : ℕ) (bs : List Block) (a : ℕ) → owned (relink p bs) a ≡ owned bs a
unfolding relink
owned-relink p [] a = refl
owned-relink p (b ∷ bs) a = refl

-- No block of a chain is below its lower bound.
pub owned-below :
    (prev low end : ℕ) (bs : List Block) (a : ℕ)
    → Chain prev low bs end
    → a < low
    → owned bs a ≡ none
owned-below prev low end [] a c h = refl
owned-below prev low end (b ∷ bs) a (l, m, p, c) h =
    ground (arith, owned-below b.at (b.at + header_size + b.size) end bs a c (omega arith))
