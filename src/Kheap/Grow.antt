-- ===== src/Kheap/Grow.antt =====
-- `grow`, `extend_heap` and the attempts of `kmalloc`.
use sifar_os.Common.{
  ℕ, zero, suc, ◌+◌, ◌-◌, ◌*◌, ◌/◌, ◌%◌, ◌^◌, ◌<◌, ◌≤◌, ◌≡◌, refl, ap, Bool, true, false, List, [],
  ◌∷◌, arith, ltb, Bool-cases, inl, inr, ◌∙◌, sym, subst,
}
use sifar_os.Kheap.{
  Block, Heap, Grown, heap_base, heap_max, header_size, heap_chunk, page_size, align_up, free_block,
  grow_loop, grow, extend_last, extend_heap,
}
use sifar_os.Kheap.Chain.{IsValid, Chain, Coalesced, owned, Chain-raise}

-- The heap grew by `k` pages of the `n` that were asked for.
record Grew (n : ℕ) (h : Heap) (g : Grown) : Type 0 where
  pages : ℕ
  most : pages ≤ n
  all : g.ok ≡ true → pages ≡ n
  end : g.heap.heap_end ≡ h.heap_end + pages * page_size
  blocks : g.heap.blocks ≡ h.blocks

grow_loop-Grew :
    (n supply : ℕ) (h : Heap)
    → h.heap_end + n * page_size < 2 ^ 32
    → Grew n h (grow_loop n supply h)
unfolding grow_loop
grow_loop-Grew zero supply h b = record {
  pages = 0;
  most = omega arith;
  all = λ e. refl;
  end = omega arith;
  blocks = refl;
}
grow_loop-Grew (suc n) zero h b = record {
  pages = 0;
  most = omega arith;
  all = λ e. absurd (cc);
  end = omega arith;
  blocks = refl;
}
grow_loop-Grew (suc n) (suc supply) h b =
    let w =
      grow_loop-Grew n supply
        (record h {
          heap_end = (h.heap_end + page_size) % 2 ^ 32;
          heap_bytes = (h.heap_bytes + page_size) % 2 ^ 32;
        })
        (omega arith) in
    record {
      pages = suc w.pages;
      most = omega (arith, w.most);
      all = λ e. ap suc (w.all e);
      end = omega (arith, w.end);
      blocks = w.blocks;
    }

-- How the heap's end moves.
record Moved (bytes : ℕ) (h : Heap) (g : Grown) : Type 0 where
  low : h.heap_end ≤ g.heap.heap_end
  top : g.heap.heap_end ≤ heap_max
  whole : g.ok ≡ true → h.heap_end + bytes ≤ g.heap.heap_end
  blocks : g.heap.blocks ≡ h.blocks

grow-Moved :
    (h : Heap) (bytes supply : ℕ)
    → h.heap_end ≤ heap_max
    → bytes ≤ 2 ^ 29 + 2 ^ 17
    → Moved bytes h (grow h bytes supply)
unfolding grow
grow-Moved h bytes supply t l =
    elim (Bool-cases
      (ltb heap_max ((h.heap_end + align_up bytes page_size / page_size * page_size) % 2 ^ 32))) [
        | inl full ↦
            rw full (record { low = omega arith; top = t; whole = λ e. absurd (cc); blocks = refl })
        | inr room ↦
            let w = grow_loop-Grew (align_up bytes page_size / page_size) supply h (omega arith) in
            rw room (record {
              low = omega (arith, w.end);
              top = ground (arith, w.end, w.most);
              whole = λ e. omega (arith, w.end, w.all e);
              blocks = w.blocks;
            })
      ]

extend_last-Chain :
    (prev low old_end new_end : ℕ) (bs : List Block)
    → new_end ≤ heap_max
    → old_end + header_size ≤ new_end
    → Chain prev low bs old_end
    → Chain prev low (extend_last old_end new_end bs) new_end
unfolding extend_last
extend_last-Chain prev low old_end new_end [] t h c = omega arith
extend_last-Chain prev low old_end new_end (b ∷ []) t h (l, m, q, c) = elim (Bool-cases b.free) [
  | inl f ↦
      subst (λ x. Chain prev low x new_end) (sym (last_free old_end new_end b f))
        (l, m, q, omega arith)
  | inr u ↦
      subst (λ x. Chain prev low x new_end) (sym (last_used old_end new_end b u))
        (l, m, q, (omega arith, refl, refl, omega arith))
]
  where
    last_free :
        (old_end new_end : ℕ) (b : Block)
        → b.free ≡ true
        → extend_last old_end new_end (b ∷ [])
          ≡ record b { size = (b.size + (new_end + 2 ^ 32 - old_end) % 2 ^ 32) % 2 ^ 32 } ∷ []
    last_free old_end new_end b f = ground arith

    last_used :
        (old_end new_end : ℕ) (b : Block)
        → b.free ≡ false
        → extend_last old_end new_end (b ∷ [])
          ≡ b
            ∷ free_block old_end
                (((new_end + 2 ^ 32 - old_end) % 2 ^ 32 + 2 ^ 32 - header_size) % 2 ^ 32)
                b.at
            ∷ []
    last_used old_end new_end b u = ground arith
extend_last-Chain prev low old_end new_end (b ∷ d ∷ bs) t h (l, m, q, c) =
    (l, m, q, extend_last-Chain b.at (b.at + header_size + b.size) old_end new_end (d ∷ bs) t h c)

extend_last-Coalesced :
    (f : Bool) (old_end new_end : ℕ) (bs : List Block)
    → Coalesced f bs
    → Coalesced f (extend_last old_end new_end bs)
unfolding extend_last
extend_last-Coalesced f old_end new_end [] c = c
extend_last-Coalesced f old_end new_end (b ∷ []) (x, y) = elim (Bool-cases b.free) [
  | inl free ↦ rw free (λ e. sym free ∙ x e, tt)
  | inr u ↦ rw u (λ e. refl, (λ e. absurd (cc), tt))
]
extend_last-Coalesced f old_end new_end (b ∷ d ∷ bs) (x, y) =
    (x, extend_last-Coalesced b.free old_end new_end (d ∷ bs) y)

extend_last-owned :
    (prev low old_end new_end : ℕ) (bs : List Block) (a : ℕ)
    → Chain prev low bs old_end
    → owned (extend_last old_end new_end bs) a ≡ owned bs a
unfolding extend_last
extend_last-owned prev low old_end new_end [] a c = refl
extend_last-owned prev low old_end new_end (b ∷ []) a (l, m, q, c) = ground arith
extend_last-owned prev low old_end new_end (b ∷ d ∷ bs) a (l, m, q, c) =
    ground
      (arith, extend_last-owned b.at (b.at + header_size + b.size) old_end new_end (d ∷ bs) a c)

-- A valid heap in which the same blocks are in use.
abbrev pub Same : Heap → Heap → Type 0
Same h h' = IsValid h' × ((a : ℕ) → owned h'.blocks a ≡ owned h.blocks a)

pub extend_heap-Same :
    (h : Heap) (needed supply : ℕ)
    → IsValid h
    → needed ≤ 2 ^ 29
    → Same h (extend_heap h needed supply).heap
unfolding extend_heap
extend_heap-Same h needed supply v l =
    let chunk = align_up ((needed + header_size) % 2 ^ 32) heap_chunk in
    let w = grow-Moved h chunk supply v.top (omega arith) in
    elim (Bool-cases (grow h chunk supply).ok) [
      | inl good ↦
          rw (good, w.blocks)
            (
              record {
                chain =
                    extend_last-Chain 0 heap_base h.heap_end _ h.blocks w.top
                      (omega (arith, w.whole good)) v.chain;
                top = w.top;
                coalesced = extend_last-Coalesced false h.heap_end _ h.blocks v.coalesced;
              },
              λ a. extend_last-owned 0 heap_base h.heap_end _ h.blocks a v.chain,
            )
      | inr bad ↦ rw bad (
        record {
          chain =
              subst (λ x. Chain 0 heap_base x (grow h chunk supply).heap.heap_end) (sym w.blocks)
                (Chain-raise 0 heap_base h.heap_end _ h.blocks w.low v.chain);
          top = w.top;
          coalesced = subst (Coalesced false) (sym w.blocks) v.coalesced;
        },
        λ a. ap (λ x. owned x a) w.blocks,
      )
    ]
