-- ===== src/Kheap/Place.antt =====
-- The search of `kmalloc` and the split of the block it finds.
use sifar_os.Common.{
  ℕ, ◌+◌, ◌-◌, ◌%◌, ◌^◌, ◌<◌, ◌≤◌, ◌≡◌, refl, Bool, true, false, ◌&&◌, none, some, List, [], ◌∷◌,
  arith, ◌==◌, ltb, leb, if◌then◌else◌, Bool-cases, Option-cases, inl, inr, subst,
}
use sifar_os.Kheap.{
  Block, heap_base, heap_max, header_size, min_split, relink, split, place, take_first, free_block,
}
use sifar_os.Kheap.Chain.{
  Chain, Coalesced, owned, Chain-relink, Chain-lower, Coalesced-relink, Coalesced-weaken,
  owned-relink, owned-below, Chain-below,
}

-- What a successful search leaves: `got` bytes at `p`, taken from a free block.
pub record Placed (prev low end size : ℕ) (bs : List Block) (p got : ℕ) (bs' : List Block)
    : Type 0 where
  pub chain : Chain prev low bs' end
  pub coalesced : (f : Bool) → Coalesced f bs → Coalesced f bs'
  pub above : low + header_size ≤ p
  pub inside : p + got ≤ end
  pub large : size ≤ got
  pub fresh : owned bs (p - header_size) ≡ none
  pub others : (a : ℕ) → owned bs' a ≡ (if a + header_size == p then some got else owned bs a)

whole-Placed :
    (prev low end size : ℕ) (b : Block) (bs : List Block)
    → Chain prev low (b ∷ bs) end
    → b.free ≡ true
    → size ≤ b.size
    → Placed prev low end size (b ∷ bs) (b.at + header_size) b.size (record b { free = false } ∷ bs)
whole-Placed prev low end size b bs (l, m, q, c) f h = record {
  chain = (l, m, q, c);
  coalesced = λ g (x, y). (λ e. refl, Coalesced-weaken b.free bs y);
  above = omega arith;
  inside = Chain-below b.at (b.at + header_size + b.size) end bs c;
  large = h;
  fresh = ground arith;
  others = λ a. ground arith;
}

cut-Placed :
    (prev low end size rest left : ℕ) (b : Block) (bs : List Block)
    → Chain prev low (b ∷ bs) end
    → b.free ≡ true
    → size + header_size + min_split ≤ b.size
    → rest ≡ b.at + header_size + size
    → left ≡ b.size - size - header_size
    → Placed prev low end size
        (b ∷ bs)
        (b.at + header_size)
        size
        (record b { size = size; free = false } ∷ free_block rest left b.at ∷ relink rest bs)
cut-Placed prev low end size rest left b bs (l, m, q, c) f h r k = record {
  chain = (
    l,
    m,
    q,
    (
      omega arith,
      refl,
      refl,
      Chain-lower rest (b.at + header_size + b.size) (rest + header_size + left) end
          (relink rest bs) (omega arith)
          (Chain-relink b.at rest (b.at + header_size + b.size) end bs c),
    ),
  );
  coalesced = λ g (x, y). (
    λ e. refl,
    (λ e. absurd (cc), Coalesced-relink rest true bs (subst (λ z. Coalesced z bs) f y)),
  );
  above = omega arith;
  inside = omega (arith, Chain-below b.at (b.at + header_size + b.size) end bs c);
  large = omega arith;
  fresh = ground arith;
  others = λ a. elim (Bool-cases (rest == a)) [
    | inl at_rest ↦
        ground (arith, owned-below b.at (b.at + header_size + b.size) end bs a c (ground arith))
    | inr other ↦ ground (arith, owned-relink rest bs a)
  ];
}

pub here-Placed :
    (prev low end size : ℕ) (b : Block) (bs : List Block)
    → heap_base ≤ low
    → end ≤ heap_max
    → Chain prev low (b ∷ bs) end
    → b.free ≡ true
    → size ≤ b.size
    → (got : ℕ) × Placed prev low end size
        (b ∷ bs)
        (b.at + header_size)
        got
        (take_first (split size b bs))
unfolding split
here-Placed prev low end size b bs hb ht (l, m, q, c) f h =
    let bound : b.at + header_size + b.size ≤ end =
      Chain-below b.at (b.at + header_size + b.size) end bs c in
    elim (Bool-cases (ltb b.size ((size + header_size + min_split) % 2 ^ 32))) [
      | inl small ↦ (b.size, rw small (whole-Placed prev low end size b bs (l, m, q, c) f h))
      | inr big ↦ (
        size,
        rw big (
            cut-Placed prev low end size ((b.at + header_size + size) % 2 ^ 32)
              ((b.size + 2 ^ 33 - size - header_size) % 2 ^ 32) b bs (l, m, q, c) f (ground arith)
              (omega arith) (ground arith)),
      )
    ]

keep-Placed :
    (prev low end size p got : ℕ) (b : Block) (bs bs' : List Block)
    → Chain prev low (b ∷ bs) end
    → Placed b.at (b.at + header_size + b.size) end size bs p got bs'
    → Placed prev low end size (b ∷ bs) p got (b ∷ bs')
keep-Placed prev low end size p got b bs bs' (l, m, q, c) w = record {
  chain = (l, m, q, w.chain);
  coalesced = λ g (x, y). (x, w.coalesced b.free y);
  above = omega (arith, w.above);
  inside = w.inside;
  large = w.large;
  fresh = ground (arith, w.above, w.fresh);
  others = λ a. ground (arith, w.above, w.others a);
}

pub place-Placed :
    (prev low end size p : ℕ) (bs bs' : List Block)
    → heap_base ≤ low
    → end ≤ heap_max
    → Chain prev low bs end
    → place size bs ≡ some (p, bs')
    → (got : ℕ) × Placed prev low end size bs p got bs'
unfolding place
place-Placed prev low end size p [] bs' hb ht c e = absurd (cc)
place-Placed prev low end size p (b ∷ bs) bs' hb ht (l, m, q, c) e =
    elim (Bool-cases (b.free && leb size b.size)) [
      | inl fits ↦
          let r : b.at + header_size ≡ p = ground arith in
          let s : take_first (split size b bs) ≡ bs' = ground arith in
          rw (← r, ← s)
            (here-Placed prev low end size b bs hb ht (l, m, q, c) (ground arith) (ground arith))
      | inr too_small ↦ elim (Option-cases (place size bs)) [
        | inl nothing ↦ absurd (ground arith)
        | inr ((p', rest), found) ↦
            let (got, w) =
              place-Placed b.at (b.at + header_size + b.size) end size p' bs rest (omega arith) ht c
                found in
            let r : p' ≡ p = ground arith in
            let s : b ∷ rest ≡ bs' = ground arith in
            rw (← r, ← s) (got, keep-Placed prev low end size p' got b bs rest (l, m, q, c) w)
      ]
    ]

-- The search fails exactly when no free block is large enough.
abbrev pub NoneFits : ℕ → List Block → Type 0
NoneFits size [] = Unit {0}
NoneFits size (b ∷ bs) = (b.free ≡ true → b.size < size) × NoneFits size bs

pub place-NoneFits : (size : ℕ) (bs : List Block) → place size bs ≡ none → NoneFits size bs
unfolding place
place-NoneFits size [] e = tt
place-NoneFits size (b ∷ bs) e = elim (Bool-cases (b.free && leb size b.size)) [
  | inl fits ↦ absurd (ground arith)
  | inr too_small ↦ elim (Option-cases (place size bs)) [
    | inl nothing ↦ (λ f. ground arith, place-NoneFits size bs nothing)
    | inr (found, some_found) ↦ absurd (ground arith)
  ]
]
