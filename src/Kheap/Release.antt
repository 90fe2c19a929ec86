-- ===== src/Kheap/Release.antt =====
-- `kfree`: the block is merged with its free neighbours.
use sifar_os.Common.{
  ℕ, ◌+◌, ◌-◌, ◌%◌, ◌^◌, ◌<◌, ◌≤◌, ◌≡◌, ◌≢◌, refl, ap, Bool, true, false, ◌&&◌, none, some, List,
  [], ◌∷◌, arith, ◌==◌, if◌then◌else◌, Bool-cases, Option-cases, inl, inr, ◌∙◌, sym, subst,
}
use sifar_os.Kheap.{
  Block, Heap, heap_base, heap_max, header_size, relink, merge_next, merge_prev, free_found,
  release, kfree,
}
use sifar_os.Kheap.Chain.{
  IsValid, Chain, Coalesced, owned, Chain-relink, Chain-lower, Coalesced-relink, Coalesced-weaken,
  owned-relink, owned-below,
}

merge_next-Chain :
    (prev low end : ℕ) (b : Block) (bs : List Block)
    → heap_base ≤ low
    → end ≤ heap_max
    → Chain prev low (b ∷ bs) end
    → Chain prev low (merge_next b bs) end
unfolding merge_next
merge_next-Chain prev low end b [] hb ht c = c
merge_next-Chain prev low end b (n ∷ bs) hb ht (l, m, q, (r, s, t, c)) = elim (Bool-cases n.free) [
  | inl merge ↦ rw merge (
    l,
    m,
    q,
    Chain-lower b.at (n.at + header_size + n.size)
        (b.at + header_size + (b.size + header_size + n.size) % 2 ^ 32) end (relink b.at bs)
        (omega arith) (Chain-relink n.at b.at (n.at + header_size + n.size) end bs c),
  )
  | inr apart ↦ rw apart (l, m, q, (r, s, t, c))
]

merge_next-owned :
    (prev low end : ℕ) (b : Block) (bs : List Block) (a : ℕ)
    → Chain prev low (b ∷ bs) end
    → b.free ≡ true
    → owned (merge_next b bs) a ≡ (if a == b.at then none else owned bs a)
unfolding merge_next
merge_next-owned prev low end b [] a c f = ground arith
merge_next-owned prev low end b (n ∷ bs) a (l, m, q, (r, s, t, c)) f =
    elim (Bool-cases (n.at == a)) [
      | inl at_next ↦ ground (
        arith,
        owned-relink b.at bs a,
        owned-below n.at (n.at + header_size + n.size) end bs a c (ground arith),
      )
      | inr other ↦ ground (arith, owned-relink b.at bs a)
    ]

head_merged :
    (b : Block) (n : Block) (bs : List Block)
    → n.free ≡ true
    → merge_next b (n ∷ bs)
      ≡ record b { size = (b.size + header_size + n.size) % 2 ^ 32 } ∷ relink b.at bs
unfolding merge_next
head_merged b n bs e = ground arith

head_apart : (b n : Block) (bs : List Block) → n.free ≡ false → merge_next b (n ∷ bs) ≡ b ∷ n ∷ bs
unfolding merge_next
head_apart b n bs e = ground arith

merge_next-Coalesced :
    (b : Block) (bs : List Block) → Coalesced false bs → Coalesced false (merge_next b bs)
unfolding merge_next
merge_next-Coalesced b [] c = (λ e. absurd (cc), tt)
merge_next-Coalesced b (n ∷ bs) (x, y) = elim (Bool-cases n.free) [
  | inl merge ↦
      subst (Coalesced false) (sym (head_merged b n bs merge))
        (λ e. absurd (cc), free_before (subst (λ z. Coalesced z bs) merge y))
  | inr apart ↦
      subst (Coalesced false) (sym (head_apart b n bs apart)) (λ e. absurd (cc), (λ e. apart, y))
]
  where
    free_before : Coalesced true bs → Coalesced b.free (relink b.at bs)
    free_before c = elim (Bool-cases b.free) [
      | inl f ↦ subst (λ z. Coalesced z (relink b.at bs)) (sym f) (Coalesced-relink b.at true bs c)
      | inr u ↦
          subst (λ z. Coalesced z (relink b.at bs)) (sym u)
            (Coalesced-relink b.at false bs (Coalesced-weaken true bs c))
    ]

abbrev starts : ℕ → List Block → Bool
starts a [] = false
starts a (b ∷ bs) = b.at == a

abbrev first_free : List Block → Bool
first_free [] = true
first_free (b ∷ bs) = b.free

-- What the release of the block at `freed` leaves.
record Released (prev low end freed : ℕ) (bs bs' : List Block) : Type 0 where
  chain : Chain prev low bs' end
  coalesced : Coalesced false bs'
  after : (f : Bool) → Coalesced f bs → starts freed bs' ≡ false → Coalesced f bs'
  free_head : starts freed bs' ≡ true → first_free bs' ≡ true
  others : (a : ℕ) → owned bs' a ≡ (if a == freed then none else owned bs a)

merge-Released :
    (prev low end freed : ℕ) (p n : Block) (bs ns : List Block)
    → heap_base ≤ low
    → end ≤ heap_max
    → p.at ≢ freed
    → Chain prev low (p ∷ bs) end
    → Released p.at (p.at + header_size + p.size) end freed bs (n ∷ ns)
    → n.at ≡ freed
    → p.free ≡ true
    → Released prev low end freed
        (p ∷ bs)
        (record p { size = (p.size + header_size + n.size) % 2 ^ 32 } ∷ relink p.at ns)
merge-Released prev low end freed p n bs ns hb ht ne (l, m, q, c) w e f =
    let nf : n.free ≡ true = w.free_head (ground arith) in
    let s = head_merged p n ns nf in
    let k : Coalesced false
        (record p { size = (p.size + header_size + n.size) % 2 ^ 32 } ∷ relink p.at ns) =
      subst (Coalesced false) s (merge_next-Coalesced p (n ∷ ns) w.coalesced) in
    record {
      chain =
          subst (λ x. Chain prev low x end) s
            (merge_next-Chain prev low end p (n ∷ ns) hb ht (l, m, q, w.chain));
      coalesced = k;
      after = λ g (x, y) z. (x, k.1);
      free_head = λ z. absurd (ground arith);
      others = λ a.
          sym (ap (λ x. owned x a) s)
          ∙ (merge_next-owned prev low end p (n ∷ ns) a (l, m, q, w.chain) f
              ∙ ground (arith, w.others a));
    }

apart-Released :
    (prev low end freed : ℕ) (p : Block) (bs rs : List Block)
    → p.at ≢ freed
    → Chain prev low (p ∷ bs) end
    → Coalesced false (p ∷ bs)
    → Released p.at (p.at + header_size + p.size) end freed bs rs
    → (starts freed rs && p.free) ≡ false
    → Released prev low end freed (p ∷ bs) (p ∷ rs)
apart-Released prev low end freed p bs rs ne (l, m, q, c) (x, y) w e = record {
  chain = (l, m, q, w.chain);
  coalesced = (λ e. absurd (cc), rest);
  after = λ g (u, v) z. (u, rest);
  free_head = λ z. absurd (ground arith);
  others = λ a. ground (arith, w.others a);
}
  where
    rest : Coalesced p.free rs
    rest = elim (Bool-cases (starts freed rs)) [
      | inl merged ↦
          (let u : p.free ≡ false = ground arith in subst (λ z. Coalesced z rs) (sym u) w.coalesced)
      | inr other ↦ w.after p.free y other
    ]

merge_prev-Released :
    (prev low end freed : ℕ) (p : Block) (bs rs : List Block)
    → heap_base ≤ low
    → end ≤ heap_max
    → p.at ≢ freed
    → Chain prev low (p ∷ bs) end
    → Coalesced false (p ∷ bs)
    → Released p.at (p.at + header_size + p.size) end freed bs rs
    → Released prev low end freed (p ∷ bs) (merge_prev freed p rs)
unfolding merge_prev
merge_prev-Released prev low end freed p bs [] hb ht ne c k w =
    apart-Released prev low end freed p bs [] ne c k w refl
merge_prev-Released prev low end freed p bs (n ∷ ns) hb ht ne c k w =
    elim (Bool-cases ((n.at == freed) && p.free)) [
      | inl merge ↦
          subst (Released prev low end freed (p ∷ bs)) (ground arith)
            (merge-Released prev low end freed p n bs ns hb ht ne c w (ground arith) (ground arith))
      | inr apart ↦
          subst (Released prev low end freed (p ∷ bs)) (ground arith)
            (apart-Released prev low end freed p bs (n ∷ ns) ne c k w apart)
    ]

merge_next-starts : (b : Block) (bs : List Block) → starts b.at (merge_next b bs) ≡ true
unfolding merge_next
merge_next-starts b [] = ground arith
merge_next-starts b (n ∷ bs) = ground arith

merge_next-free :
    (b : Block) (bs : List Block) → b.free ≡ true → first_free (merge_next b bs) ≡ true
unfolding merge_next
merge_next-free b [] f = f
merge_next-free b (n ∷ bs) f = ground arith

found-Released :
    (prev low end : ℕ) (b : Block) (bs bs' : List Block)
    → heap_base ≤ low
    → end ≤ heap_max
    → Chain prev low (b ∷ bs) end
    → Coalesced false (b ∷ bs)
    → free_found b bs ≡ some bs'
    → Released prev low end b.at (b ∷ bs) bs'
found-Released prev low end b bs bs' hb ht (l, m, q, c) (x, y) e =
    let used : b.free ≡ false = ground arith in
    let r : merge_next (record b { free = true }) bs ≡ bs' = ground arith in
    subst (Released prev low end b.at (b ∷ bs)) r (record {
      chain = merge_next-Chain prev low end (record b { free = true }) bs hb ht (l, m, q, c);
      coalesced =
          merge_next-Coalesced (record b { free = true }) bs (subst (λ z. Coalesced z bs) used y);
      after = λ g k z. absurd (yes_no (sym (merge_next-starts (record b { free = true }) bs) ∙ z));
      free_head = λ z. merge_next-free (record b { free = true }) bs refl;
      others = λ a.
          merge_next-owned prev low end (record b { free = true }) bs a (l, m, q, c) refl
          ∙ ground arith;
    })
  where
    yes_no : true ≡ false → ⊥
    yes_no e = cc

release-Released :
    (prev low end freed : ℕ) (bs bs' : List Block)
    → heap_base ≤ low
    → end ≤ heap_max
    → Chain prev low bs end
    → Coalesced false bs
    → release freed bs ≡ some bs'
    → Released prev low end freed bs bs'
unfolding release
release-Released prev low end freed [] bs' hb ht c k e = absurd (cc)
release-Released prev low end freed (b ∷ bs) bs' hb ht c k e = elim (Bool-cases (b.at == freed)) [
  | inl found ↦
      let r : b.at ≡ freed = ground arith in
      subst (λ x. Released prev low end x (b ∷ bs) bs') r
        (found-Released prev low end b bs bs' hb ht c k (ground arith))
  | inr other ↦ elim (Option-cases (release freed bs)) [
    | inl stop ↦ absurd (ground arith)
    | inr (rs, go) ↦
        let s : merge_prev freed b rs ≡ bs' = ground arith in
        let (l, m, q, c') = c in
        let (x, y) = k in
        subst (Released prev low end freed (b ∷ bs)) s (
          merge_prev-Released prev low end freed b bs rs hb ht (ground arith) c k (
            release-Released b.at (b.at + header_size + b.size) end freed bs rs (omega arith) ht c'
              (Coalesced-weaken b.free bs y) go))
  ]
]

pub kfree-IsValid : (h h' : Heap) (ptr : ℕ) → IsValid h → kfree h ptr ≡ some h' → IsValid h'
unfolding kfree
kfree-IsValid h h' ptr v e = elim (Bool-cases (ptr == 0)) [
  | inl nothing ↦ subst IsValid (ground arith) v
  | inr pointer ↦ elim (Option-cases (release ((ptr + 2 ^ 32 - header_size) % 2 ^ 32) h.blocks)) [
    | inl stop ↦ absurd (ground arith)
    | inr (bs', go) ↦
        let w =
          release-Released 0 heap_base h.heap_end _ h.blocks bs' (omega arith) v.top v.chain
            v.coalesced go in
        let r : record h { blocks = bs' } ≡ h' = ground arith in
        subst IsValid r (record { chain = w.chain; top = v.top; coalesced = w.coalesced })
  ]
]

-- A block in use can be released.
release_total :
    (prev low end freed n : ℕ) (bs : List Block)
    → Chain prev low bs end
    → owned bs freed ≡ some n
    → (bs' : List Block) × (release freed bs ≡ some bs')
unfolding release
release_total prev low end freed n [] c e = absurd (cc)
release_total prev low end freed n (b ∷ bs) (l, m, q, c) e = elim (Bool-cases (b.at == freed)) [
  | inl found ↦ (merge_next (record b { free = true }) bs, ground arith)
  | inr other ↦
      (let (rs, go) =
          release_total b.at (b.at + header_size + b.size) end freed n bs c (ground arith) in
        (merge_prev freed b rs, ground arith))
]

-- On a valid heap, `kfree` of the payload of a block in use succeeds; that block is in use no more,
-- every other one is in use with the same size, the blocks stay in order without overlap and linked,
-- and no two free blocks are neighbours.
pub kfree-owned :
    (h : Heap) (at n : ℕ)
    → IsValid h
    → owned h.blocks at ≡ some n
    → at + header_size < 2 ^ 32
    → (h' : Heap) × (kfree h (at + header_size) ≡ some h')
      × IsValid h'
      × ((a : ℕ) → owned h'.blocks a ≡ (if a == at then none else owned h.blocks a))
unfolding kfree
kfree-owned h at n v e l =
    let (bs', go) = release_total 0 heap_base h.heap_end at n h.blocks v.chain e in
    let w =
      release-Released 0 heap_base h.heap_end at h.blocks bs' (omega arith) v.top v.chain
        v.coalesced go in
    let k : (at + header_size + 2 ^ 32 - header_size) % 2 ^ 32 ≡ at = omega arith in
    (
      record h { blocks = bs' },
      ground (arith, k, go),
      record { chain = w.chain; top = v.top; coalesced = w.coalesced },
      w.others,
    )
