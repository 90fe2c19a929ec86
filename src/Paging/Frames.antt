-- ===== src/Paging/Frames.antt =====
-- The invariant of a space: which frames its directory and its tables stand in.
use sifar_os.Common.{
  ℕ, ◌+◌, ◌*◌, ◌%◌, ◌^◌, ◌<◌, ◌≡◌, ◌≢◌, sym, ap, subst, true, false, arith, inl, inr, ◌==◌,
  if◌then◌else◌, Bool-cases, ◌∙◌,
}
use sifar_os.Pmm.{Pmm, bit_test, alloc_frame}
use sifar_os.Pmm.Bits.{get_or-set, clear-in}
use sifar_os.Pmm.Inv
use sifar_os.Pmm.Alloc.{FirstFit, alloc_frame-FirstFit, alloc_frame-IsValid}
use sifar_os.Paging.Tables.{
  Vm, is_present, frame_of, align_down, dir_index, table_index, translate_in,
}

-- The directory and its tables stand in frames that are taken, and these frames are different ones.
pub record IsSpace (m : Vm) (pd : ℕ) : Type 0 where
  pub frames_valid : Inv.IsValid m.pmm
  pub dir_taken : bit_test m.pmm pd ≡ true
  pub tables_taken :
      (i : ℕ)
      → i < 1024
      → is_present (m.frames pd i) ≡ true
      → bit_test m.pmm (frame_of (m.frames pd i)) ≡ true
  pub apart : (i : ℕ) → i < 1024 → is_present (m.frames pd i) ≡ true → frame_of (m.frames pd i) ≢ pd
  pub distinct :
      (i j : ℕ)
      → i < 1024
      → j < 1024
      → is_present (m.frames pd i) ≡ true
      → is_present (m.frames pd j) ≡ true
      → frame_of (m.frames pd i) ≡ frame_of (m.frames pd j)
      → i ≡ j

-- Of it, what does not depend on the allocator.
pub record Shape (m : Vm) (pd : ℕ) : Type 0 where
  pub away : (i : ℕ) → i < 1024 → is_present (m.frames pd i) ≡ true → frame_of (m.frames pd i) ≢ pd
  pub different :
      (i j : ℕ)
      → i < 1024
      → j < 1024
      → is_present (m.frames pd i) ≡ true
      → is_present (m.frames pd j) ≡ true
      → frame_of (m.frames pd i) ≡ frame_of (m.frames pd j)
      → i ≡ j

pub IsSpace-Shape : {m : Vm} {pd : ℕ} → IsSpace m pd → Shape m pd
IsSpace-Shape s = record { away = s.apart; different = s.distinct }

-- What an entry of a table stands for, with the entry of the directory above it.
abbrev pub seen : ℕ → ℕ → ℕ → ℕ
seen pde pte virt =
    if is_present pde then (if is_present pte then align_down pte + virt % 4096 else 0) else 0

pub translate_in-seen :
    (m : Vm) (pd virt : ℕ)
    → translate_in m pd virt
      ≡ seen
          (m.frames pd (dir_index virt))
          (m.frames (frame_of (m.frames pd (dir_index virt))) (table_index virt))
          virt
unfolding translate_in
translate_in-seen m pd virt = ground arith

-- A frame that `pmm_alloc_frame` gave.
pub record Fresh (p : Pmm) (addr : ℕ) (q : Pmm) : Type 0 where
  pub number : ℕ
  pub address : addr ≡ number * 4096
  pub small : number < 2 ^ 18
  pub was_free : bit_test p number ≡ false
  pub taken : (g : ℕ) → bit_test q g ≡ (if number == g then true else bit_test p g)
  pub valid : Inv.IsValid q

pub alloc_frame-Fresh :
    (p : Pmm) → Inv.IsValid p → (alloc_frame p).0 ≢ 0 → Fresh p (alloc_frame p).0 (alloc_frame p).1
alloc_frame-Fresh p v ne =
    at (alloc_frame p) (alloc_frame-FirstFit p v) (alloc_frame-IsValid p v) ne
  where
    at : (r : ℕ × Pmm) → FirstFit p r → Inv.IsValid r.1 → r.0 ≢ 0 → Fresh p r.0 r.1
    at (addr, q) (inl (f, h, e, t, a, u)) w ne = record {
      number = f;
      address = a;
      small = omega (arith, v.small);
      was_free = e;
      taken = λ g.
          subst (λ x. bit_test x g ≡ (if f == g then true else bit_test p g)) (sym u)
            (get_or-set p.bitmap f g true (clear-in p.bitmap f e));
      valid = w;
    }
    at (addr, q) (inr (t, a, u)) w ne = absurd (ne a)

-- A state in which the directory's entries point to the same frames, and no frame was given back.
pub IsSpace-keep :
    (m m' : Vm) (pd : ℕ)
    → IsSpace m pd
    → Inv.IsValid m'.pmm
    → ((g : ℕ) → bit_test m.pmm g ≡ true → bit_test m'.pmm g ≡ true)
    → ((i : ℕ)
        → i < 1024
        → (is_present (m'.frames pd i) ≡ is_present (m.frames pd i))
          × (frame_of (m'.frames pd i) ≡ frame_of (m.frames pd i)))
    → IsSpace m' pd
IsSpace-keep m m' pd s v more same = record {
  frames_valid = v;
  dir_taken = more pd s.dir_taken;
  tables_taken = λ i h p.
      let (a, b) = same i h in
      subst (λ x. bit_test m'.pmm x ≡ true) (sym b)
        (more (frame_of (m.frames pd i)) (s.tables_taken i h (sym a ∙ p)));
  apart = λ i h p. let (a, b) = same i h in subst (λ x. x ≢ pd) (sym b) (s.apart i h (sym a ∙ p));
  distinct = λ i j h k p q e.
      let (a, b) = same i h in
      let (c, d) = same j k in s.distinct i j h k (sym a ∙ p) (sym c ∙ q) (sym b ∙ (e ∙ d));
}

-- A state in which entry `i`, which was empty, points to a frame that was free.
pub IsSpace-extend :
    (m m' : Vm) (pd i f : ℕ)
    → IsSpace m pd
    → Inv.IsValid m'.pmm
    → ((g : ℕ) → bit_test m'.pmm g ≡ (if f == g then true else bit_test m.pmm g))
    → bit_test m.pmm f ≡ false
    → frame_of (m'.frames pd i) ≡ f
    → ((j : ℕ) → j ≢ i → m'.frames pd j ≡ m.frames pd j)
    → IsSpace m' pd
IsSpace-extend m m' pd i f s v taken free here others = record {
  frames_valid = v;
  dir_taken = ground (arith, taken pd, s.dir_taken);
  tables_taken = λ j h p. elim (Bool-cases (i == j)) [
    | inl same ↦
        (let e : i ≡ j = ground arith in
          subst (λ x. bit_test m'.pmm (frame_of (m'.frames pd x)) ≡ true) e
            (ground (arith, here, taken (frame_of (m'.frames pd i)))))
    | inr other ↦
        (let e : m'.frames pd j ≡ m.frames pd j = others j (ground arith) in
          subst (λ x. bit_test m'.pmm (frame_of x) ≡ true) (sym e)
            (ground (
              arith,
              taken (frame_of (m.frames pd j)),
              s.tables_taken j h (subst (λ x. is_present x ≡ true) e p),
            )))
  ];
  apart = λ j h p. elim (Bool-cases (i == j)) [
    | inl same ↦
        (let e : i ≡ j = ground arith in
          subst (λ x. frame_of (m'.frames pd x) ≢ pd) e
            (subst (λ x. x ≢ pd) (sym here)
              (λ k. clash (sym free ∙ (ap (bit_test m.pmm) k ∙ s.dir_taken)))))
    | inr other ↦
        (let e : m'.frames pd j ≡ m.frames pd j = others j (ground arith) in
          subst (λ x. frame_of x ≢ pd) (sym e) (s.apart j h (subst (λ x. is_present x ≡ true) e p)))
  ];
  distinct = apart_all;
}
  where
    clash : false ≡ true → ⊥
    clash e = cc

    old : (j : ℕ) → i ≢ j → is_present (m'.frames pd j) ≡ true → is_present (m.frames pd j) ≡ true
    old j ne p = subst (λ x. is_present x ≡ true) (others j (λ e. ne (sym e))) p

    not_new :
        (j : ℕ)
        → i ≢ j
        → j < 1024
        → is_present (m'.frames pd j) ≡ true
        → frame_of (m'.frames pd j) ≢ f
    not_new j ne h p e =
        let k : frame_of (m.frames pd j) ≡ f = sym (ap frame_of (others j (λ x. ne (sym x)))) ∙ e in
        clash (sym free ∙ (ap (bit_test m.pmm) (sym k) ∙ s.tables_taken j h (old j ne p)))

    apart_all :
        (j k : ℕ)
        → j < 1024
        → k < 1024
        → is_present (m'.frames pd j) ≡ true
        → is_present (m'.frames pd k) ≡ true
        → frame_of (m'.frames pd j) ≡ frame_of (m'.frames pd k)
        → j ≡ k
    apart_all j k hj hk pj pk e = elim (Bool-cases (i == j)) [
      | inl same ↦ elim (Bool-cases (i == k)) [
        | inl too ↦ ground arith
        | inr other ↦
            (let q : i ≡ j = ground arith in
              absurd (
                not_new k (ground arith) hk pk
                  (sym e ∙ (ap (λ x. frame_of (m'.frames pd x)) (sym q) ∙ here))))
      ]
      | inr other ↦ elim (Bool-cases (i == k)) [
        | inl too ↦
            (let q : i ≡ k = ground arith in
              absurd (
                not_new j (ground arith) hj pj
                  (e ∙ (ap (λ x. frame_of (m'.frames pd x)) (sym q) ∙ here))))
        | inr neither ↦ s.distinct j k hj hk (old j (ground arith) pj) (old k (ground arith) pk) (
            sym (ap frame_of (others j (ground arith)))
            ∙ (e ∙ ap frame_of (others k (ground arith))))
      ]
    ]

-- `pmm_alloc_frame` frees nothing.
pub alloc_frame_keeps :
    (p : Pmm) → Inv.IsValid p → (g : ℕ) → bit_test p g ≡ true → bit_test (alloc_frame p).1 g ≡ true
alloc_frame_keeps p v g t = elim (alloc_frame-FirstFit p v) [
  | inl (f, h, e, all, a, u) ↦
      subst (λ x. bit_test x g ≡ true) (sym u)
        (ground (arith, t, get_or-set p.bitmap f g true (clear-in p.bitmap f e)))
  | inr (all, a, u) ↦ subst (λ x. bit_test x g ≡ true) (sym u) t
]
