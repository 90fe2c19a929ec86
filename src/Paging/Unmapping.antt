-- ===== src/Paging/Unmapping.antt =====
-- `vmm_unmap_in` and `vmm_free_range`, read back by `vmm_translate_in`.
use sifar_os.Common.{
  ℕ, zero, suc, ◌+◌, ◌-◌, ◌*◌, ◌/◌, ◌%◌, ◌^◌, ◌<◌, ◌≤◌, ◌≡◌, ◌≢◌, refl, sym, ap, subst, Bool, true,
  false, ◌&&◌, ◌||◌, not, arith, inl, inr, ◌==◌, ltb, leb, if◌then◌else◌, Bool-cases, if_elim, ◌∙◌,
}
use sifar_os.Pmm.{Pmm}
use sifar_os.Paging.Tables.{
  Vm, is_present, frame_of, align_down, align_up, dir_index, table_index, table_at, translate_in,
  unmap_in, clear_entry,
}
use sifar_os.Paging.Ranges.{free_page, free_pages, free_range, bad_range}
use sifar_os.Paging.Frames.{Shape, seen, translate_in-seen}
use sifar_os.Paging.Mapping.{same_page, poked, poked-translate}

-- What unmapping does, whatever was mapped: the page of `virt` reads as 0 and every other address
-- as before, and the tables keep their shape.
pub record Unmaps (m : Vm) (pd virt : ℕ) (m' : Vm) : Type 0 where
  pub shape : Shape m' pd
  pub reads :
      (v : ℕ)
      → v < 2 ^ 32
      → translate_in m' pd v ≡ (if same_page v virt then 0 else translate_in m pd v)

poked-Shape : (m : Vm) (pd t i w n : ℕ) → Shape m pd → t ≢ pd → Shape (poked m t i w n) pd
poked-Shape m pd t i w n s ne =
    let same : (j : ℕ) → (poked m t i w n).frames pd j ≡ m.frames pd j = λ j. ground (arith, ne) in
    record {
      away = λ j h p.
          subst (λ x. frame_of x ≢ pd) (sym (same j))
            (s.away j h (subst (λ x. is_present x ≡ true) (same j) p));
      different = λ j k h l p q e.
          s.different j k h l (subst (λ x. is_present x ≡ true) (same j) p)
            (subst (λ x. is_present x ≡ true) (same k) q)
            (sym (ap frame_of (same j)) ∙ (e ∙ ap frame_of (same k)));
    }

-- Two addresses of one page are mapped or not together.
absent-page :
    (m : Vm) (pd virt v : ℕ)
    → same_page v virt ≡ true
    → (is_present (m.frames pd (dir_index virt)) ≡ true
        → is_present (m.frames (frame_of (m.frames pd (dir_index virt))) (table_index virt))
          ≡ false)
    → translate_in m pd v ≡ 0
absent-page m pd virt v e a =
    let k : dir_index virt ≡ dir_index v = ground arith in
    translate_in-seen m pd v
    ∙ (ap (λ x. seen (m.frames pd x) (m.frames (frame_of (m.frames pd x)) (table_index v)) v)
          (sym k)
        ∙ elim (Bool-cases (is_present (m.frames pd (dir_index virt)))) [
          | inl there ↦ ground (arith, a there)
          | inr away ↦ ground arith
        ])

nothing-Unmaps :
    (m : Vm) (pd virt : ℕ)
    → Shape m pd
    → (is_present (m.frames pd (dir_index virt)) ≡ true
        → is_present (m.frames (frame_of (m.frames pd (dir_index virt))) (table_index virt))
          ≡ false)
    → Unmaps m pd virt m
nothing-Unmaps m pd virt s a = record {
  shape = s;
  reads = λ v k.
      if_elim (λ x. translate_in m pd v ≡ x) (same_page v virt) _ _
        (λ e. absent-page m pd virt v e a) (λ e. refl);
}

aligned-Unmaps :
    (m : Vm) (pd virt : ℕ)
    → Shape m pd
    → virt < 2 ^ 32
    → Unmaps m pd virt (clear_entry m virt (table_at m pd virt))
unfolding table_at
aligned-Unmaps m pd virt s h =
    let e : ℕ = m.frames pd (dir_index virt) in
    if_elim (λ x. Unmaps m pd virt (clear_entry m virt x)) (is_present e) _ _
      (λ p.
        if_elim (Unmaps m pd virt) (is_present (m.frames (frame_of e) (table_index virt))) _ _
          (λ q. record {
            shape =
                poked-Shape m pd _ _ 0 (m.mapped_pages - 1) s
                  (s.away (dir_index virt) (omega arith) p);
            reads = λ v k. poked-translate m pd virt 0 (m.mapped_pages - 1) v s h k p;
          })
          (λ q. nothing-Unmaps m pd virt s (λ r. q)))
      (λ p. nothing-Unmaps m pd virt s (λ r. ground arith))

-- `vmm_unmap_in` makes the page of its address read as 0 and leaves every other address as it reads.
pub unmap_in-Unmaps :
    (m : Vm) (pd virt : ℕ) → Shape m pd → virt < 2 ^ 32 → Unmaps m pd virt (unmap_in m pd virt)
unfolding unmap_in
unmap_in-Unmaps m pd virt s h =
    let u = aligned-Unmaps m pd (align_down virt) s (omega arith) in
    record {
      shape = u.shape;
      reads = λ v k. u.reads v k ∙ ap (λ x. if x then 0 else translate_in m pd v) (same v);
    }
  where
    same : (v : ℕ) → same_page v (align_down virt) ≡ same_page v virt
    same v = ap (λ x. v / 4096 == x) (omega arith)

-- Whether `v` lies on one of `n` pages from `page` on.
abbrev pub in_pages : ℕ → ℕ → ℕ → Bool
in_pages v page n = leb (page / 4096) (v / 4096) && ltb (v / 4096) (page / 4096 + n)

-- What freeing `n` pages does. A page that reads as 0 at its start is taken for one that is not
-- mapped.
pub record Frees (m : Vm) (pd page n : ℕ) (m' : Vm) : Type 0 where
  pub shape : Shape m' pd
  pub reads :
      (v : ℕ)
      → v < 2 ^ 32
      → translate_in m' pd v ≡ (
          if in_pages v page n && not (translate_in m pd (align_down v) == 0)
          then 0
          else translate_in m pd v)

-- What an address reads as does not depend on the allocator.
pub translate_in_pmm :
    (m : Vm) (q : Pmm) (pd v : ℕ) → translate_in (record m { pmm = q }) pd v ≡ translate_in m pd v
translate_in_pmm m q pd v =
    translate_in-seen (record m { pmm = q }) pd v ∙ sym (translate_in-seen m pd v)

pub free_page-Frees :
    (m : Vm) (pd page : ℕ)
    → Shape m pd
    → page < 2 ^ 32
    → page % 4096 ≡ 0
    → Frees m pd page 1 (free_page m pd page)
unfolding free_page
free_page-Frees m pd page s h a =
    let u = unmap_in-Unmaps m pd page s h in
    if_elim (Frees m pd page 1) (translate_in m pd page == 0) _ _
      (λ z. record {
        shape = s;
        reads = λ v k.
            if_elim (λ x. translate_in m pd v ≡ x)
              (in_pages v page 1 && not (translate_in m pd (align_down v) == 0)) _ _
              (λ e.
                let q : align_down v ≡ page = ground arith in
                ground (arith, ap (translate_in m pd) q))
              (λ e. refl);
      })
      (λ z. record {
        shape = record { away = u.shape.away; different = u.shape.different };
        reads = λ v k.
            translate_in_pmm (unmap_in m pd page) _ pd v
            ∙ (u.reads v k ∙ elim (Bool-cases (same_page v page)) [
              | inl e ↦
                  (let q : align_down v ≡ page = ground arith in
                    ground (arith, ap (translate_in m pd) q))
              | inr e ↦ ground arith
            ]);
      })

pub free_pages-Frees :
    (n : ℕ) (m : Vm) (pd page : ℕ)
    → Shape m pd
    → page + n * 4096 ≤ 2 ^ 32
    → page % 4096 ≡ 0
    → Frees m pd page n (free_pages m pd n page)
unfolding free_pages
free_pages-Frees zero m pd page s h a = record { shape = s; reads = λ v k. ground arith }
free_pages-Frees (suc n) m pd page s h a =
    let one = free_page-Frees m pd page s (omega arith) a in
    let rest =
      free_pages-Frees n (free_page m pd page) pd (page + 4096) one.shape (omega arith)
        (omega arith) in
    record {
      shape = rest.shape;
      reads = λ v k.
          ground (arith, rest.reads v k, one.reads v k, one.reads (align_down v) (omega arith));
    }

-- Whether the page of `v` meets the `size` bytes from `start` on.
abbrev pub meets : ℕ → ℕ → ℕ → Bool
meets v start size = leb (start / 4096) (v / 4096) && ltb (align_down v) (start + size)

-- `vmm_free_range` on a range that ends before the last page of memory makes every page read as 0
-- that meets the range and read as something at its start; every other address reads as before.
pub free_range-translate_in :
    (m : Vm) (pd start size v : ℕ)
    → Shape m pd
    → start + size ≤ 2 ^ 32 - 4096
    → v < 2 ^ 32
    → translate_in (free_range m pd start size) pd v ≡ (
        if meets v start size && (ltb 0 size && not (translate_in m pd (align_down v) == 0))
        then 0
        else translate_in m pd v)
unfolding free_range
free_range-translate_in m pd start size v s h k =
    let n : ℕ = (align_up (start + size) - align_down start) / 4096 in
    let f = free_pages-Frees n m pd (align_down start) s (omega arith) (omega arith) in
    ground (arith, f.reads v k)

pub free_range-Shape :
    (m : Vm) (pd start size : ℕ)
    → Shape m pd
    → start + size ≤ 2 ^ 32 - 4096
    → Shape (free_range m pd start size) pd
unfolding free_range
free_range-Shape m pd start size s h =
    let n : ℕ = (align_up (start + size) - align_down start) / 4096 in
    let f = free_pages-Frees n m pd (align_down start) s (omega arith) (omega arith) in
    if_elim (λ x. Shape x pd) (size == 0 || bad_range start size) _ _ (λ e. s)
      (λ e.
        if_elim (λ x. Shape x pd) (ltb (align_up (start + size)) (align_down start)) _ _ (λ e. s)
          (λ e. f.shape))
