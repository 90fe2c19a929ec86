-- ===== src/Paging/Growing.antt =====
-- The rounds of `vmm_alloc_range`: one page more, or the way back.
use sifar_os.Common.{
  ℕ, ◌+◌, ◌-◌, ◌/◌, ◌%◌, ◌^◌, ◌<◌, ◌≤◌, ◌≡◌, ◌≢◌, sym, ap, subst, true, false, Option, none, some,
  arith, inl, inr, ◌==◌, if◌then◌else◌, Bool-cases, ◌∙◌,
}
use sifar_os.Pmm.{Pmm, bit_test}
use sifar_os.Paging.Tables.{Vm, frame_of, align_down, wipe, dir_index, translate_in}
use sifar_os.Paging.Ranges.{roll_back, or_first}
use sifar_os.Paging.Frames.{IsSpace, IsSpace-keep, Shape, Fresh}
use sifar_os.Paging.Opening.{same_seen}
use sifar_os.Paging.Mapping.{Maps}
use sifar_os.Paging.Unmapping.{meets, free_range-translate_in, free_range-Shape}

-- The pages from `first` up to `page` were not mapped in `o`; in `m` each has a frame that `o` had
-- free. Every other address reads as in `o`.
pub record Grown (o : Vm) (pd first page : ℕ) (m : Vm) : Type 0 where
  pub space : IsSpace m pd
  pub outside :
      (v : ℕ)
      → v < 2 ^ 32
      → meets v first (page - first) ≡ false
      → translate_in m pd v ≡ translate_in o pd v
  pub inside :
      (v : ℕ)
      → v < 2 ^ 32
      → meets v first (page - first) ≡ true
      → (translate_in o pd (align_down v) ≡ 0)
        × (translate_in m pd (align_down v) ≢ 0)
        × (bit_test o.pmm (translate_in m pd (align_down v) / 4096) ≡ false)
  pub keeps : (g : ℕ) → bit_test o.pmm g ≡ true → bit_test m.pmm g ≡ true

-- Every address reads as in `o`, and the tables have their shape.
pub record Restored (o : Vm) (pd : ℕ) (m : Vm) : Type 0 where
  pub shape : Shape m pd
  pub reads : (v : ℕ) → v < 2 ^ 32 → translate_in m pd v ≡ translate_in o pd v

-- No page but page 0, which the kernel maps to itself, is mapped to frame 0.
unfoldable pub NoFrameZero : Vm → ℕ → Type 0
NoFrameZero m pd =
    (v : ℕ) → 4096 ≤ v → v < 2 ^ 32 → translate_in m pd (align_down v) ≡ 0 → translate_in m pd v ≡ 0

-- The local `rollback_first`, where the range of allocated pages is empty as long as it is not set.
abbrev pub from : Option ℕ → ℕ → ℕ
from none page = page
from (some first) page = first

pub roll_back-Restored :
    (o m m' : Vm) (pd page : ℕ) (first : Option ℕ)
    → NoFrameZero o pd
    → Grown o pd (from first page) page m
    → Shape m' pd
    → ((v : ℕ) → v < 2 ^ 32 → translate_in m' pd v ≡ translate_in m pd v)
    → 4096 ≤ from first page
    → from first page ≤ page
    → page % 4096 ≡ 0
    → page ≤ 2 ^ 32 - 4096
    → Restored o pd (roll_back m' pd first page)
unfolding NoFrameZero
roll_back-Restored o m m' pd page none z g s same past l al b = record {
  shape = s;
  reads = λ v k. same v k ∙ g.outside v k (ground arith);
}
roll_back-Restored o m m' pd page (some first) z g s same past l al b = record {
  shape = free_range-Shape m' pd first (page - first) s (omega arith);
  reads = λ v k.
      free_range-translate_in m' pd first (page - first) v s (omega arith) k
      ∙ elim (Bool-cases (meets v first (page - first))) [
        | inl e ↦
            (let (a, b, c) = g.inside v k e in
              ground (arith, same (align_down v) (omega arith), z v (ground arith) k a))
        | inr e ↦ ground (arith, same v k, g.outside v k e)
      ];
}

-- The state after `pmm_alloc_frame` and the `memset` of the new frame.
abbrev pub taking : Vm → ℕ → Pmm → Vm
taking m addr q = record m { pmm = q; frames = wipe m.frames (frame_of addr) }

not_table :
    (m : Vm) (pd addr : ℕ) (q : Pmm)
    → Fresh m.pmm addr q
    → (g : ℕ) → bit_test m.pmm g ≡ true
    → g ≢ frame_of addr
not_table m pd addr q f g t e =
    clash (sym f.was_free ∙ (ap (bit_test m.pmm) (sym (e ∙ omega (arith, f.address))) ∙ t))
  where
    clash : false ≡ true → ⊥
    clash e = cc

pub taking-IsSpace :
    (m : Vm) (pd addr : ℕ) (q : Pmm)
    → IsSpace m pd
    → Fresh m.pmm addr q
    → IsSpace (taking m addr q) pd
taking-IsSpace m pd addr q s f =
    let ne : pd ≢ frame_of addr = not_table m pd addr q f pd s.dir_taken in
    IsSpace-keep m (taking m addr q) pd s f.valid (λ g t. ground (arith, f.taken g))
      (λ i k. (ground (arith, ne), ground (arith, ne)))

pub taking-translate_in :
    (m : Vm) (pd addr v : ℕ) (q : Pmm)
    → IsSpace m pd
    → Fresh m.pmm addr q
    → v < 2 ^ 32
    → translate_in (taking m addr q) pd v ≡ translate_in m pd v
taking-translate_in m pd addr v q s f k =
    let ne : pd ≢ frame_of addr = not_table m pd addr q f pd s.dir_taken in
    same_seen m (taking m addr q) pd v (ground (arith, ne)) (λ p. ground (
      arith,
      ne,
      not_table m pd addr q f (frame_of (m.frames pd (dir_index v)))
          (s.tables_taken (dir_index v) (omega arith) p),
    ))

-- One more page.
pub grow :
    (o m m' : Vm) (pd page addr : ℕ) (q : Pmm) (first : Option ℕ)
    → Grown o pd (from first page) page m
    → from first page ≤ page
    → from first page % 4096 ≡ 0
    → page % 4096 ≡ 0
    → page ≤ 2 ^ 32 - 4096
    → translate_in m pd page ≡ 0
    → Fresh m.pmm addr q
    → addr ≢ 0
    → Maps (taking m addr q) pd page addr (true, m')
    → Grown o pd (from (or_first first page) (page + 4096)) (page + 4096) m'
grow o m m' pd page addr q first g l fa pa b empty f ne w = at (or_first first page) (ground arith)
  where
    reads :
        (v : ℕ)
        → v < 2 ^ 32
        → translate_in m' pd v
          ≡ (if v / 4096 == page / 4096 then addr + v % 4096 else translate_in m pd v)
    reads v k =
        w.reads v k
        ∙ ap (λ x. if v / 4096 == page / 4096 then addr + v % 4096 else x)
            (taking-translate_in m pd addr v q g.space f k)

    free : bit_test o.pmm f.number ≡ false
    free = ground (arith, f.was_free, g.keeps f.number)

    inner :
        (v : ℕ)
        → v < 2 ^ 32
        → meets v (from first page) (page + 4096 - from first page) ≡ true
        → (translate_in o pd (align_down v) ≡ 0)
          × (translate_in m' pd (align_down v) ≢ 0)
          × (bit_test o.pmm (translate_in m' pd (align_down v) / 4096) ≡ false)
    inner v k c = elim (Bool-cases (v / 4096 == page / 4096)) [
      | inl here ↦
          (let e : page ≡ align_down v = ground arith in
            let r : translate_in m' pd (align_down v) ≡ addr =
              reads (align_down v) (omega arith) ∙ ground arith in
            (
              subst (λ x. translate_in o pd x ≡ 0) e
                  (sym (g.outside page (omega arith) (ground arith)) ∙ empty),
              subst (λ x. x ≢ 0) (sym r) ne,
              ap (bit_test o.pmm) (ap (λ x. x / 4096) r ∙ omega (arith, f.address)) ∙ free,
            ))
      | inr away ↦
          (let (a, b', c') = g.inside v k (ground arith) in
            let r : translate_in m pd (align_down v) ≡ translate_in m' pd (align_down v) =
              sym (reads (align_down v) (omega arith) ∙ ground arith) in
            (a, subst (λ x. x ≢ 0) r b', subst (λ x. bit_test o.pmm (x / 4096) ≡ false) r c'))
    ]

    at :
        (x : Option ℕ)
        → from x (page + 4096) ≡ from first page
        → Grown o pd (from x (page + 4096)) (page + 4096) m'
    at x e =
        subst (λ y. Grown o pd y (page + 4096) m') (sym e)
          (record {
            space = w.space;
            outside = λ v k c. ground (arith, reads v k, g.outside v k);
            inside = λ v k c. inner v k c;
            keeps = λ h t. w.keeps h (ground (arith, f.taken h, g.keeps h t));
          })
