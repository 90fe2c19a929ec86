-- ===== src/Paging/Rounds.antt =====
-- The loop of `vmm_alloc_range`: how it ends.
use sifar_os.Common.{
  ℕ, zero, suc, ◌+◌, ◌-◌, ◌*◌, ◌/◌, ◌%◌, ◌^◌, ◌<◌, ◌≤◌, ◌≡◌, ◌≢◌, ◌⊎◌, refl, sym, ap, subst, Bool,
  true, false, not, Option, none, some, arith, inl, inr, ◌==◌, if◌then◌else◌, Bool-cases, if_elim,
  ◌∙◌,
}
use sifar_os.Pmm.{Pmm, alloc_frame, free_frame}
use sifar_os.Paging.Tables.{Vm, align_down, translate_in}
use sifar_os.Paging.Ranges.{roll_back, after_map, fill_page, or_first, is_some, alloc_pages}
use sifar_os.Paging.Frames.{IsSpace-Shape, Fresh, alloc_frame-Fresh}
use sifar_os.Paging.Mapping.{Maps, map_in-Maps}
use sifar_os.Paging.Growing.{
  NoFrameZero, Grown, Restored, from, roll_back-Restored, taking, taking-IsSpace,
  taking-translate_in, grow,
}
use sifar_os.Paging.Unmapping.{meets, translate_in_pmm}

-- The pages from `begin` to `first` were mapped before.
unfoldable pub Led : Vm → ℕ → ℕ → ℕ → Type 0
Led o pd begin first =
    (v : ℕ)
    → v < 2 ^ 32
    → meets v begin (first - begin) ≡ true
    → translate_in o pd (align_down v) ≢ 0

-- How the loop ends at `last`.
pub data Ends (o : Vm) (pd begin last : ℕ) : Bool × Vm → Type 0 where
  failed : {m : Vm} → Restored o pd m → Ends o pd begin last (false, m)
  done :
      {m : Vm} (first : ℕ)
      → begin ≤ first
      → first ≤ last
      → first % 4096 ≡ 0
      → Grown o pd first last m
      → Led o pd begin first
      → Ends o pd begin last (true, m)

-- The state at the head of a round.
pub record Round (o : Vm) (pd begin : ℕ) (first : Option ℕ) (page : ℕ) (m : Vm) : Type 0 where
  pub grown : Grown o pd (from first page) page m
  pub led : Led o pd begin (from first page)
  pub past : 4096 ≤ from first page
  pub start_le : begin ≤ from first page
  pub first_le : from first page ≤ page
  pub first_aligned : from first page % 4096 ≡ 0
  pub page_aligned : page % 4096 ≡ 0

-- What one filled page leads to: a failed end or the next round.
Filled : Vm → ℕ → ℕ → ℕ → Option ℕ → ℕ → Bool × Vm → Type 0
Filled o pd begin last first page r =
    ((r.0 ≡ false) × Restored o pd r.1)
    ⊎ ((r.0 ≡ true) × Round o pd begin (or_first first page) (page + 4096) r.1)

pub nothing-Led : (o : Vm) (pd begin : ℕ) → begin % 4096 ≡ 0 → Led o pd begin begin
unfolding Led
nothing-Led o pd begin a v k e = absurd (ground arith)

skip-Round :
    (o m : Vm) (pd begin page : ℕ)
    → begin % 4096 ≡ 0
    → page ≤ 2 ^ 32 - 4096
    → translate_in m pd page ≢ 0
    → Round o pd begin none page m
    → Round o pd begin none (page + 4096) m
unfolding Led
skip-Round o m pd begin page a b mapped r = record {
  grown = record {
    space = r.grown.space;
    outside = λ v k e. r.grown.outside v k (ground (arith, r.page_aligned));
    inside = λ v k e. absurd (empty v e);
    keeps = r.grown.keeps;
  };
  led = λ v k e. elim (Bool-cases (v / 4096 == page / 4096)) [
    | inl here ↦
        (let q : page ≡ align_down v = ground (arith, r.page_aligned) in
          subst (λ x. translate_in o pd x ≢ 0) q
            (subst (λ x. x ≢ 0)
              (r.grown.outside page (omega arith) (ground (arith, r.page_aligned))) mapped))
    | inr away ↦ r.led v k (ground (arith, r.page_aligned))
  ];
  past = omega (arith, r.past);
  start_le = omega (arith, r.start_le);
  first_le = omega arith;
  first_aligned = omega (arith, r.page_aligned);
  page_aligned = omega (arith, r.page_aligned);
}
  where
    empty : (v : ℕ) → meets v (page + 4096) (page + 4096 - (page + 4096)) ≡ true → ⊥
    empty v e = ground (arith, r.page_aligned)

from-or_first :
    (first : Option ℕ) (page : ℕ) → from (or_first first page) (page + 4096) ≡ from first page
from-or_first none page = refl
from-or_first (some first) page = refl

-- After `vmm_map_in`.
map-Filled :
    (o m : Vm) (pd begin last page addr : ℕ) (q : Pmm) (first : Option ℕ) (r : Bool × Vm)
    → NoFrameZero o pd
    → Round o pd begin first page m
    → page ≤ 2 ^ 32 - 4096
    → translate_in m pd page ≡ 0
    → Fresh m.pmm addr q
    → addr ≢ 0
    → Maps (taking m addr q) pd page addr r
    → Filled o pd begin last first page (after_map pd first page addr r)
unfolding Filled
map-Filled o m pd begin last page addr q first (true, m') z d b empty f ne w = inr (
  refl,
  record {
    grown =
        grow o m m' pd page addr q first d.grown d.first_le d.first_aligned d.page_aligned b empty f
          ne w;
    led = subst (Led o pd begin) (sym (from-or_first first page)) d.led;
    past = omega (arith, from-or_first first page, d.past);
    start_le = omega (arith, from-or_first first page, d.start_le);
    first_le = omega (arith, from-or_first first page, d.first_le);
    first_aligned = ap (λ x. x % 4096) (from-or_first first page) ∙ d.first_aligned;
    page_aligned = omega (arith, d.page_aligned);
  },
)
map-Filled o m pd begin last page addr q first (false, m') z d b empty f ne w = inl (
  refl,
  roll_back-Restored o m _ pd page first z d.grown
      (let s = IsSpace-Shape w.space in record { away = s.away; different = s.different })
      (λ v k.
        translate_in_pmm m' (free_frame m'.pmm addr) pd v
        ∙ (w.reads v k ∙ taking-translate_in m pd addr v q d.grown.space f k))
      d.past d.first_le d.page_aligned b,
)

fill-Filled :
    (o m : Vm) (pd flags begin last page : ℕ) (first : Option ℕ) (r : ℕ × Pmm)
    → NoFrameZero o pd
    → Round o pd begin first page m
    → page ≤ 2 ^ 32 - 4096
    → translate_in m pd page ≡ 0
    → (r.0 ≢ 0 → Fresh m.pmm r.0 r.1)
    → Filled o pd begin last first page (fill_page m pd flags first page r)
unfolding Filled
fill-Filled o m pd flags begin last page first (addr, q) z d b empty fresh =
    if_elim (Filled o pd begin last first page) (addr == 0) _ _
      (λ e. inl (
        refl,
        roll_back-Restored o m _ pd page first z d.grown
            (let s = IsSpace-Shape d.grown.space in
              record { away = s.away; different = s.different })
            (λ v k. translate_in_pmm m q pd v) d.past d.first_le d.page_aligned b,
      ))
      (λ e.
        let f = fresh (λ k. ground arith) in
        map-Filled o m pd begin last page addr q first _ z d b empty f (λ k. ground arith)
          (map_in-Maps (taking m addr q) pd page addr flags
            (taking-IsSpace m pd addr q d.grown.space f) (omega arith)))

-- A round on a page that is mapped; `skip` is the end of the rounds after it.
mapped-Ends :
    (o m : Vm) (pd begin last page : ℕ) (first : Option ℕ) (skip : Bool × Vm)
    → NoFrameZero o pd
    → Round o pd begin first page m
    → page ≤ 2 ^ 32 - 4096
    → ((first ≡ none) → Ends o pd begin last skip)
    → Ends o pd begin last (if is_some first then (false, roll_back m pd first page) else skip)
mapped-Ends o m pd begin last page none skip z d b rest = rest refl
mapped-Ends o m pd begin last page (some first) skip z d b rest = failed (
    roll_back-Restored o m m pd page (some first) z d.grown (IsSpace-Shape d.grown.space)
      (λ v k. refl) d.past d.first_le d.page_aligned b)

-- A round on a page that is not mapped; `more` is the end of the rounds after it.
fill_page-Ends :
    (o : Vm) (pd begin last page : ℕ) (first : Option ℕ) (r more : Bool × Vm)
    → Filled o pd begin last first page r
    → (Round o pd begin (or_first first page) (page + 4096) r.1 → Ends o pd begin last more)
    → Ends o pd begin last (if r.0 then more else r)
unfolding Filled
fill_page-Ends o pd begin last page first (true, m) more (inl (e, k)) rest = absurd (clash e)
  where
    clash : true ≡ false → ⊥
    clash e = cc
fill_page-Ends o pd begin last page first (true, m) more (inr (e, k)) rest = rest k
fill_page-Ends o pd begin last page first (false, m) more (inl (e, k)) rest = failed k
fill_page-Ends o pd begin last page first (false, m) more (inr (e, k)) rest = absurd (clash e)
  where
    clash : false ≡ true → ⊥
    clash e = cc

pub alloc_pages-Ends :
    (n : ℕ) (o m : Vm) (pd flags begin last page : ℕ) (first : Option ℕ)
    → NoFrameZero o pd
    → begin % 4096 ≡ 0
    → Round o pd begin first page m
    → page + n * 4096 ≡ last
    → last ≤ 2 ^ 32 - 4096
    → Ends o pd begin last (alloc_pages m pd flags first n page)
unfolding alloc_pages
alloc_pages-Ends zero o m pd flags begin last page first z a d e b =
    done (from first page) d.start_le (omega (arith, d.first_le)) d.first_aligned
      (subst (λ x. Grown o pd (from first page) x m) (omega arith) d.grown) d.led
alloc_pages-Ends (suc n) o m pd flags begin last page first z a d e b =
    let r : Bool × Vm = fill_page m pd flags first page (alloc_frame m.pmm) in
    if_elim (Ends o pd begin last) (not (translate_in m pd page == 0)) _ _
      (λ c. mapped-Ends o m pd begin last page first _ z d (omega arith) (λ q.
        alloc_pages-Ends n o m pd flags begin last (page + 4096) first z a
          (subst (λ x. Round o pd begin x (page + 4096) m) (sym q)
            (skip-Round o m pd begin page a (omega arith) (λ k. ground arith)
              (subst (λ x. Round o pd begin x page m) q d)))
          (omega arith) b))
      (λ c.
        fill_page-Ends o pd begin last page first r _
          (fill-Filled o m pd flags begin last page first (alloc_frame m.pmm) z d (omega arith)
            (ground arith) (alloc_frame-Fresh m.pmm d.grown.space.frames_valid))
          (λ k.
            alloc_pages-Ends n o r.1 pd flags begin last (page + 4096) (or_first first page) z a k
              (omega arith) b))
