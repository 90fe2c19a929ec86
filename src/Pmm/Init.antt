-- ===== src/Pmm/Init.antt =====
-- `pmm_init`: which frames it hands to the allocator.
use sifar_os.Common.{
  ℕ, zero, suc, ◌+◌, ◌-◌, ◌*◌, ◌/◌, ◌%◌, ◌^◌, ◌<◌, ◌≤◌, ◌≡◌, refl, Bool, true, false, arith, List,
  [], ◌∷◌, if◌then◌else◌, ◌⊎◌, inl, inr, leb, ltb, ◌==◌, Bool-cases, sym, ◌&&◌, ◌||◌, length, min,
  not, some, length-replicate, ◌∙◌,
}
use sifar_os.Pmm.{
  Pmm, page_size, max_managed_phys, bit_test, mark_used_one, mark_free_one, mark_used_loop,
  mark_free_loop, mark_used, mark_free, Region, Survey, survey, survey_region, release_regions,
  init, all_taken, reserved_end, align_up, e820_usable, region_end,
}
use sifar_os.Pmm.Inv.{IsValid, mark_used_one-IsValid, mark_free_one-IsValid}
use sifar_os.Pmm.Bits.{get_or-set, clear-in, count_set-replicate, get_or-replicate}

-- `q` manages the same frames as `p`, and its bits are `bit`.
record Marked (p q : Pmm) (bit : ℕ → Bool) : Type 0 where
  valid : IsValid q
  total : q.total_frames ≡ p.total_frames
  bits : (g : ℕ) → g < p.total_frames → bit_test q g ≡ bit g

mark_free_one-bit :
    (p : Pmm) (f g : ℕ)
    → IsValid p
    → f < p.total_frames
    → bit_test (mark_free_one p f) g ≡ (if f == g then false else bit_test p g)
unfolding mark_free_one
mark_free_one-bit p f g v h = ground (arith, get_or-set p.bitmap f g false, v.size, v.words)

total-mark_free_one : (p : Pmm) (f : ℕ) → (mark_free_one p f).total_frames ≡ p.total_frames
unfolding mark_free_one
total-mark_free_one p f = ground arith

mark_free_loop-Marked :
    (n f : ℕ) (p : Pmm)
    → IsValid p
    → (n ≡ 0) ⊎ (f + n ≤ p.total_frames)
    → Marked p
        (mark_free_loop n f p)
        (λ g. if leb f g && ltb g (f + n) then false else bit_test p g)
unfolding mark_free_loop
mark_free_loop-Marked zero f p v h = record { valid = v; total = refl; bits = λ g k. ground arith }
mark_free_loop-Marked (suc n) f p v h =
    let in_range : f < p.total_frames = omega arith in
    let q = mark_free_one p f in
    let t = total-mark_free_one p f in
    let rest =
      mark_free_loop-Marked n (f + 1) q (mark_free_one-IsValid p f in_range v)
        (inr (omega arith)) in
    record {
      valid = rest.valid;
      total = rest.total ∙ t;
      bits = λ g k. ground (arith, rest.bits g, mark_free_one-bit p f g v in_range);
    }

mark_used_one-bit :
    (p : Pmm) (f g : ℕ) → bit_test (mark_used_one p f) g ≡ (if f == g then true else bit_test p g)
unfolding mark_used_one
mark_used_one-bit p f g = ground (arith, get_or-set p.bitmap f g true, clear-in p.bitmap f)

total-mark_used_one : (p : Pmm) (f : ℕ) → (mark_used_one p f).total_frames ≡ p.total_frames
unfolding mark_used_one
total-mark_used_one p f = ground arith

mark_used_loop-Marked :
    (n f : ℕ) (p : Pmm)
    → IsValid p
    → (n ≡ 0) ⊎ (f + n ≤ p.total_frames)
    → Marked p (mark_used_loop n f p) (λ g. if leb f g && ltb g (f + n) then true else bit_test p g)
unfolding mark_used_loop
mark_used_loop-Marked zero f p v h = record { valid = v; total = refl; bits = λ g k. ground arith }
mark_used_loop-Marked (suc n) f p v h =
    let in_range : f < p.total_frames = omega arith in
    let q = mark_used_one p f in
    let t = total-mark_used_one p f in
    let rest =
      mark_used_loop-Marked n (f + 1) q (mark_used_one-IsValid p f in_range v)
        (inr (omega arith)) in
    record {
      valid = rest.valid;
      total = rest.total ∙ t;
      bits = λ g k. ground (arith, rest.bits g, mark_used_one-bit p f g);
    }

-- The whole page of frame `g` lies in the region.
abbrev pub holds_page : Region → ℕ → Bool
holds_page r g =
    (r.type == e820_usable)
    && (leb r.base (g * page_size) && leb ((g + 1) * page_size) (r.base + r.length))

pub covered : List Region → ℕ → Bool
covered [] g = false
covered (r ∷ rs) g = holds_page r g || covered rs g

-- Lengths are 64-bit.
abbrev pub AreSized : List Region → Type 0
AreSized [] = Unit {0}
AreSized (r ∷ rs) = (r.length < 2 ^ 64) × AreSized rs

mark_free-Marked :
    (p : Pmm) (base length : ℕ)
    → IsValid p
    → length < 2 ^ 64
    → Marked p (mark_free p base length) (λ g.
      if leb base (g * page_size) && leb ((g + 1) * page_size) (base + length)
      then false
      else bit_test p g)
unfolding mark_free
mark_free-Marked p base length v w = elim (Bool-cases (leb max_managed_phys base || length == 0)) [
  | inl skip ↦ rw skip (record { valid = v; total = refl; bits = λ g k. ground (arith, v.small) })
  | inr go ↦
      let first = (base + page_size - 1) / page_size in
      let n = min (region_end base length / page_size) p.total_frames - first in
      let m = mark_free_loop-Marked n first p v (ground arith) in
      rw go (record {
        valid = m.valid;
        total = m.total;
        bits = λ g k. m.bits g k ∙ ground (arith, v.small);
      })
]

total-mark_free :
    (p : Pmm) (r : Region)
    → IsValid p
    → r.length < 2 ^ 64
    → (mark_free p r.base r.length).total_frames ≡ p.total_frames
total-mark_free p r v w = (mark_free-Marked p r.base r.length v w).total

release_one : Pmm → Region → Pmm
release_one p r = if r.type == e820_usable then mark_free p r.base r.length else p

release_one-Marked :
    (p : Pmm) (r : Region)
    → IsValid p
    → r.length < 2 ^ 64
    → Marked p (release_one p r) (λ g. if holds_page r g then false else bit_test p g)
unfolding release_one
release_one-Marked p r v w = elim (Bool-cases (r.type == e820_usable)) [
  | inl use_it ↦ rw use_it (mark_free-Marked p r.base r.length v w)
  | inr skip ↦ rw skip (record { valid = v; total = refl; bits = λ g k. refl })
]

release_regions-Marked :
    (rs : List Region) (p : Pmm)
    → IsValid p
    → AreSized rs
    → Marked p (release_regions p rs) (λ g. if covered rs g then false else bit_test p g)
unfolding release_regions covered release_one
release_regions-Marked [] p v w = record { valid = v; total = refl; bits = λ g k. refl }
release_regions-Marked (r ∷ rs) p v (w, ws) =
    let one = release_one-Marked p r v w in
    let rest = release_regions-Marked rs (release_one p r) one.valid ws in
    record {
      valid = rest.valid;
      total = rest.total ∙ one.total;
      bits = λ g k. ground (arith, rest.bits g (rw one.total k), one.bits g k);
    }

survey_region-le :
    (s : Survey) (r : Region)
    → s.highest ≤ max_managed_phys
    → (survey_region s r).highest ≤ max_managed_phys
unfolding survey_region
survey_region-le s r h = ground arith

survey-le :
    (rs : List Region) (s : Survey)
    → s.highest ≤ max_managed_phys
    → (survey s rs).highest ≤ max_managed_phys
unfolding survey
survey-le [] s h = h
survey-le (r ∷ rs) s h = survey-le rs (survey_region s r) (survey_region-le s r h)

all_taken-IsValid : (s : Survey) → s.highest ≤ max_managed_phys → IsValid (all_taken s)
all_taken-IsValid s h = record {
  used = sym (count_set-replicate frames (words * 32) (omega arith));
  words = refl;
  size = omega (arith, length-replicate {0} (words * 32) true);
  small = omega arith;
}
  where
    frames : ℕ
    frames = s.highest / page_size

    words : ℕ
    words = (frames + 31) / 32

mark_used-Marked :
    (p : Pmm) (end : ℕ)
    → IsValid p
    → end < max_managed_phys
    → Marked p
        (mark_used p 0 (align_up end page_size))
        (λ g. if ltb (g * page_size) end then true else bit_test p g)
unfolding mark_used
mark_used-Marked p end v h = elim (Bool-cases (leb last_byte 0)) [
  | inl skip ↦ rw skip (record { valid = v; total = refl; bits = λ g k. ground arith })
  | inr go ↦
      let n = min ((last_byte + page_size - 1) / page_size) p.total_frames - 0 in
      let m = mark_used_loop-Marked n 0 p v (inr (omega arith)) in
      rw go (record { valid = m.valid; total = m.total; bits = λ g k. m.bits g k ∙ ground arith })
]
  where
    last_byte : ℕ
    last_byte = min ((0 + align_up end page_size) % 2 ^ 64) max_managed_phys

abbrev boot_survey : List Region → Survey
boot_survey rs = survey (record { highest = 0; bytes = 0 }) rs

abbrev boot_end : ℕ → List Region → ℕ
boot_end kernel_end rs = reserved_end kernel_end (all_taken (boot_survey rs)).bitmap_words

init_parts :
    (kernel_end : ℕ) (rs : List Region) (p : Pmm)
    → init kernel_end rs ≡ some p
    → (boot_end kernel_end rs < max_managed_phys)
      × (mark_used
            (release_regions (all_taken (boot_survey rs)) rs)
            0
            (align_up (boot_end kernel_end rs) page_size)
          ≡ p)
unfolding init
init_parts kernel_end rs p e = ground arith

booted-Marked :
    (kernel_end : ℕ) (rs : List Region)
    → AreSized rs
    → boot_end kernel_end rs < max_managed_phys
    → Marked
        (all_taken (boot_survey rs))
        (mark_used
          (release_regions (all_taken (boot_survey rs)) rs)
          0
          (align_up (boot_end kernel_end rs) page_size))
        (λ g. not (covered rs g && leb (boot_end kernel_end rs) (g * page_size)))
booted-Marked kernel_end rs w h =
    let p = all_taken (boot_survey rs) in
    let v = all_taken-IsValid (boot_survey rs) (survey-le rs _ (omega arith)) in
    let r = release_regions-Marked rs p v w in
    let u = mark_used-Marked (release_regions p rs) (boot_end kernel_end rs) r.valid h in
    record {
      valid = u.valid;
      total = u.total ∙ r.total;
      bits = λ g k.
          ground
            (arith, u.bits g (rw r.total k), r.bits g k, get_or-replicate (p.bitmap_words * 32) g);
    }

same_words :
    (p q : Pmm)
    → IsValid p
    → IsValid q
    → q.total_frames ≡ p.total_frames
    → q.bitmap_words ≡ p.bitmap_words
same_words p q v w e = ground (arith, v.words, w.words)

-- A managed frame is free after boot exactly if its whole page lies in one of the usable regions
-- of the memory map and it starts at or above the end of the kernel image and the bitmap; the
-- allocator's invariant holds then, with at most 2 ^ 18 frames managed. Region lengths are 64-bit.
pub init-bit :
    (kernel_end : ℕ) (rs : List Region) (p : Pmm) (g : ℕ)
    → AreSized rs
    → init kernel_end rs ≡ some p
    → g < p.total_frames
    → IsValid p
      × (bit_test p g
          ≡ not (covered rs g && leb (reserved_end kernel_end p.bitmap_words) (g * page_size)))
init-bit kernel_end rs p g w e =
    let (h, made) = init_parts kernel_end rs p e in
    let m = booted-Marked kernel_end rs w h in
    let v = all_taken-IsValid (boot_survey rs) (survey-le rs _ (omega arith)) in
    rw (← made) (λ k.
      (m.valid, ground (arith, m.bits g (rw (← m.total) k), same_words _ _ v m.valid m.total)))
