-- ===== src/Paging/Allocating.antt =====
-- `vmm_alloc_range`: all of its range or nothing.
use sifar_os.Common.{
  ℕ, ◌+◌, ◌-◌, ◌/◌, ◌^◌, ◌<◌, ◌≤◌, ◌≡◌, ◌≢◌, refl, sym, subst, Bool, true, false, ◌&&◌, ◌||◌, none,
  arith, inl, inr, ◌==◌, ltb, Bool-cases, if_elim,
}
use sifar_os.Pmm.{bit_test}
use sifar_os.Paging.Tables.{Vm, user_min, user_max, is_user, align_down, align_up, translate_in}
use sifar_os.Paging.Ranges.{bad_range, alloc_range}
use sifar_os.Paging.Frames.{IsSpace}
use sifar_os.Paging.Growing.{NoFrameZero}
use sifar_os.Paging.Unmapping.{meets}
use sifar_os.Paging.Rounds.{Led, Ends, failed, done, Round, nothing-Led, alloc_pages-Ends}

-- What `vmm_alloc_range` does for the pages that meet its range. If it fails, every address reads
-- as before. If it succeeds, each page of the range is mapped; one that was not mapped has a frame
-- that was free; and every other address reads as before.
pub record Allocates (o : Vm) (pd start size : ℕ) (r : Bool × Vm) : Type 0 where
  pub fails : r.0 ≡ false → (v : ℕ) → v < 2 ^ 32 → translate_in r.1 pd v ≡ translate_in o pd v
  pub space : r.0 ≡ true → IsSpace r.1 pd
  pub mapped :
      r.0 ≡ true
      → (v : ℕ) → v < 2 ^ 32
      → meets v start size && ltb 0 size ≡ true
      → translate_in r.1 pd (align_down v) ≢ 0
  pub fresh :
      r.0 ≡ true
      → (v : ℕ) → v < 2 ^ 32
      → meets v start size && ltb 0 size ≡ true
      → translate_in o pd (align_down v) ≡ 0
      → bit_test o.pmm (translate_in r.1 pd (align_down v) / 4096) ≡ false
  pub others :
      r.0 ≡ true
      → (v : ℕ) → v < 2 ^ 32
      → (meets v start size && (ltb 0 size && (translate_in o pd (align_down v) == 0)) ≡ false)
      → translate_in r.1 pd v ≡ translate_in o pd v

refused-Allocates : (o : Vm) (pd start size : ℕ) → Allocates o pd start size (false, o)
refused-Allocates o pd start size = record {
  fails = λ e v k. refl;
  space = λ e. absurd (clash e);
  mapped = λ e. absurd (clash e);
  fresh = λ e. absurd (clash e);
  others = λ e v k c. refl;
}
  where
    clash : false ≡ true → ⊥
    clash e = cc

Ends-Allocates :
    (o : Vm) (pd start size : ℕ) (r : Bool × Vm)
    → 0 < size
    → start + size ≤ 2 ^ 32 - 4096
    → Ends o pd (align_down start) (align_up (start + size)) r
    → Allocates o pd start size r
unfolding Led
Ends-Allocates o pd start size (false, m) p b (failed e) = record {
  fails = λ c v k. e.reads v k;
  space = λ c. absurd (clash c);
  mapped = λ c. absurd (clash c);
  fresh = λ c. absurd (clash c);
  others = λ c v k d. e.reads v k;
}
  where
    clash : false ≡ true → ⊥
    clash e = cc
Ends-Allocates o pd start size (true, m) p b (done first l h a g led) = record {
  fails = λ c. absurd (clash c);
  space = λ c. g.space;
  mapped = λ c v k d. elim (Bool-cases (meets v first (align_up (start + size) - first))) [
    | inl new ↦ (let (x, y, w) = g.inside v k new in y)
    | inr old ↦
        subst (λ x. x ≢ 0) (sym (g.outside (align_down v) (omega arith) (ground arith)))
          (led v k (ground arith))
  ];
  fresh = λ c v k d e. elim (Bool-cases (meets v first (align_up (start + size) - first))) [
    | inl new ↦ (let (x, y, w) = g.inside v k new in w)
    | inr old ↦ absurd (led v k (ground arith) e)
  ];
  others = λ c v k d. elim (Bool-cases (meets v first (align_up (start + size) - first))) [
    | inl new ↦ (let (x, y, w) = g.inside v k new in absurd (ground arith))
    | inr old ↦ g.outside v k old
  ];
}
  where
    clash : true ≡ false → ⊥
    clash e = cc

-- `vmm_alloc_range` from an address past the first page, on a well-formed space in which no page
-- but page 0 is mapped to frame 0, is all or nothing: if it fails, every address reads as before; if it succeeds, the pages
-- that meet the range are mapped, those that were not before have frames that were free, every other
-- address reads as before, and the space is well formed.
pub alloc_range-Allocates :
    (m : Vm) (pd start size flags : ℕ)
    → IsSpace m pd
    → NoFrameZero m pd
    → 4096 ≤ start
    → Allocates m pd start size (alloc_range m pd start size flags)
unfolding alloc_range
alloc_range-Allocates m pd start size flags s z h =
    if_elim (Allocates m pd start size) (size == 0) _ _ (λ e. empty_range e)
      (λ e.
        if_elim (Allocates m pd start size) (bad_range start size) _ _
          (λ c. refused-Allocates m pd start size)
          (λ c.
            if_elim (Allocates m pd start size)
              (is_user flags && (ltb start user_min || ltb user_max (start + size))) _ _
              (λ d. refused-Allocates m pd start size)
              (λ d.
                if_elim (Allocates m pd start size)
                  (ltb (align_up (start + size)) (align_down start)) _ _
                  (λ f. refused-Allocates m pd start size)
                  (λ f. Ends-Allocates m pd start size _ (ground arith) (ground arith) (
                    alloc_pages-Ends _ m m pd flags (align_down start) (align_up (start + size))
                      (align_down start) none z (omega arith) begins (ground arith)
                      (ground arith))))))
  where
    empty_range : (size == 0) ≡ true → Allocates m pd start size (true, m)
    empty_range e = record {
      fails = λ c v k. refl;
      space = λ c. s;
      mapped = λ c v k d. absurd (ground arith);
      fresh = λ c v k d. absurd (ground arith);
      others = λ c v k d. refl;
    }

    begins : Round m pd (align_down start) none (align_down start) m
    begins = record {
      grown = record {
        space = s;
        outside = λ v k e. refl;
        inside = λ v k e. absurd (ground arith);
        keeps = λ g t. t;
      };
      led = nothing-Led m pd (align_down start) (omega arith);
      past = omega arith;
      start_le = omega arith;
      first_le = omega arith;
      first_aligned = omega arith;
      page_aligned = omega arith;
    }
