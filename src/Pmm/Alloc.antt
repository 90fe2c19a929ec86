-- ===== src/Pmm/Alloc.antt =====
-- `pmm_alloc_frame` takes the lowest free frame, or reports that none is free.
use native.Mathlib.Nat.{add-zero}
use sifar_os.Common.{
  ℕ, zero, suc, ◌+◌, ◌*◌, ◌%◌, ◌^◌, ◌<◌, ◌≤◌, ◌≡◌, refl, true, false, Option, none, some, arith,
  ◌⊎◌, inl, inr, leb, Bool-cases, sym, subst,
}
use sifar_os.Pmm.{Pmm, page_size, bit_test, take_frame, scan_word, scan_words, all_set, alloc_frame}
use sifar_os.Pmm.Inv.{IsValid, take_frame-IsValid}

-- Every managed frame from `lo` up to `hi` is taken.
abbrev pub Taken : Pmm → ℕ → ℕ → Type 0
Taken p lo hi = (g : ℕ) → lo ≤ g → g < hi → g < p.total_frames → bit_test p g ≡ true

-- The outcome of a search from `lo` up to `hi` for the lowest free frame.
abbrev pub Lowest : Pmm → ℕ → ℕ → Option ℕ → Type 0
Lowest p lo hi none = Taken p lo hi
Lowest p lo hi (some f) =
    (lo ≤ f) × (f < hi) × (f < p.total_frames) × (bit_test p f ≡ false) × Taken p lo f

Taken-join : (p : Pmm) (lo mid hi : ℕ) → Taken p lo mid → Taken p mid hi → Taken p lo hi
Taken-join p lo mid hi a b g h k m = ground (arith, a g, b g)

Lowest-join :
    (p : Pmm) (lo mid hi : ℕ) (r : Option ℕ)
    → lo ≤ mid
    → Taken p lo mid
    → Lowest p mid hi r
    → Lowest p lo hi r
Lowest-join p lo mid hi none h a b = Taken-join p lo mid hi a b
Lowest-join p lo mid hi (some f) h a (b, c, d, e, t) =
    (omega arith, c, d, e, Taken-join p lo mid f a t)

Taken-one : (p : Pmm) (f hi : ℕ) → hi ≤ f + 1 → bit_test p f ≡ true → Taken p f hi
Taken-one p f hi k e g h l m = let s : f ≡ g = omega arith in subst (λ x. bit_test p x ≡ true) s e

Taken-beyond : (p : Pmm) (f hi : ℕ) → p.total_frames ≤ f → Taken p f hi
Taken-beyond p f hi h g a b c = absurd (omega arith)

scan_word-Lowest :
    (p : Pmm) (w n b hi : ℕ) → w * 32 + b + n ≡ hi → Lowest p (w * 32 + b) hi (scan_word p w n b)
unfolding scan_word
scan_word-Lowest p w zero b hi e = λ g h k m. absurd (omega arith)
scan_word-Lowest p w (suc n) b hi e = elim (Bool-cases (leb p.total_frames (w * 32 + b))) [
  | inl past ↦ rw past (Taken-beyond p _ hi (ground arith))
  | inr inside ↦ rw inside (elim (Bool-cases (bit_test p (w * 32 + b))) [
    | inl taken ↦ rw taken (
        Lowest-join p (w * 32 + b) (w * 32 + (b + 1)) hi _ (omega arith)
          (Taken-one p (w * 32 + b) _ (omega arith) taken)
          (scan_word-Lowest p w n (b + 1) hi (omega arith)))
    | inr free ↦
        rw free (omega arith, omega arith, ground arith, free, λ g h k m. absurd (omega arith))
  ])
]

all_set-Taken : (p : Pmm) (n f hi : ℕ) → f + n ≡ hi → all_set p n f ≡ true → Taken p f hi
unfolding all_set
all_set-Taken p zero f hi e h = λ g a b c. absurd (omega arith)
all_set-Taken p (suc n) f hi e h =
    Taken-join p f (f + 1) hi (Taken-one p f (f + 1) (omega arith) (ground arith))
      (all_set-Taken p n (f + 1) hi (omega arith) (ground arith))

or_rest :
    (p : Pmm) (lo mid hi : ℕ) (o r : Option ℕ)
    → lo ≤ mid
    → mid ≤ hi
    → Lowest p lo mid o
    → Lowest p mid hi r
    → Lowest p lo hi (elim o [ some f ↦ some f | none ↦ r ])
or_rest p lo mid hi none r h k a b = Lowest-join p lo mid hi r h a b
or_rest p lo mid hi (some f) r h k (a, b, c, d, e) rest = (a, omega arith, c, d, e)

scan_words-Lowest :
    (p : Pmm) (n w hi : ℕ) → (w + n) * 32 ≡ hi → Lowest p (w * 32) hi (scan_words p n w)
unfolding scan_words
scan_words-Lowest p zero w hi e = λ g h k m. absurd (omega arith)
scan_words-Lowest p (suc n) w hi e =
    let rest : Lowest p ((w + 1) * 32) hi (scan_words p n (w + 1)) =
      scan_words-Lowest p n (w + 1) hi (omega arith) in
    let here : Lowest p (w * 32) ((w + 1) * 32) (scan_word p w 32 0) =
      subst (λ (s : ℕ). Lowest p s ((w + 1) * 32) (scan_word p w 32 0)) (add-zero (w * 32))
        (scan_word-Lowest p w 32 0 ((w + 1) * 32) (omega arith)) in
    elim (Bool-cases (all_set p 32 (w * 32))) [
      | inl full ↦ rw full (
          Lowest-join p (w * 32) ((w + 1) * 32) hi _ (omega arith)
            (all_set-Taken p 32 (w * 32) _ (omega arith) full) rest)
      | inr gap ↦ rw gap (
          or_rest p (w * 32) ((w + 1) * 32) hi (scan_word p w 32 0) _ (omega arith) (omega arith)
            here rest)
    ]

scan-Lowest :
    (p : Pmm) → IsValid p → Lowest p 0 (p.bitmap_words * 32) (scan_words p p.bitmap_words 0)
scan-Lowest p v = scan_words-Lowest p p.bitmap_words 0 (p.bitmap_words * 32) (omega arith)

-- What a request for one frame yields: the lowest free frame, marked taken and nothing else
-- changed, or 0 and no change if every frame is taken.
abbrev pub FirstFit : Pmm → ℕ × Pmm → Type 0
FirstFit p (addr, q) =
    ((f : ℕ) × (f < p.total_frames)
      × (bit_test p f ≡ false)
      × Taken p 0 f
      × (addr ≡ f * page_size)
      × (q ≡ take_frame p f))
    ⊎ (Taken p 0 p.total_frames × (addr ≡ 0) × (q ≡ p))

outcome :
    (p : Pmm) (r : Option ℕ)
    → IsValid p
    → Lowest p 0 (p.bitmap_words * 32) r
    → FirstFit p (elim r [ none ↦ (0, p) | some f ↦ (f * page_size % 2 ^ 32, take_frame p f) ])
outcome p none v t = inr (λ g a b c. t g a (omega arith) c, refl, refl)
outcome p (some f) v (a, b, c, d, t) = inl (f, c, d, t, omega arith, refl)

-- On a valid allocator `pmm_alloc_frame` is first fit: it returns the address of the lowest free
-- frame and takes just that frame, and it returns 0, changing nothing, only if no frame is free.
pub alloc_frame-FirstFit : (p : Pmm) → IsValid p → FirstFit p (alloc_frame p)
unfolding alloc_frame
alloc_frame-FirstFit p v = outcome p (scan_words p p.bitmap_words 0) v (scan-Lowest p v)

pub alloc_frame-IsValid : (p : Pmm) → IsValid p → IsValid (alloc_frame p).1
alloc_frame-IsValid p v = elim (alloc_frame-FirstFit p v) [
  | inl (f, h, e, t, a, q) ↦ subst IsValid (sym q) (take_frame-IsValid p f h e v)
  | inr (t, a, q) ↦ subst IsValid (sym q) v
]
