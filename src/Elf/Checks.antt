-- ===== src/Elf/Checks.antt =====
-- What the checks of `elf_load` on one segment guarantee.
use sifar_os.Common.{
  ℕ, zero, suc, ◌+◌, ◌*◌, ◌<◌, ◌≤◌, ◌≡◌, ap, true, false, arith, inl, inr, ◌==◌, Bool-cases, sym,
  ◌∙◌, length, ◌&&◌,
}
use sifar_os.Elf.Image.{
  Bytes, Phdr, segment, loads, is_exec, is_writable, pages_meet, overlap_from, load_pages_overlap,
  file_fits, in_user_window, acceptable, user_min, user_max, range_within, page_size,
}

overlap_from-false :
    (b : Bytes) (s : Phdr) (n j k : ℕ)
    → overlap_from b s n j ≡ false
    → j ≤ k
    → k < j + n
    → loads (segment b k) ≡ true
    → pages_meet s (segment b k) ≡ false
unfolding overlap_from
overlap_from-false b s zero j k h a c l = absurd (omega arith)
overlap_from-false b s (suc n) j k h a c l = elim (Bool-cases (j == k)) [
  | inl same ↦
      (let e : j ≡ k = ground arith in
        clear (ap (λ x. loads (segment b x)) e ∙ l) (ap (λ x. pages_meet s (segment b x)) (sym e)))
  | inr other ↦ overlap_from-false b s n (j + 1) k (ground arith) (ground arith) (omega arith) l
]
  where
    clear :
        loads (segment b j) ≡ true
        → pages_meet s (segment b k) ≡ pages_meet s (segment b j)
        → pages_meet s (segment b k) ≡ false
    clear p q = q ∙ ground arith

-- A segment that may be loaded: its bytes come from the file and fit its memory, it lies in the
-- user window with no wrap-around, and it is not both writable and executable.
pub record IsSafe (b : Bytes) (s : Phdr) : Type 0 where
  pub file_in_memory : s.filesz ≤ s.memsz
  pub in_file : s.offset + s.filesz ≤ length b
  pub above : user_min ≤ s.vaddr
  pub below : s.vaddr + s.memsz ≤ user_max
  pub exclusive : (is_writable s && is_exec s) ≡ false

pub acceptable-IsSafe : (b : Bytes) (i : ℕ) → acceptable b i ≡ true → IsSafe b (segment b i)
unfolding acceptable file_fits in_user_window range_within
acceptable-IsSafe b i h = ground arith

pub acceptable_apart :
    (b : Bytes) (i j : ℕ)
    → acceptable b i ≡ true
    → j < i
    → loads (segment b j) ≡ true
    → pages_meet (segment b i) (segment b j) ≡ false
unfolding acceptable load_pages_overlap
acceptable_apart b i j h k l =
    overlap_from-false b (segment b i) i 0 j (ground arith) (omega arith) (omega arith) l

-- A byte of the segment lies on the page of number `p`.
abbrev pub OnPage : Phdr → ℕ → Type 0
OnPage s p = (p * page_size < s.vaddr + s.memsz) × (s.vaddr < (p + 1) * page_size)

-- The pages of two safe segments that do not meet are disjoint.
pub pages_disjoint :
    (b : Bytes) (s t : Phdr) (p : ℕ)
    → IsSafe b s
    → IsSafe b t
    → pages_meet s t ≡ false
    → OnPage s p
    → OnPage t p
    → ⊥
unfolding pages_meet
pages_disjoint b s t p u v h (a, c) (d, e) = ground (arith, u.below, v.below)
