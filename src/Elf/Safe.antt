-- ===== src/Elf/Safe.antt =====
-- What a successful `elf_load` guarantees, for every address space.
use sifar_os.Common.{
  ℕ, zero, suc, ◌+◌, ◌%◌, ◌<◌, ◌≤◌, ◌≡◌, ap, Bool, true, false, some, arith, ◌⊎◌, inl, inr,
  Bool-cases, Option-cases, subst, ◌||◌, ◌&&◌, leb, ltb, max,
}
use sifar_os.Elf.Image.{
  Bytes, ehdr, segment, loads, is_exec, acceptable, segment_end, user_max, align_up, page_size,
  elf_is_valid,
}
use sifar_os.Elf.Load.{
  Space, Loading, Loaded, place, advance, load_one, load_loop, finish_load, elf_load,
}
use sifar_os.Elf.Checks.{IsSafe, OnPage, pages_disjoint, acceptable-IsSafe, acceptable_apart}

-- One of the first `k` segments is loaded and executable and contains the entry point.
abbrev pub EntryIn : Bytes → ℕ → Type 0
EntryIn b k =
    (i : ℕ) × (i < k)
    × (loads (segment b i) ≡ true)
    × (is_exec (segment b i) ≡ true)
    × ((segment b i).vaddr ≤ (ehdr b).entry)
    × ((ehdr b).entry < segment_end (segment b i))

-- After the first `k` segments.
record Checked (b : Bytes) (k highest : ℕ) (entered : Bool) : Type 0 where
  fine : (i : ℕ) → i < k → loads (segment b i) ≡ true → acceptable b i ≡ true
  reach : (i : ℕ) → i < k → loads (segment b i) ≡ true → segment_end (segment b i) ≤ highest
  top : highest ≤ user_max
  entry : entered ≡ true → EntryIn b k

below_next : (i k : ℕ) → i < k + 1 → (i < k) ⊎ (k ≡ i)
below_next i k h = grind arith

EntryIn-more : (b : Bytes) (k : ℕ) → EntryIn b k → EntryIn b (k + 1)
EntryIn-more b k (i, a, c, d, e, f) = (i, omega arith, c, d, e, f)

skip-Checked :
    (b : Bytes) (k h : ℕ) (e : Bool)
    → loads (segment b k) ≡ false
    → Checked b k h e
    → Checked b (k + 1) h e
skip-Checked b k h e none_here c = record {
  fine = λ i l p. elim (below_next i k l) [
    | inl old ↦ c.fine i old p
    | inr new ↦ absurd (clash (ap (λ x. loads (segment b x)) new) p)
  ];
  reach = λ i l p. elim (below_next i k l) [
    | inl old ↦ c.reach i old p
    | inr new ↦ absurd (clash (ap (λ x. loads (segment b x)) new) p)
  ];
  top = c.top;
  entry = λ t. EntryIn-more b k (c.entry t);
}
  where
    clash : {x : Bool} → loads (segment b k) ≡ x → x ≡ true → ⊥
    clash p q = cc

load-Checked :
    (b : Bytes) (k h : ℕ) (e : Bool)
    → loads (segment b k) ≡ true
    → acceptable b k ≡ true
    → Checked b k h e
    → Checked b (k + 1) (max h (segment_end (segment b k))) (
        (leb (segment b k).vaddr (ehdr b).entry
          && (ltb (ehdr b).entry (segment_end (segment b k)) && is_exec (segment b k)))
        || e)
load-Checked b k h e here ok c = record {
  fine = λ i l p. elim (below_next i k l) [
    | inl old ↦ c.fine i old p
    | inr new ↦ subst (λ x. acceptable b x ≡ true) new ok
  ];
  reach = λ i l p. elim (below_next i k l) [
    | inl old ↦ omega (arith, c.reach i old p)
    | inr new ↦
        subst (λ x. segment_end (segment b x) ≤ max h (segment_end (segment b k))) new (omega arith)
  ];
  top = omega (arith, c.top, (acceptable-IsSafe b k ok).below);
  entry = λ t.
      elim (Bool-cases (
        leb (segment b k).vaddr (ehdr b).entry
        && (ltb (ehdr b).entry (segment_end (segment b k)) && is_exec (segment b k)))) [
          | inl now ↦ (k, omega arith, here, ground arith, ground arith, ground arith)
          | inr before ↦ EntryIn-more b k (c.entry (ground arith))
        ];
}

module _ (m : Space) where
  open m use {State}

  load_one-Checked :
      (b : Bytes) (k : ℕ) (l u : Loading m)
      → load_one m b k l ≡ some u
      → Checked b k l.highest l.entry_executable
      → Checked b (k + 1) u.highest u.entry_executable
  unfolding load_one
  load_one-Checked b k l u e c = elim (Bool-cases (loads (segment b k))) [
    | inr skip ↦
        (let q : l ≡ u = ground arith in
          rw (← q) (skip-Checked b k l.highest l.entry_executable skip c))
    | inl here ↦ elim (Bool-cases (acceptable b k)) [
      | inr bad ↦ absurd (ground arith)
      | inl ok ↦ elim (Option-cases (place m b l.space (segment b k))) [
        | inl stop ↦ absurd (ground arith)
        | inr (st, go) ↦
            (let q : advance m b (segment b k) l st ≡ u = ground arith in
              rw (← q) (load-Checked b k l.highest l.entry_executable here ok c))
      ]
    ]
  ]

  load_loop-Checked :
      (b : Bytes) (n k j : ℕ) (l u : Loading m)
      → k + n ≡ j
      → load_loop m b n k l ≡ some u
      → Checked b k l.highest l.entry_executable
      → Checked b j u.highest u.entry_executable
  unfolding load_loop
  load_loop-Checked b zero k j l u s e c =
      let q : l ≡ u = ground arith in let r : k ≡ j = omega arith in rw (← q, ← r) c
  load_loop-Checked b (suc n) k j l u s e c = elim (Option-cases (load_one m b k l)) [
    | inl stop ↦ absurd (ground arith)
    | inr (l', go) ↦
        load_loop-Checked b n (k + 1) j l' u (omega arith) (ground arith)
          (load_one-Checked b k l l' go c)
  ]

  -- What holds of an image that `elf_load` accepted, and of what it returned.
  pub record IsSafeLoad (b : Bytes) (r : Loaded m) : Type 0 where
    pub segments :
        (i : ℕ) → i < (ehdr b).phnum → loads (segment b i) ≡ true → IsSafe b (segment b i)
    pub apart :
        (i j p : ℕ)
        → i < (ehdr b).phnum
        → j < i
        → loads (segment b i) ≡ true
        → loads (segment b j) ≡ true
        → OnPage (segment b i) p
        → OnPage (segment b j) p
        → ⊥
    pub entry : r.entry ≡ (ehdr b).entry
    pub entry_in : EntryIn b (ehdr b).phnum
    pub break_above :
        (i : ℕ)
        → i < (ehdr b).phnum
        → loads (segment b i) ≡ true
        → segment_end (segment b i) ≤ r.break_start
    pub break_page : r.break_start % page_size ≡ 0
    pub break_below : r.break_start ≤ user_max

  finish-IsSafeLoad :
      (b : Bytes) (l : Loading m) (r : Loaded m)
      → finish_load m b l ≡ some r
      → Checked b (ehdr b).phnum l.highest l.entry_executable
      → IsSafeLoad b r
  unfolding finish_load
  finish-IsSafeLoad b l r e c =
      let on : l.entry_executable ≡ true = ground arith in
      let q : r.break_start ≡ align_up l.highest = ground arith in
      record {
        segments = λ i k p. acceptable-IsSafe b i (c.fine i k p);
        apart = λ i j p k h x y.
            pages_disjoint b (segment b i) (segment b j) p (acceptable-IsSafe b i (c.fine i k x))
              (acceptable-IsSafe b j (c.fine j (omega arith) y))
              (acceptable_apart b i j (c.fine i k x) h y);
        entry = ground arith;
        entry_in = c.entry on;
        break_above = λ i k p. rw q (omega (arith, c.reach i k p, c.top));
        break_page = rw q (omega arith);
        break_below = rw q (omega (arith, c.top));
      }

  -- Whatever the bytes are, an image that `elf_load` accepts has only load segments whose bytes lie
  -- in the file and whose memory lies in the user window, none of them writable and executable,
  -- no two of them sharing a page; the entry point returned lies in a loaded executable segment,
  -- and the break is page aligned, at or above every segment's end and inside the user window.
  pub elf_load-IsSafeLoad :
      (st : State) (b : Bytes) (r : Loaded m) → elf_load m st b ≡ some r → IsSafeLoad b r
  unfolding elf_load
  elf_load-IsSafeLoad st b r e = elim (Bool-cases (elf_is_valid b)) [
    | inr bad ↦ absurd (ground arith)
    | inl good ↦ elim (Option-cases (load_loop m b (ehdr b).phnum 0 begin)) [
      | inl stop ↦ absurd (ground arith)
      | inr (l, go) ↦
          finish-IsSafeLoad b l r (ground arith)
            (load_loop-Checked b (ehdr b).phnum 0 (ehdr b).phnum begin l (omega arith) go nothing)
    ]
  ]
    where
      begin : Loading m
      begin = record { space = st; highest = 0; entry_executable = false; load_segments = 0 }

      nothing : Checked b 0 0 false
      nothing = record {
        fine = λ i h p. absurd (omega arith);
        reach = λ i h p. absurd (omega arith);
        top = omega arith;
        entry = λ h. absurd (cc);
      }
