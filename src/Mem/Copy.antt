-- ===== src/Mem/Copy.antt =====
-- memcpy between ranges that do not overlap.
use sifar_os.Common.{
  ℕ, zero, suc, ◌+◌, ◌-◌, ◌*◌, ◌/◌, ◌%◌, ◌≤◌, ◌≡◌, refl, arith, ◌==◌, if◌then◌else◌, Bool-cases,
  ◌⊎◌, inl, inr, get_or, set, length, length-set, get_or-set, ◌∙◌, ap,
}
use sifar_os.Mem.{Memory, copy_word, copy_words, memcpy}
use sifar_os.Mem.Laws.{within, get_or-copy_up}

-- The ranges of `n` bytes from `dst` and from `src` have no byte in common.
abbrev pub Apart : ℕ → ℕ → ℕ → Type 0
Apart dst src n = (dst + n ≤ src) ⊎ (src + n ≤ dst)

length-copy_word : (dst src : ℕ) (m : Memory) → length (copy_word dst src m) ≡ length m
unfolding copy_word
length-copy_word dst src m =
    let a = set m dst (get_or m src 0) in
    let b = set a (dst + 1) (get_or m (src + 1) 0) in
    let c = set b (dst + 2) (get_or m (src + 2) 0) in
    omega (
      arith,
      length-set {0} m dst (get_or m src 0),
      length-set {0} a (dst + 1) (get_or m (src + 1) 0),
      length-set {0} b (dst + 2) (get_or m (src + 2) 0),
      length-set {0} c (dst + 3) (get_or m (src + 3) 0),
    )

get_or-four :
    (m : Memory) (dst j a b c d : ℕ)
    → dst + 4 ≤ length m
    → get_or (set (set (set (set m dst a) (dst + 1) b) (dst + 2) c) (dst + 3) d) j 0 ≡ (
        if dst + 3 == j
        then d
        else if dst + 2 == j
        then c
        else if dst + 1 == j
        then b
        else if dst == j
        then a
        else get_or m j 0)
get_or-four m dst j a b c d h =
    let p = length-set {0} m dst a in
    let q = length-set {0} (set m dst a) (dst + 1) b in
    let r = length-set {0} (set (set m dst a) (dst + 1) b) (dst + 2) c in
    ground (
      arith,
      get_or-set (set (set (set m dst a) (dst + 1) b) (dst + 2) c) (dst + 3) j d 0 (omega arith),
      get_or-set (set (set m dst a) (dst + 1) b) (dst + 2) j c 0 (omega arith),
      get_or-set (set m dst a) (dst + 1) j b 0 (omega arith),
      get_or-set m dst j a 0 (omega arith),
    )

get_or-copy_word :
    (dst src : ℕ) (m : Memory) (j : ℕ)
    → dst + 4 ≤ length m
    → get_or (copy_word dst src m) j 0
      ≡ (if within j dst 4 then get_or m (src + (j - dst)) 0 else get_or m j 0)
unfolding copy_word
get_or-copy_word dst src m j h =
    get_or-four m dst j (get_or m src 0) (get_or m (src + 1) 0) (get_or m (src + 2) 0)
      (get_or m (src + 3) 0) h
    ∙ cases
  where
    at : (k : ℕ) → dst + k ≡ j → get_or m (src + k) 0 ≡ get_or m (src + (j - dst)) 0
    at k e = ap (λ x. get_or m x 0) (omega arith)

    cases :
        (if dst + 3 == j
          then get_or m (src + 3) 0
          else if dst + 2 == j
          then get_or m (src + 2) 0
          else if dst + 1 == j
          then get_or m (src + 1) 0
          else if dst == j
          then get_or m src 0
          else get_or m j 0)
        ≡ (if within j dst 4 then get_or m (src + (j - dst)) 0 else get_or m j 0)
    cases = elim (Bool-cases (within j dst 4)) [
      | inl inside ↦ ground (arith, at 0, at 1, at 2, at 3)
      | inr outside ↦ ground arith
    ]

get_or-copy_words :
    (n dst src : ℕ) (m : Memory) (j : ℕ)
    → dst + n * 4 ≤ length m
    → Apart dst src (n * 4)
    → (get_or (copy_words n dst src m) j 0
        ≡ (if within j dst (n * 4) then get_or m (src + (j - dst)) 0 else get_or m j 0))
      × (length (copy_words n dst src m) ≡ length m)
unfolding copy_words
get_or-copy_words zero dst src m j h o = (ground arith, refl)
get_or-copy_words (suc n) dst src m j h o =
    let l = length-copy_word dst src m in
    let (a, b) =
      get_or-copy_words n (dst + 4) (src + 4) (copy_word dst src m) j (omega (arith, l)) (next o) in
    let g : (k : ℕ)
        → get_or (copy_word dst src m) k 0
          ≡ (if within k dst 4 then get_or m (src + (k - dst)) 0 else get_or m k 0) =
      λ k. get_or-copy_word dst src m k (omega arith) in
    (
      elim (Bool-cases (within j (dst + 4) (n * 4))) [
        | inl later ↦
            let e : src + 4 + (j - (dst + 4)) ≡ src + (j - dst) = ground arith in
            ground (arith, a, e, g (src + (j - dst)), o)
        | inr other ↦ ground (arith, a, g j)
      ],
      omega (arith, b, l),
    )
  where
    next : Apart dst src (suc n * 4) → Apart (dst + 4) (src + 4) (n * 4)
    next (inl x) = inl (omega arith)
    next (inr x) = inr (omega arith)

-- memcpy between two ranges inside the memory that do not overlap leaves in the destination what the
-- source holds, and changes no other byte.
pub get_or-memcpy :
    (m : Memory) (dst src n j : ℕ)
    → dst + n ≤ length m
    → Apart dst src n
    → get_or (memcpy m dst src n) j 0
      ≡ (if within j dst n then get_or m (src + (j - dst)) 0 else get_or m j 0)
unfolding memcpy
get_or-memcpy m dst src n j h o =
    let w = copy_words (n / 4) dst src m in
    let d = dst + n / 4 * 4 in
    let s = src + n / 4 * 4 in
    let words : (k : ℕ)
        → (get_or w k 0
            ≡ (if within k dst (n / 4 * 4) then get_or m (src + (k - dst)) 0 else get_or m k 0))
          × (length w ≡ length m) =
      λ k. get_or-copy_words (n / 4) dst src m k (omega arith) (whole o) in
    let tail = get_or-copy_up (n % 4) d s w j (omega (arith, (words 0).1)) (rest o) in
    elim (Bool-cases (within j d (n % 4))) [
      | inl last ↦
          let e : s + (j - d) ≡ src + (j - dst) = ground arith in
          ground (arith, tail, e, (words (src + (j - dst))).0, o)
      | inr before ↦ ground (arith, tail, (words j).0)
    ]
  where
    whole : Apart dst src n → Apart dst src (n / 4 * 4)
    whole (inl x) = inl (omega arith)
    whole (inr x) = inr (omega arith)

    rest :
        Apart dst src n
        → (dst + n / 4 * 4 ≤ src + n / 4 * 4) ⊎ (src + n / 4 * 4 + n % 4 ≤ dst + n / 4 * 4)
    rest (inl x) = inl (omega arith)
    rest (inr x) = inr (omega arith)
