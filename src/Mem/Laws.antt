-- ===== src/Mem/Laws.antt =====
-- memset fills its range, and memcpy and memmove copy theirs.
use sifar_os.Common.{
  ℕ, zero, suc, ◌+◌, ◌-◌, ◌*◌, ◌/◌, ◌%◌, ◌<◌, ◌≤◌, ◌≡◌, refl, Bool, ◌&&◌, ◌||◌, arith, ◌==◌, ltb,
  leb, if◌then◌else◌, Bool-cases, ◌⊎◌, inl, inr, get_or, set, length, length-set, get_or-set,
}
use sifar_os.Mem.{Memory, fill_bytes, fill_words, memset, copy_up, copy_down, memmove}

-- The address lies in the `n` bytes from `dst`.
abbrev pub within : ℕ → ℕ → ℕ → Bool
within j dst n = leb dst j && ltb j (dst + n)

length-fill_bytes : (n dst v : ℕ) (m : Memory) → length (fill_bytes n dst v m) ≡ length m
unfolding fill_bytes
length-fill_bytes zero dst v m = refl
length-fill_bytes (suc n) dst v m =
    omega (arith, length-fill_bytes n (dst + 1) v (set m dst v), length-set {0} m dst v)

get_or-fill_bytes :
    (n dst v : ℕ) (m : Memory) (j : ℕ)
    → dst + n ≤ length m
    → get_or (fill_bytes n dst v m) j 0 ≡ (if within j dst n then v else get_or m j 0)
unfolding fill_bytes
get_or-fill_bytes zero dst v m j h = ground arith
get_or-fill_bytes (suc n) dst v m j h = ground (
  arith,
  get_or-fill_bytes n (dst + 1) v (set m dst v) j (omega (arith, length-set {0} m dst v)),
  get_or-set m dst j v 0 (omega arith),
)

get_or-fill_words :
    (n dst v : ℕ) (m : Memory) (j : ℕ)
    → dst + n * 4 ≤ length m
    → (get_or (fill_words n dst v m) j 0 ≡ (if within j dst (n * 4) then v else get_or m j 0))
      × (length (fill_words n dst v m) ≡ length m)
unfolding fill_words
get_or-fill_words zero dst v m j h = (ground arith, refl)
get_or-fill_words (suc n) dst v m j h =
    let l = length-fill_bytes 4 dst v m in
    let (a, b) = get_or-fill_words n (dst + 4) v (fill_bytes 4 dst v m) j (omega (arith, l)) in
    (ground (arith, a, get_or-fill_bytes 4 dst v m j (omega arith)), omega (arith, b, l))

-- memset of a range inside the memory puts the low byte of its argument into every byte of the
-- range, and leaves the others.
pub get_or-memset :
    (m : Memory) (dst c n j : ℕ)
    → dst + n ≤ length m
    → get_or (memset m dst c n) j 0 ≡ (if within j dst n then c % 256 else get_or m j 0)
unfolding memset
get_or-memset m dst c n j h =
    let (a, b) = get_or-fill_words (n / 4) dst (c % 256) m j (omega arith) in
    ground (
      arith,
      a,
      get_or-fill_bytes (n % 4) (dst + n / 4 * 4) (c % 256) (fill_words (n / 4) dst (c % 256) m) j
          (omega (arith, b)),
    )

pub get_or-copy_up :
    (n dst src : ℕ) (m : Memory) (j : ℕ)
    → dst + n ≤ length m
    → (dst ≤ src ⊎ src + n ≤ dst)
    → get_or (copy_up n dst src m) j 0
      ≡ (if within j dst n then get_or m (src + (j - dst)) 0 else get_or m j 0)
unfolding copy_up
get_or-copy_up zero dst src m j h o = ground arith
get_or-copy_up (suc n) dst src m j h o =
    let x = get_or m src 0 in
    let w =
      get_or-copy_up n (dst + 1) (src + 1) (set m dst x) j (omega (arith, length-set {0} m dst x))
        (next o) in
    let g : (k : ℕ) → get_or (set m dst x) k 0 ≡ (if dst == k then x else get_or m k 0) =
      λ k. get_or-set m dst k x 0 (omega arith) in
    elim (Bool-cases (dst == j)) [
      | inl first ↦ (let e : src + (j - dst) ≡ src = ground arith in ground (arith, w, g j, e))
      | inr other ↦ elim (Bool-cases (within j (dst + 1) n)) [
        | inl later ↦
            let e : src + 1 + (j - (dst + 1)) ≡ src + (j - dst) = ground arith in
            ground (arith, w, e, g (src + (j - dst)), o)
        | inr outside ↦ ground (arith, w, g j)
      ]
    ]
  where
    next : dst ≤ src ⊎ src + suc n ≤ dst → dst + 1 ≤ src + 1 ⊎ src + 1 + n ≤ dst + 1
    next (inl a) = inl (omega arith)
    next (inr a) = inr (omega arith)

get_or-copy_down :
    (n dst src : ℕ) (m : Memory) (j : ℕ)
    → dst + n ≤ length m
    → src < dst
    → get_or (copy_down n dst src m) j 0
      ≡ (if within j dst n then get_or m (src + (j - dst)) 0 else get_or m j 0)
unfolding copy_down
get_or-copy_down zero dst src m j h o = ground arith
get_or-copy_down (suc n) dst src m j h o =
    let x = get_or m (src + n) 0 in
    let w =
      get_or-copy_down n dst src (set m (dst + n) x) j (omega (arith, length-set {0} m (dst + n) x))
        o in
    let g : (k : ℕ) → get_or (set m (dst + n) x) k 0 ≡ (if dst + n == k then x else get_or m k 0) =
      λ k. get_or-set m (dst + n) k x 0 (omega arith) in
    elim (Bool-cases (dst + n == j)) [
      | inl last ↦ (let e : src + (j - dst) ≡ src + n = ground arith in ground (arith, w, g j, e))
      | inr other ↦ ground (arith, w, g j, g (src + (j - dst)))
    ]

-- memmove within the memory leaves in the destination what the source held before, also when the
-- two ranges overlap, and changes no other byte.
pub get_or-memmove :
    (m : Memory) (dst src n j : ℕ)
    → dst + n ≤ length m
    → src + n ≤ length m
    → get_or (memmove m dst src n) j 0
      ≡ (if within j dst n then get_or m (src + (j - dst)) 0 else get_or m j 0)
unfolding memmove
get_or-memmove m dst src n j h k = elim (Bool-cases ((dst == src) || (n == 0))) [
  | inl nothing ↦ elim (Bool-cases (within j dst n)) [
    | inl inside ↦ (let e : src + (j - dst) ≡ j = ground arith in ground (arith, e))
    | inr outside ↦ ground arith
  ]
  | inr moves ↦ elim (Bool-cases (ltb dst src)) [
    | inl up ↦ ground (arith, get_or-copy_up n dst src m j h (inl (ground arith)))
    | inr down ↦ ground (arith, get_or-copy_down n dst src m j h (ground arith))
  ]
]
