-- ===== src/Ramfs/Buffer.antt =====
-- Reading and writing a buffer, and the growth of its capacity.
use sifar_os.Common.{
  ℕ, zero, suc, ◌+◌, ◌-◌, ◌*◌, ◌%◌, ◌^◌, ◌<◌, ◌≤◌, ◌≡◌, refl, ◌&&◌, List, [], ◌∷◌, ◌++◌, arith,
  ◌==◌, ltb, leb, if◌then◌else◌, Bool-cases, inl, inr, sym, subst, get_or, set, length, replicate,
  length-set,
}
use sifar_os.Common.{get_or-set}
use sifar_os.Ramfs.{double_until, new_capacity, read_at, write_at, ramfs_max_file}

pub length-write_at :
    (bytes : List ℕ) (i : ℕ) (xs : List ℕ) → length (write_at bytes i xs) ≡ length bytes
unfolding write_at
length-write_at bytes i [] = refl
length-write_at bytes i (x ∷ xs) =
    omega (arith, length-write_at (set bytes i x) (i + 1) xs, length-set {0} bytes i x)

pub get_or-write_at :
    (bytes : List ℕ) (i : ℕ) (xs : List ℕ) (j : ℕ)
    → i + length xs ≤ length bytes
    → get_or (write_at bytes i xs) j 0
      ≡ (if leb i j && ltb j (i + length xs) then get_or xs (j - i) 0 else get_or bytes j 0)
unfolding write_at
get_or-write_at bytes i [] j h = ground arith
get_or-write_at bytes i (x ∷ xs) j h =
    let w =
      get_or-write_at (set bytes i x) (i + 1) xs j (omega (arith, length-set {0} bytes i x)) in
    let v = get_or-set bytes i j x 0 (omega arith) in
    elim (Bool-cases (ltb i j)) [
      | inl after ↦ (let e : j - i ≡ suc (j - (i + 1)) = ground arith in ground (arith, w, v, e))
      | inr before ↦ elim (Bool-cases (i == j)) [
        | inl same ↦ (let e : j - i ≡ 0 = ground arith in ground (arith, w, v, e))
        | inr other ↦ ground (arith, w, v)
      ]
    ]

pub read_at-ext :
    (n i : ℕ) (bytes xs : List ℕ)
    → n ≡ length xs
    → ((j : ℕ) → j < n → get_or bytes (i + j) 0 ≡ get_or xs j 0)
    → read_at n i bytes ≡ xs
unfolding read_at
read_at-ext zero i bytes [] e h = refl
read_at-ext zero i bytes (x ∷ xs) e h = absurd (omega arith)
read_at-ext (suc n) i bytes [] e h = absurd (omega arith)
read_at-ext (suc n) i bytes (x ∷ xs) e h =
    ground
      (arith, h 0 (omega arith), read_at-ext n (i + 1) bytes xs (omega arith) (λ j k. shift j k))
  where
    shift : (j : ℕ) → j < n → get_or bytes (i + 1 + j) 0 ≡ get_or xs j 0
    shift j k =
        subst (λ z. get_or bytes z 0 ≡ get_or xs j 0) (omega arith) (h (suc j) (omega arith))

pub read_at-same :
    (n i : ℕ) (bytes bytes' : List ℕ)
    → ((j : ℕ) → i ≤ j → j < i + n → get_or bytes j 0 ≡ get_or bytes' j 0)
    → read_at n i bytes ≡ read_at n i bytes'
unfolding read_at
read_at-same zero i bytes bytes' h = refl
read_at-same (suc n) i bytes bytes' h = ground (
  arith,
  h i (omega arith) (omega arith),
  read_at-same n (i + 1) bytes bytes' (λ j a b. h j (omega arith) (omega arith)),
)

pub get_or-append_zeros : (xs : List ℕ) (n j : ℕ) → get_or (xs ++ replicate n 0) j 0 ≡ get_or xs j 0
get_or-append_zeros [] n j = get_or-replicate n j
  where
    get_or-replicate : (n j : ℕ) → get_or {A = ℕ} (replicate n 0) j 0 ≡ 0
    get_or-replicate zero j = refl
    get_or-replicate (suc n) zero = refl
    get_or-replicate (suc n) (suc j) = get_or-replicate n j
get_or-append_zeros (x ∷ xs) n zero = refl
get_or-append_zeros (x ∷ xs) n (suc j) = get_or-append_zeros xs n j

abbrev doubled : ℕ → ℕ → ℕ
doubled zero c = c
doubled (suc n) c = doubled n (c * 2)

double_until-reaches :
    (n needed capacity : ℕ)
    → 0 < capacity
    → capacity < 2 ^ 23
    → needed ≤ ramfs_max_file
    → needed ≤ doubled n capacity
    → (needed ≤ double_until n needed capacity)
      × (capacity ≤ double_until n needed capacity)
      × (double_until n needed capacity < 2 ^ 23)
unfolding double_until
double_until-reaches zero needed capacity p l m h = (omega arith, omega arith, l)
double_until-reaches (suc n) needed capacity p l m h = elim (Bool-cases (ltb capacity needed)) [
  | inl small ↦
      let e : capacity * 2 % 2 ^ 32 ≡ capacity * 2 = omega arith in
      let (a, b, c) =
        double_until-reaches n needed (capacity * 2 % 2 ^ 32) (omega arith) (ground arith) m
          (subst (λ z. needed ≤ doubled n z) (sym e) h) in
      (ground (arith, a), ground (arith, b), ground (arith, c))
  | inr enough ↦ (ground arith, ground arith, ground arith)
]

-- Doubling reaches every size up to 4 MiB, stays below 8 MiB and never shrinks the buffer.
pub new_capacity-reaches :
    (capacity needed : ℕ)
    → capacity < 2 ^ 23
    → needed ≤ ramfs_max_file
    → (needed ≤ new_capacity capacity needed)
      × (capacity ≤ new_capacity capacity needed)
      × (new_capacity capacity needed < 2 ^ 23)
unfolding new_capacity
new_capacity-reaches capacity needed l m = elim (Bool-cases (capacity == 0)) [
  | inl first ↦
      let (a, b, c) =
        double_until-reaches 23 needed 64 (omega arith) (omega arith) m (omega arith) in
      (ground (arith, a), ground (arith, b), ground (arith, c))
  | inr again ↦
      let (a, b, c) = double_until-reaches 23 needed capacity (ground arith) l m (ground arith) in
      (ground (arith, a), ground (arith, b), ground (arith, c))
]
