-- ===== src/Ramfs/Laws.antt =====
-- What `ramfs_write` and `ramfs_truncate` do to the bytes that `ramfs_read` gives.
use sifar_os.Common.{
  ℕ, zero, suc, ◌+◌, ◌-◌, ◌%◌, ◌^◌, ◌<◌, ◌≤◌, ◌≡◌, refl, Bool, true, false, ◌&&◌, some, List, [],
  ◌∷◌, ◌++◌, arith, ltb, leb, if◌then◌else◌, Bool-cases, inl, inr, subst, get_or, length, replicate,
  length-append, length-replicate, max,
}
use sifar_os.Ramfs.{
  File, returns, ramfs_max_file, new_capacity, ensure_capacity, read_at, write_at, read, write_into,
  write, clear_tail, truncate,
}
use sifar_os.Ramfs.Buffer.{
  length-write_at, get_or-write_at, read_at-ext, get_or-append_zeros, new_capacity-reaches,
}

-- The size is within the buffer, and the buffer below 8 MiB.
pub record IsValid (f : File) : Type 0 where
  pub inside : f.size ≤ length f.bytes
  pub small : length f.bytes < 2 ^ 23

-- The file with a buffer of at least `n` bytes, its bytes as they were.
record Ensured (f : File) (n : ℕ) (g : File) : Type 0 where
  valid : IsValid g
  room : n ≤ length g.bytes
  size : g.size ≡ f.size
  same : (j : ℕ) → get_or g.bytes j 0 ≡ get_or f.bytes j 0

ensure_capacity-Ensured :
    (f g : File) (n : ℕ) (granted : Bool)
    → IsValid f
    → ensure_capacity f n granted ≡ some g
    → Ensured f n g
unfolding ensure_capacity
ensure_capacity-Ensured f g n granted v e = elim (Bool-cases (leb n (length f.bytes))) [
  | inl fits ↦
      let r : f ≡ g = ground arith in
      subst (Ensured f n) r
        (record { valid = v; room = ground arith; size = refl; same = λ j. refl })
  | inr short ↦ elim (Bool-cases (ltb ramfs_max_file n)) [
    | inl long ↦ absurd (ground arith)
    | inr fair ↦ elim (Bool-cases granted) [
      | inr none_given ↦ absurd (ground arith)
      | inl given ↦
          let more = new_capacity (length f.bytes) n - length f.bytes in
          let (a, b, c) = new_capacity-reaches (length f.bytes) n v.small (ground arith) in
          let k : length (f.bytes ++ replicate more 0) ≡ new_capacity (length f.bytes) n =
            omega
              (arith, length-append f.bytes (replicate more 0), length-replicate {A = ℕ} more 0) in
          let r : record f { bytes = f.bytes ++ replicate more 0 } ≡ g = ground arith in
          subst (Ensured f n) r (record {
            valid = record { inside = omega (arith, v.inside); small = omega arith };
            room = omega arith;
            size = refl;
            same = λ j. get_or-append_zeros f.bytes more j;
          })
    ]
  ]
]

ensure_capacity_total :
    (f : File) (n : ℕ) → n ≤ ramfs_max_file → (g : File) × (ensure_capacity f n true ≡ some g)
unfolding ensure_capacity
ensure_capacity_total f n h = elim (Bool-cases (leb n (length f.bytes))) [
  | inl fits ↦ (f, ground arith)
  | inr short ↦ (
    record f { bytes = f.bytes ++ replicate (new_capacity (length f.bytes) n - length f.bytes) 0 },
    ground arith,
  )
]

-- What a write of `buf` at `offset` leaves.
pub record Written (f : File) (offset : ℕ) (buf : List ℕ) (g : File) : Type 0 where
  pub valid : IsValid g
  pub size : g.size ≡ max f.size (offset + length buf)
  pub bytes :
      (j : ℕ)
      → get_or g.bytes j 0 ≡ (
          if leb offset j && ltb j (offset + length buf)
          then get_or buf (j - offset) 0
          else get_or f.bytes j 0)
  pub back : read g offset (length buf) ≡ some buf

read-back :
    (g : File) (offset : ℕ) (buf : List ℕ)
    → IsValid g
    → offset + length buf ≤ g.size
    → ((j : ℕ) → j < length buf → get_or g.bytes (offset + j) 0 ≡ get_or buf j 0)
    → read g offset (length buf) ≡ some buf
unfolding read
read-back g offset [] v h b = ground arith
read-back g offset (x ∷ buf) v h b =
    let e : read_at (length (x ∷ buf)) offset g.bytes ≡ x ∷ buf =
      read_at-ext (length (x ∷ buf)) offset g.bytes (x ∷ buf) refl b in
    ground (arith, e, v.inside, v.small)

abbrev written : File → ℕ → List ℕ → File
written g offset buf = record {
  bytes = write_at g.bytes offset buf;
  size =
      if ltb g.size ((offset + length buf) % 2 ^ 32)
      then (offset + length buf) % 2 ^ 32
      else g.size;
}

written-Written :
    (f g : File) (offset : ℕ) (buf : List ℕ)
    → Ensured f (offset + length buf) g
    → Written f offset buf (written g offset buf)
written-Written f g offset buf w =
    let k = length-write_at g.bytes offset buf in
    let small : length g.bytes < 2 ^ 23 = w.valid.small in
    let inside : g.size ≤ length g.bytes = w.valid.inside in
    let room : offset + length buf ≤ length g.bytes = w.room in
    let v : IsValid (written g offset buf) = record {
      inside = ground (arith, k);
      small = omega (arith, k);
    } in
    record {
      valid = v;
      size = ground (arith, w.size);
      bytes = λ j. ground (arith, get_or-write_at g.bytes offset buf j room, w.same j);
      back = read-back (written g offset buf) offset buf v (ground arith) (λ j h.
          let e : offset + j - offset ≡ j = omega arith in
          ground (arith, get_or-write_at g.bytes offset buf (offset + j) room, e));
    }

write_fits :
    (f g : File) (offset : ℕ) (buf : List ℕ)
    → offset + length buf ≤ ramfs_max_file
    → Ensured f (offset + length buf) g
    → ensure_capacity f (offset + length buf) true ≡ some g
    → write f offset buf true ≡ returns (length buf) (written g offset buf)
unfolding write write_into
write_fits f g offset buf l w e =
    let m : (offset + length buf) % 2 ^ 32 ≡ offset + length buf = omega arith in
    ground (arith, m, e, w.room)

-- On a valid file a write that ends within 4 MiB succeeds when memory is given: the file is valid and
-- as long as before or up to the end of the write, the bytes written are those of the buffer, every other
-- byte is as it was, and a read of the same range gives the buffer back.
pub write-Written :
    (f : File) (offset : ℕ) (buf : List ℕ)
    → IsValid f
    → offset + length buf ≤ ramfs_max_file
    → (g : File) × (write f offset buf true ≡ returns (length buf) g) × Written f offset buf g
write-Written f offset buf v l =
    let (g, e) = ensure_capacity_total f (offset + length buf) l in
    let w = ensure_capacity-Ensured f g (offset + length buf) true v e in
    (written g offset buf, write_fits f g offset buf l w e, written-Written f g offset buf w)

-- What a truncation to `n` leaves: the bytes that stay are as they were, and new ones are 0.
pub record Truncated (f : File) (n : ℕ) (g : File) : Type 0 where
  pub valid : IsValid g
  pub size : g.size ≡ n
  pub bytes :
      (j : ℕ) → j < n → get_or g.bytes j 0 ≡ (if ltb j f.size then get_or f.bytes j 0 else 0)

zeros : (n j : ℕ) → get_or {A = ℕ} (replicate n 0) j 0 ≡ 0
zeros zero j = refl
zeros (suc n) zero = refl
zeros (suc n) (suc j) = zeros n j

longer-Truncated :
    (f g : File) (n : ℕ) → f.size < n → Ensured f n g → Truncated f n (clear_tail g n)
longer-Truncated f g n l w =
    let k = length-write_at g.bytes g.size (replicate (n - g.size) 0) in
    let r = length-replicate {A = ℕ} (n - g.size) 0 in
    let small : length g.bytes < 2 ^ 23 = w.valid.small in
    let inside : g.size ≤ length g.bytes = w.valid.inside in
    let room : n ≤ length g.bytes = w.room in
    let up : ltb g.size n ≡ true = ground (arith, w.size) in
    record {
      valid = record { inside = ground (arith, k); small = ground (arith, k) };
      size = ground arith;
      bytes = λ j h. ground (
        arith,
        get_or-write_at g.bytes g.size (replicate (n - g.size) 0) j (omega (arith, w.size)),
        w.same j,
        w.size,
        zeros (n - g.size) (j - g.size),
        r,
      );
    }

shorter-Truncated : (f : File) (n : ℕ) → IsValid f → n ≤ f.size → Truncated f n (clear_tail f n)
shorter-Truncated f n v h =
    let inside : f.size ≤ length f.bytes = v.inside in
    let small : length f.bytes < 2 ^ 23 = v.small in
    let down : ltb f.size n ≡ false = ground arith in
    record {
      valid = record { inside = ground arith; small = ground arith };
      size = ground arith;
      bytes = λ j k. ground arith;
    }

-- On a valid file a truncation to at most 4 MiB succeeds when memory is given: the file is valid and
-- has the new size, the bytes below the old and the new size are as they were, and the bytes from the old
-- size up to the new one are 0.
pub truncate-Truncated :
    (f : File) (n : ℕ)
    → IsValid f
    → n ≤ ramfs_max_file
    → (g : File) × (truncate f n true ≡ returns 0 g) × Truncated f n g
unfolding truncate
truncate-Truncated f n v l = elim (Bool-cases (ltb f.size n)) [
  | inl up ↦
      let (g, e) = ensure_capacity_total f n l in
      let w = ensure_capacity-Ensured f g n true v e in
      (clear_tail g n, ground (arith, e), longer-Truncated f g n (ground arith) w)
  | inr down ↦ (clear_tail f n, ground arith, shorter-Truncated f n v (ground arith))
]
