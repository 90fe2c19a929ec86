-- ===== src/Ramfs/Stale.antt =====
-- What a write past the end of a shortened file brings back.
use sifar_os.Common.{ℕ, ◌+◌, ◌-◌, ◌<◌, ◌≤◌, ◌≡◌, true, some, List, arith, ◌∙◌, sym, ap, length, max}
use sifar_os.Ramfs.{File, returns, ramfs_max_file, read_at, read, write, truncate}
use sifar_os.Ramfs.Buffer.{read_at-same}
use sifar_os.Ramfs.Laws.{IsValid, write-Written}

read_inside :
    (f : File) (i n : ℕ)
    → IsValid f
    → i < f.size
    → i + n ≤ f.size
    → read f i n ≡ some (read_at n i f.bytes)
unfolding read
read_inside f i n v l h = ground (arith, v.inside, v.small)

-- A valid file is cut to `n` bytes and then written at `m` past its new end, still within its old size
-- and 4 MiB: the bytes from `n` to `m`, which the write skipped, read as they were before the cut.
pub read-write-truncate :
    (f : File) (n m : ℕ) (buf : List ℕ)
    → IsValid f
    → n < m
    → m ≤ f.size
    → m + length buf ≤ ramfs_max_file
    → (g : File) × (h : File) × (truncate f n true ≡ returns 0 g)
      × (write g m buf true ≡ returns (length buf) h)
      × (read h n (m - n) ≡ read f n (m - n))
unfolding truncate
read-write-truncate f n m buf v l u b =
    let inside : f.size ≤ length f.bytes = v.inside in
    let vg : IsValid (record f { size = n }) = record { inside = omega arith; small = v.small } in
    let (h, e, w) = write-Written (record f { size = n }) m buf vg b in
    let size : h.size ≡ max n (m + length buf) = w.size in
    (
      record f { size = n },
      h,
      ground arith,
      e,
      read_inside h n (m - n) w.valid (omega arith) (omega arith)
          ∙ (ap some (read_at-same (m - n) n h.bytes f.bytes (λ j x y. ground (arith, w.bytes j)))
              ∙ sym (read_inside f n (m - n) v (omega arith) (omega arith))),
    )
