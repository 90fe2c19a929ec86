-- ===== src/Ramfs.antt =====
-- kernel/fs/ramfs.c: files whose contents are heap buffers. A file is its buffer, whose length is the
-- capacity, and the size of its node; the argument `granted` is whether `kcalloc` or `krealloc` gives
-- memory. A copy that would leave the buffer is an outcome of its own.
use sifar_os.Common.{
  ℕ, zero, suc, ◌+◌, ◌-◌, ◌*◌, ◌%◌, ◌^◌, Bool, true, false, Option, none, some, List, [], ◌∷◌, ◌++◌,
  if◌then◌else◌, leb, ltb, ◌==◌, get_or, set, length, replicate,
}
pub mod Buffer
pub mod Laws
pub mod Stale
mod Tests

-- `4u * MB`
abbrev pub ramfs_max_file : ℕ
ramfs_max_file = 2 ^ 22

pub record File : Type 0 where
  pub bytes : List ℕ
  pub size : ℕ

-- What a call does: it returns a number, fails with -1, or copies past the end of the buffer.
pub data Outcome : Type 0 where
  returns : ℕ → File → Outcome
  refused : File → Outcome
  overruns : Outcome

-- `ramfs_create` of a file.
unfoldable pub create : Bool → Option File
create granted = if granted then some (record { bytes = []; size = 0 }) else none

-- `while (capacity < needed) capacity *= 2`, with fuel.
unfoldable pub double_until : ℕ → ℕ → ℕ → ℕ
double_until zero needed capacity = capacity
double_until (suc n) needed capacity =
    let rest = double_until n needed (capacity * 2 % 2 ^ 32) in
    if ltb capacity needed then rest else capacity

-- The capacity that `ensure_capacity` asks for. From 1 on, 22 rounds reach 4 MiB.
unfoldable pub new_capacity : ℕ → ℕ → ℕ
unfolding double_until
new_capacity capacity needed = double_until 23 needed (if capacity == 0 then 64 else capacity)

-- `ensure_capacity`; `none` is -1.
unfoldable pub ensure_capacity : File → ℕ → Bool → Option File
ensure_capacity f needed granted =
    if leb needed (length f.bytes)
    then some f
    else if ltb ramfs_max_file needed
    then none
    else if granted
    then some (record f {
      bytes = f.bytes ++ replicate (new_capacity (length f.bytes) needed - length f.bytes) 0;
    })
    else none

-- `memcpy` from the buffer and into it.
unfoldable pub read_at : ℕ → ℕ → List ℕ → List ℕ
read_at zero i bytes = []
read_at (suc n) i bytes = get_or bytes i 0 ∷ read_at n (i + 1) bytes

unfoldable pub write_at : List ℕ → ℕ → List ℕ → List ℕ
write_at bytes i [] = bytes
write_at bytes i (x ∷ xs) = write_at (set bytes i x) (i + 1) xs

-- `ramfs_read`: the bytes it copies, as many as it returns; `none` is a copy from past the buffer.
unfoldable pub read : File → ℕ → ℕ → Option (List ℕ)
unfolding read_at
read f offset len =
    if leb f.size offset
    then some []
    else let n = if ltb f.size ((offset + len) % 2 ^ 32) then f.size - offset else len in
      if leb (offset + n) (length f.bytes) then some (read_at n offset f.bytes) else none

-- The copy of `ramfs_write`, and what follows it.
unfoldable pub write_into : File → ℕ → List ℕ → Outcome
unfolding write_at
write_into f offset buf =
    let end = (offset + length buf) % 2 ^ 32 in
    if leb (offset + length buf) (length f.bytes)
    then returns (length buf) (record {
      bytes = write_at f.bytes offset buf;
      size = if ltb f.size end then end else f.size;
    })
    else overruns

-- `ramfs_write`
unfoldable pub write : File → ℕ → List ℕ → Bool → Outcome
unfolding write_into
write f offset buf granted = elim (ensure_capacity f ((offset + length buf) % 2 ^ 32) granted) [
  | none ↦ refused f
  | some g ↦ write_into g offset buf
]

-- The bytes that `ramfs_truncate` clears when the file gets longer.
abbrev pub clear_tail : File → ℕ → File
clear_tail f n =
    if ltb f.size n
    then record { bytes = write_at f.bytes f.size (replicate (n - f.size) 0); size = n }
    else record f { size = n }

-- `ramfs_truncate`
unfoldable pub truncate : File → ℕ → Bool → Outcome
unfolding write_at
truncate f n granted =
    if ltb f.size n
    then elim (ensure_capacity f n granted) [
      | none ↦ refused f
      | some g ↦ returns 0 (clear_tail g n)
    ]
    else returns 0 (clear_tail f n)
