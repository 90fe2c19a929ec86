-- ===== src/Sfs/Files.antt =====
-- The blocks of a file, and its bytes.
use sifar_os.Common.{
  ℕ, zero, suc, ◌+◌, ◌-◌, ◌/◌, ◌%◌, ◌^◌, Bool, true, false, ◌&&◌, ◌||◌, not, Option, none, some,
  List, [], ◌∷◌, ◌++◌, if◌then◌else◌, leb, ltb, ◌==◌, min, length, drop, get_or, replicate,
}
use sifar_os.Sfs.Disk.{
  block_size, direct_count, pointers, Fs, Inode, word_at, put_word, write_block, alloc_block,
  free_block, inode_read, inode_write,
}

-- What `block_for` gives: the block or 0, the inode, the file system, and `*changed`.
pub record Located : Type 0 where
  pub block : ℕ
  pub inode : Inode
  pub fs : Fs
  pub changed : Bool

abbrev pub with_direct : Inode → ℕ → ℕ → Inode
with_direct inode index block = record inode {
  direct = λ i. if i == index then block else inode.direct i;
}

-- `index < SFS_DIRECT`
abbrev pub direct_block : Fs → Inode → ℕ → Bool → Located
direct_block s inode index allocate =
    if inode.direct index == 0 && allocate
    then (let (block, t) = alloc_block s in
        record { block = block; inode = with_direct inode index block; fs = t; changed = true })
    else record { block = inode.direct index; inode = inode; fs = s; changed = false }

-- The entry of the table in block `inode.indirect`.
abbrev pub table_block : Fs → Inode → ℕ → Bool → Bool → Located
table_block s inode index allocate changed =
    let entry = word_at (s.blocks inode.indirect) index in
    if not (s.works inode.indirect)
    then record { block = 0; inode = inode; fs = s; changed = changed }
    else if entry == 0 && allocate
    then (let table = s.blocks inode.indirect in
        let (block, t) = alloc_block s in
        let u =
          if block == 0 then t else write_block t inode.indirect (put_word table index block) in
        record { block = block; inode = inode; fs = u; changed = changed })
    else record { block = entry; inode = inode; fs = s; changed = changed }

-- The rest of `block_for`, with `index` past the direct entries.
abbrev pub indirect_block : Fs → Inode → ℕ → Bool → Located
indirect_block s inode index allocate =
    let (block, t) = alloc_block s in
    if leb pointers index
    then record { block = 0; inode = inode; fs = s; changed = false }
    else if not (inode.indirect == 0)
    then table_block s inode index allocate false
    else if not allocate
    then record { block = 0; inode = inode; fs = s; changed = false }
    else if block == 0
    then record { block = 0; inode = inode; fs = t; changed = false }
    else table_block t (record inode { indirect = block }) index allocate true

-- `block_for`
unfoldable pub block_for : Fs → Inode → ℕ → Bool → Located
block_for s inode index allocate =
    if ltb index direct_count
    then direct_block s inode index allocate
    else indirect_block s inode (index - direct_count) allocate

-- `n` bytes of a block from `at` on.
unfoldable pub block_bytes : (ℕ → ℕ) → ℕ → ℕ → List ℕ
block_bytes b at zero = []
block_bytes b at (suc n) = b at ∷ block_bytes b (at + 1) n

-- The loop of `sfs_file_read` from position `pos` on, `left` bytes left. A round reads a byte at
-- least, so as many rounds as there are bytes are enough.
unfoldable pub read_loop : ℕ → Fs → Inode → ℕ → ℕ → List ℕ
unfolding block_bytes
read_loop zero s inode pos left = []
read_loop (suc n) s inode pos left =
    let disk_block = (block_for s inode (pos / block_size) false).block in
    let chunk = min (block_size - pos % block_size) left in
    let rest = read_loop n s inode (pos + chunk) (left - chunk) in
    if left == 0
    then []
    else if disk_block == 0
    then replicate chunk 0 ++ rest
    else if not (s.works disk_block)
    then []
    else block_bytes (s.blocks disk_block) (pos % block_size) chunk ++ rest

-- `sfs_file_read`: the bytes copied; `none` is -1.
unfoldable pub file_read : Fs → ℕ → ℕ → ℕ → Option (List ℕ)
unfolding read_loop
file_read s number offset count = elim (inode_read s number) [
  | none ↦ none
  | some inode ↦
      (let n = if ltb inode.size ((offset + count) % 2 ^ 32) then inode.size - offset else count in
        if leb inode.size offset then some [] else some (read_loop n s inode offset n))
]

-- The locals of `sfs_file_write` after its loop.
pub record Written : Type 0 where
  pub fs : Fs
  pub inode : Inode
  pub written : ℕ
  pub changed : Bool

abbrev pub patch : (ℕ → ℕ) → ℕ → ℕ → List ℕ → ℕ → ℕ
patch b at n bytes j = if leb at j && ltb j (at + n) then get_or bytes (j - at) 0 else b j

-- The loop, with `bytes` left to write, as many rounds as there are bytes.
unfoldable pub write_loop : ℕ → Fs → Inode → ℕ → List ℕ → ℕ → Bool → Written
unfolding block_for
write_loop zero s inode pos bytes written changed = record {
  fs = s;
  inode = inode;
  written = written;
  changed = changed;
}
write_loop (suc n) s inode pos bytes written changed =
    let at = block_for s inode (pos / block_size) true in
    let within = pos % block_size in
    let chunk = min (block_size - within) (length bytes) in
    let next = write_block at.fs at.block (patch (at.fs.blocks at.block) within chunk bytes) in
    let rest =
      write_loop n next at.inode (pos + chunk) (drop chunk bytes) (written + chunk)
        (changed || at.changed) in
    let stop : Written = record {
      fs = at.fs;
      inode = at.inode;
      written = written;
      changed = changed || at.changed;
    } in
    if length bytes == 0
    then record { fs = s; inode = inode; written = written; changed = changed }
    else if at.block == 0
    then stop
    else if not (at.fs.works at.block)
    then stop
    else rest

-- After the loop: the size and the time, and the inode written back.
abbrev pub finish_write : ℕ → ℕ → ℕ → Written → ℕ × Fs
finish_write number offset now w =
    let end = (offset + w.written) % 2 ^ 32 in
    let grows = ltb w.inode.size end in
    let inode = record w.inode { size = if grows then end else w.inode.size; modified = now } in
    if (w.changed || grows) || ltb 0 w.written
    then (w.written, elim (inode_write w.fs number inode) [ none ↦ w.fs | some t ↦ t ])
    else (w.written, w.fs)

-- `sfs_file_write`: the bytes written; `none` is -1. `now` is `timer_ms() / 1000`.
unfoldable pub file_write : Fs → ℕ → ℕ → List ℕ → ℕ → Option ℕ × Fs
unfolding write_loop
file_write s number offset bytes now = elim (inode_read s number) [
  | none ↦ (none, s)
  | some inode ↦
      (let (n, t) =
          finish_write number offset now (write_loop (length bytes) s inode offset bytes 0 false) in
        (some n, t))
]

-- The loop of `release_blocks`, `n` blocks left.
unfoldable pub release_loop : ℕ → Fs → Inode → ℕ → Inode × Fs
release_loop zero s inode index = (inode, s)
release_loop (suc n) s inode index =
    let table = s.blocks inode.indirect in
    let slot = index - direct_count in
    let freed = free_block s (word_at table slot) in
    let direct =
      release_loop n (free_block s (inode.direct index)) (with_direct inode index 0) (index + 1) in
    let skip = release_loop n s inode (index + 1) in
    let indirect =
      release_loop n (write_block freed inode.indirect (put_word table slot 0)) inode (index + 1) in
    if ltb index direct_count
    then direct
    else if inode.indirect == 0
    then skip
    else if leb pointers slot || not (s.works inode.indirect)
    then (inode, s)
    else indirect

-- `release_blocks`
unfoldable pub release_blocks : Fs → Inode → ℕ → Inode × Fs
unfolding release_loop
release_blocks s inode index =
    let total = (inode.size + (block_size - 1)) % 2 ^ 32 / block_size in
    let (kept, t) = release_loop (total - index) s inode index in
    if index == 0 && not (kept.indirect == 0)
    then (record kept { indirect = 0 }, free_block t kept.indirect)
    else (kept, t)

-- `sfs_file_truncate_inode`; `false` is -1.
unfoldable pub file_truncate : Fs → ℕ → ℕ → ℕ → Bool × Fs
file_truncate s number size now = elim (inode_read s number) [
  | none ↦ (false, s)
  | some inode ↦
      (let (kept, t) =
          if ltb size inode.size
          then release_blocks s inode ((size + (block_size - 1)) % 2 ^ 32 / block_size)
          else (inode, s) in
        elim (inode_write t number (record kept { size = size; modified = now })) [
          | none ↦ (false, t)
          | some u ↦ (true, u)
        ])
]
