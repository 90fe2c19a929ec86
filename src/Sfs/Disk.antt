-- ===== src/Sfs/Disk.antt =====
-- Blocks, the bitmap and the inodes.
use sifar_os.Common.{
  ℕ, zero, suc, ◌+◌, ◌-◌, ◌*◌, ◌/◌, ◌%◌, ◌^◌, Bool, true, false, ◌&&◌, ◌||◌, not, Option, none,
  some, [], ◌∷◌, if◌then◌else◌, leb, ltb, ◌==◌, get_or,
}

abbrev pub block_size : ℕ
block_size = 4096

abbrev pub direct_count : ℕ
direct_count = 12

abbrev pub pointers : ℕ
pointers = 1024

-- The fields of the superblock that stay as they are while the file system is mounted.
pub record Geometry : Type 0 where
  pub magic : ℕ
  pub version : ℕ
  pub bytes_per_block : ℕ
  pub total_blocks : ℕ
  pub bitmap_start : ℕ
  pub bitmap_blocks : ℕ
  pub inode_start : ℕ
  pub inode_blocks : ℕ
  pub inode_count : ℕ
  pub root_inode : ℕ
  pub label : ℕ → ℕ

pub record Super : Type 0 where
  pub geometry : Geometry
  pub free_blocks : ℕ

-- `type` is 0 for an inode that is free; `direct` has 12 entries and `reserved` 13.
pub record Inode : Type 0 where
  pub type : ℕ
  pub size : ℕ
  pub links : ℕ
  pub created : ℕ
  pub modified : ℕ
  pub flags : ℕ
  pub direct : ℕ → ℕ
  pub indirect : ℕ
  pub reserved : ℕ → ℕ

-- The mounted file system: what the kernel keeps, and the bytes of the blocks of the disk, among which
-- are those of the superblock, the bitmap and the inodes. `works` tells the blocks that the device can
-- read and write. The scratch buffers are taken to be had.
pub record Fs : Type 0 where
  pub super : Super
  pub bitmap : ℕ → Bool
  pub blocks : ℕ → ℕ → ℕ
  pub inodes_used : ℕ
  pub works : ℕ → Bool

-- A 32-bit word of a block, lowest byte first, and its bytes.
abbrev pub word_at : (ℕ → ℕ) → ℕ → ℕ
word_at b i = b (4 * i) + 2 ^ 8 * b (4 * i + 1) + 2 ^ 16 * b (4 * i + 2) + 2 ^ 24 * b (4 * i + 3)

abbrev pub byte_of : ℕ → ℕ → ℕ
byte_of w k =
    if k == 0
    then w % 2 ^ 8
    else if k == 1
    then w / 2 ^ 8 % 2 ^ 8
    else if k == 2
    then w / 2 ^ 16 % 2 ^ 8
    else w / 2 ^ 24 % 2 ^ 8

abbrev pub put_word : (ℕ → ℕ) → ℕ → ℕ → ℕ → ℕ
put_word b i w j = if j / 4 == i then byte_of w (j % 4) else b j

-- `write_block`, which changes nothing where the device fails.
abbrev pub write_block : Fs → ℕ → (ℕ → ℕ) → Fs
write_block s block bytes =
    if s.works block
    then record s { blocks = λ b j. if b == block then bytes j else s.blocks b j }
    else s

-- The words of `struct sfs_super`, and the bytes of the block that `write_super` writes.
abbrev pub super_word : Super → ℕ → ℕ
super_word u i =
    let g = u.geometry in
    get_or
      (g.magic ∷ g.version ∷ g.bytes_per_block ∷ g.total_blocks ∷ g.bitmap_start ∷ g.bitmap_blocks
        ∷ g.inode_start ∷ g.inode_blocks ∷ g.inode_count ∷ g.root_inode ∷ u.free_blocks ∷ [])
      i 0

abbrev pub super_byte : Super → ℕ → ℕ
super_byte u j =
    if ltb j 44
    then byte_of (super_word u (j / 4)) (j % 4)
    else if ltb j 76
    then u.geometry.label (j - 44)
    else 0

-- `write_super`
abbrev pub write_super : Fs → Fs
write_super s = write_block s 0 (λ j. super_byte s.super j)

abbrev pub bit_value : Bool → ℕ
bit_value b = if b then 1 else 0

-- A byte of the bitmap, lowest bit first.
abbrev pub bitmap_byte : (ℕ → Bool) → ℕ → ℕ
bitmap_byte bitmap k =
    bit_value (bitmap (8 * k))
    + 2 * bit_value (bitmap (8 * k + 1))
    + 4 * bit_value (bitmap (8 * k + 2))
    + 8 * bit_value (bitmap (8 * k + 3))
    + 16 * bit_value (bitmap (8 * k + 4))
    + 32 * bit_value (bitmap (8 * k + 5))
    + 64 * bit_value (bitmap (8 * k + 6))
    + 128 * bit_value (bitmap (8 * k + 7))

-- The block that holds the bit of a block.
abbrev pub bitmap_block : Fs → ℕ → ℕ
bitmap_block s block = s.super.geometry.bitmap_start + block / (block_size * 8)

-- `bitmap_flush`
abbrev pub bitmap_flush : Fs → ℕ → Fs
bitmap_flush s block =
    write_block s (bitmap_block s block)
      (λ j. bitmap_byte s.bitmap (block / (block_size * 8) * block_size + j))

abbrev pub mark : (ℕ → Bool) → ℕ → Bool → ℕ → Bool
mark bitmap block v b = if b == block then v else bitmap b

-- The loop of `alloc_block`, `n` blocks left: the first one that is free.
unfoldable pub scan_blocks : (ℕ → Bool) → ℕ → ℕ → Option ℕ
scan_blocks bitmap zero block = none
scan_blocks bitmap (suc n) block =
    let rest = scan_blocks bitmap n (block + 1) in if bitmap block then rest else some block

-- Setting or clearing the bit of a block, and writing the bitmap and the superblock.
abbrev pub mark_block : Fs → ℕ → Bool → ℕ → Fs
mark_block s block v free_blocks =
    let marked = bitmap_flush (record s { bitmap = mark s.bitmap block v }) block in
    write_super (record marked { super = record marked.super { free_blocks = free_blocks } })

abbrev pub take_block : Fs → ℕ → Fs
take_block s block = write_block (mark_block s block true (s.super.free_blocks - 1)) block (λ j. 0)

-- `alloc_block`: the block, or 0.
unfoldable pub alloc_block : Fs → ℕ × Fs
unfolding scan_blocks
alloc_block s = elim (scan_blocks s.bitmap s.super.geometry.total_blocks 0) [
  | none ↦ (0, s)
  | some block ↦ (block, take_block s block)
]

-- `free_block`
unfoldable pub free_block : Fs → ℕ → Fs
free_block s block =
    if (block == 0 || leb s.super.geometry.total_blocks block) || not (s.bitmap block)
    then s
    else mark_block s block false ((s.super.free_blocks + 1) % 2 ^ 32)

-- The block of the table that an inode stands in, and its place there; 32 inodes share a block.
abbrev pub inode_block : Fs → ℕ → ℕ
inode_block s number = s.super.geometry.inode_start + (number - 1) / 32

abbrev pub inode_slot : ℕ → ℕ
inode_slot number = (number - 1) % 32

-- The words of `struct sfs_inode`.
abbrev pub inode_word : Inode → ℕ → ℕ
inode_word inode k =
    if ltb k 6
    then get_or
        (inode.type ∷ inode.size ∷ inode.links ∷ inode.created ∷ inode.modified ∷ inode.flags ∷ [])
        k 0
    else if ltb k 18
    then inode.direct (k - 6)
    else if k == 18
    then inode.indirect
    else inode.reserved (k - 19)

-- The inode at a place of a block, and the block with an inode put there: an inode takes 32 words.
unfoldable pub inode_at : (ℕ → ℕ) → ℕ → Inode
inode_at b slot = record {
  type = word_at b (32 * slot);
  size = word_at b (32 * slot + 1);
  links = word_at b (32 * slot + 2);
  created = word_at b (32 * slot + 3);
  modified = word_at b (32 * slot + 4);
  flags = word_at b (32 * slot + 5);
  direct = λ i. if ltb i direct_count then word_at b (32 * slot + (6 + i)) else 0;
  indirect = word_at b (32 * slot + 18);
  reserved = λ i. if ltb i 13 then word_at b (32 * slot + (19 + i)) else 0;
}

abbrev pub put_inode_at : (ℕ → ℕ) → ℕ → Inode → ℕ → ℕ
put_inode_at b slot inode j =
    if j / 128 == slot then byte_of (inode_word inode (j % 128 / 4)) (j % 4) else b j

abbrev pub is_inode : Fs → ℕ → Bool
is_inode s number =
    (leb 1 number && leb number s.super.geometry.inode_count) && s.works (inode_block s number)

-- The inode of a number, as the disk holds it.
abbrev pub stored_inode : Fs → ℕ → Inode
stored_inode s number = inode_at (s.blocks (inode_block s number)) (inode_slot number)

-- `inode_read` and `inode_write`; `none` is -1.
unfoldable pub inode_read : Fs → ℕ → Option Inode
inode_read s number = if is_inode s number then some (stored_inode s number) else none

unfoldable pub inode_write : Fs → ℕ → Inode → Option Fs
inode_write s number inode =
    let block = inode_block s number in
    if is_inode s number
    then some (write_block s block (put_inode_at (s.blocks block) (inode_slot number) inode))
    else none

abbrev pub blank : Inode
blank = record {
  type = 0;
  size = 0;
  links = 0;
  created = 0;
  modified = 0;
  flags = 0;
  direct = λ i. 0;
  indirect = 0;
  reserved = λ i. 0;
}

-- `written` is what `inode_write` gives.
abbrev pub given_inode : Fs → ℕ → Option Fs → ℕ × Fs
given_inode s number none = (0, s)
given_inode s number (some t) = (number, record t { inodes_used = t.inodes_used + 1 })

-- The loop of `alloc_inode`, `n` numbers left; 0 is a failure. `now` is `timer_ms() / 1000`.
unfoldable pub find_inode : Fs → ℕ → ℕ → ℕ → ℕ → ℕ × Fs
find_inode s type now zero number = (0, s)
find_inode s type now (suc n) number =
    let rest = find_inode s type now n (number + 1) in
    let fresh = record blank { type = type; links = 1; created = now; modified = now } in
    elim (inode_read s number) [
      | none ↦ (0, s)
      | some inode ↦
          if inode.type == 0 then given_inode s number (inode_write s number fresh) else rest
    ]

-- `alloc_inode`
unfoldable pub alloc_inode : Fs → ℕ → ℕ → ℕ × Fs
unfolding find_inode
alloc_inode s type now = find_inode s type now s.super.geometry.inode_count 1
