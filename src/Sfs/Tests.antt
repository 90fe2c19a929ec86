-- ===== src/Sfs/Tests.antt =====
-- A file on a small disk, and the theorems at it.
use sifar_os.Common.{
  ℕ, ◌&&◌, ◌||◌, ◌==◌, if◌then◌else◌, ◌<◌, ◌≡◌, ◌≢◌, refl, true, List, [], ◌∷◌, some, arith, ltb,
  length, get_or,
}
use sifar_os.Sfs.Disk.{
  Fs, Inode, alloc_block, scan_blocks, inode_at, inode_read, inode_write, stored_inode,
}
use sifar_os.Sfs.Layout.{IsDisk, is_meta, in_table}
use sifar_os.Sfs.Files.{block_for, write_loop, file_write, file_read}
use sifar_os.Sfs.Mapped.{located, IsFile, Gains}
use sifar_os.Sfs.Growth.{block_for-Gains}
use sifar_os.Sfs.Stored.{file_read-file_write}

-- Sixteen blocks, of which the first three hold the superblock, the bitmap and the inodes; inode 1 is
-- an empty file.
abbrev small : Fs
small = record {
  super = record {
    geometry = record {
      magic = 0;
      version = 1;
      bytes_per_block = 4096;
      total_blocks = 16;
      bitmap_start = 1;
      bitmap_blocks = 1;
      inode_start = 2;
      inode_blocks = 1;
      inode_count = 32;
      root_inode = 1;
      label = λ i. 0;
    };
    free_blocks = 13;
  };
  bitmap = λ b. ltb b 3;
  blocks = λ b j. if b == 2 && (j == 0 || j == 8) then 1 else 0;
  inodes_used = 1;
  works = λ b. true;
}

abbrev empty_file : Inode
empty_file = stored_inode small 1

type_and_links : (empty_file.type ≡ 1) × ((empty_file.links ≡ 1) × (empty_file.size ≡ 0))
unfolding inode_at
type_and_links = (refl, (refl, refl))

no_direct : (i : ℕ) → empty_file.direct i ≡ 0
unfolding inode_at
no_direct i = ground arith

no_indirect : empty_file.indirect ≡ 0
unfolding inode_at
no_indirect = refl

empty_located : (i : ℕ) → located small empty_file i ≡ 0
unfolding located
empty_located i = ground (arith, no_direct i, no_indirect)

small-IsDisk : IsDisk small.super.geometry small.bitmap
unfolding is_meta in_table
small-IsDisk = record {
  total = omega arith;
  bits = omega arith;
  first = omega arith;
  then_table = omega arith;
  meta_taken = λ b m. ground arith;
}

empty-IsFile : IsFile small empty_file
unfolding inode_at
empty-IsFile = record {
  works = λ b. refl;
  disk = small-IsDisk;
  taken = λ i n. absurd (n (empty_located i));
  different = λ i j n e. absurd (n (empty_located i));
  table_taken = λ n. absurd (n no_indirect);
  apart = λ n i e. absurd (n no_indirect);
  plain = λ i n. absurd (n (empty_located i));
  plain_table = λ n. absurd (n no_indirect);
  words = (λ i. omega (arith, empty_located i), omega (arith, no_indirect));
  size_word = omega arith;
}

block_for-Gains_example : Gains small empty_file 12 (block_for small empty_file 12 true)
block_for-Gains_example = block_for-Gains small empty_file 12 empty-IsFile

-- Entry 12 is the first of the table, which takes a block itself.
twelve_takes_two : (block_for small empty_file 12 true).block ≡ 4
unfolding block_for alloc_block scan_blocks inode_at
twelve_takes_two = refl

abbrev two_bytes : List ℕ
two_bytes = 7 ∷ 8 ∷ []

writes_both : (file_write small 1 4095 two_bytes 9).0 ≡ some 2
unfolding file_write write_loop block_for alloc_block scan_blocks inode_read inode_write inode_at
writes_both = refl

file_read-file_write_example :
    (out : List ℕ) × (file_read (file_write small 1 4095 two_bytes 9).1 1 4095 2 ≡ some out)
    × (length out ≡ 2)
    × ((i : ℕ) → i < 2 → get_or out i 0 ≡ get_or two_bytes i 0)
file_read-file_write_example =
    file_read-file_write small 1 4095 9 2 two_bytes refl empty-IsFile (omega arith) writes_both
      two_is_some
  where
    two_is_some : ◌≢◌ {A = ℕ} 2 0
    two_is_some e = omega arith

-- Taking block 3 is written to the bitmap and to the superblock, whose word 10 counts the free blocks.
marks_are_written :
    ((alloc_block small).1.blocks 1 0 ≡ 15) × ((alloc_block small).1.blocks 0 40 ≡ 12)
unfolding alloc_block scan_blocks
marks_are_written = (refl, refl)

-- The size of inode 1, word 1 of block 2, after both bytes were written.
size_is_written : (file_write small 1 4095 two_bytes 9).1.blocks 2 5 ≡ 16
unfolding file_write write_loop block_for alloc_block scan_blocks inode_read inode_write inode_at
size_is_written = refl
