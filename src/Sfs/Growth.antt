-- ===== src/Sfs/Growth.antt =====
-- `block_for` adds at most one block to a file.
use sifar_os.Common.{
  ℕ, ◌+◌, ◌-◌, ◌<◌, ◌≡◌, ◌≢◌, refl, sym, ap, ◌∙◌, subst, Bool, true, false, ◌&&◌, ◌||◌, not,
  if◌then◌else◌, leb, ltb, ◌==◌, arith, if_elim,
}
use sifar_os.Sfs.Disk.{Fs, Inode, direct_count, pointers, word_at, alloc_block}
use sifar_os.Sfs.Files.{table_block, indirect_block, block_for}
use sifar_os.Sfs.Mapped.{located, IsFile, Gains, direct-Gains}
use sifar_os.Sfs.Tables.{stored-Gains, nothing-Gains, with_table, new_table-IsFile, new_table-Gains}
use sifar_os.Sfs.Blocks.{Takes, alloc_block-Takes}

-- The entry of the table is what `located` reads.
pub located_entry :
    (s : Fs) (inode : Inode) (idx : ℕ)
    → inode.indirect ≢ 0
    → idx < 1024
    → located s inode (idx + 12) ≡ word_at (s.blocks inode.indirect) idx
unfolding located
located_entry s inode idx n h =
    let e : idx + 12 - 12 ≡ idx = omega arith in
    generic (inode.direct (idx + 12)) inode.indirect idx
      (word_at (s.blocks inode.indirect) (idx + 12 - 12)) n h
    ∙ ap (word_at (s.blocks inode.indirect)) e
  where
    generic :
        (d table idx a : ℕ)
        → table ≢ 0
        → idx < 1024
        → (if ltb (idx + 12) 12
            then d
            else if leb 1024 (idx + 12 - 12) || (table == 0)
            then 0
            else a)
          ≡ a
    generic d table idx a n h = ground arith

table_block-Gains :
    (s : Fs) (inode : Inode) (idx : ℕ) (changed : Bool)
    → IsFile s inode
    → inode.indirect ≢ 0
    → idx < 1024
    → Gains s inode (idx + 12) (table_block s inode idx true changed)
table_block-Gains s inode idx changed f n h =
    let entry : ℕ = word_at (s.blocks inode.indirect) idx in
    if_elim (Gains s inode (idx + 12)) (not (s.works inode.indirect)) _ _
      (λ e. absurd (clash (sym (f.works inode.indirect) ∙ ground (arith, e))))
      (λ e.
        if_elim (Gains s inode (idx + 12)) (entry == 0 && true) _ _
          (λ z.
            stored-Gains s inode idx changed (alloc_block s) f (alloc_block-Takes s f.works f.disk)
              n h (located_entry s inode idx n h ∙ zero_entry entry z))
          (λ z.
            nothing-Gains s s inode (idx + 12) entry changed f refl
              (sym (located_entry s inode idx n h))))
  where
    clash : true ≡ false → ⊥
    clash e = cc

    zero_entry : (x : ℕ) → (x == 0) && true ≡ true → x ≡ 0
    zero_entry x e = ground arith

-- No block stands past the table, or in a table that is not there.
pub located_past :
    (s : Fs) (inode : Inode) (idx : ℕ)
    → (leb 1024 idx || (inode.indirect == 0)) ≡ true
    → located s inode (idx + 12) ≡ 0
unfolding located
located_past s inode idx e =
    generic (inode.direct (idx + 12)) inode.indirect idx
      (word_at (s.blocks inode.indirect) (idx + 12 - 12)) e
  where
    generic :
        (d table idx a : ℕ)
        → (leb 1024 idx || (table == 0)) ≡ true
        → (if ltb (idx + 12) 12
            then d
            else if leb 1024 (idx + 12 - 12) || (table == 0)
            then 0
            else a)
          ≡ 0
    generic d table idx a e = ground arith

new_table_block-Gains :
    (s : Fs) (inode : Inode) (idx : ℕ) (r : ℕ × Fs)
    → IsFile s inode
    → Takes s r
    → inode.indirect ≡ 0
    → idx < 1024
    → Gains s inode (idx + 12) (
        if r.0 == 0
        then record { block = 0; inode = inode; fs = r.1; changed = false }
        else table_block r.1 (record inode { indirect = r.0 }) idx true true)
new_table_block-Gains s inode idx (b, t) f k z h =
    if_elim (Gains s inode (idx + 12)) (b == 0) _ _
      (λ e.
        let w : b ≡ 0 = ground arith in
        nothing-Gains s t inode (idx + 12) 0 false f (k.full w).0
          (sym (located_past s inode idx (ground (arith, z)))))
      (λ e.
        let m : b ≢ 0 = λ w. ground arith in
        new_table-Gains s inode b t f k z m (idx + 12) _ (
          table_block-Gains t (with_table s inode b t f k z m) idx true
            (new_table-IsFile s inode b t f k z m) m h))

indirect_block-Gains :
    (s : Fs) (inode : Inode) (idx : ℕ)
    → IsFile s inode
    → Gains s inode (idx + 12) (indirect_block s inode idx true)
indirect_block-Gains s inode idx f =
    if_elim (Gains s inode (idx + 12)) (leb pointers idx) _ _
      (λ e.
        nothing-Gains s s inode (idx + 12) 0 false f refl
          (sym (located_past s inode idx (ground arith))))
      (λ e.
        if_elim (Gains s inode (idx + 12)) (not (inode.indirect == 0)) _ _
          (λ n. table_block-Gains s inode idx false f (λ z. ground arith) (ground arith))
          (λ n.
            new_table_block-Gains s inode idx (alloc_block s) f (alloc_block-Takes s f.works f.disk)
              (ground arith) (ground arith)))

pub located_direct :
    (s : Fs) (inode : Inode) (i : ℕ)
    → ltb i direct_count ≡ true
    → located s inode i ≡ inode.direct i
unfolding located
located_direct s inode i e =
    ap
      (λ c.
        if c
        then inode.direct i
        else if leb pointers (i - direct_count) || (inode.indirect == 0)
        then 0
        else word_at (s.blocks inode.indirect) (i - direct_count))
      e

-- On a device that reads and writes every block, and a disk whose metadata lies apart and is taken, for
-- an inode whose blocks are taken, different ones and no metadata, `block_for` with `allocate` adds at
-- most the block at its index, which then reads as zeros; the other blocks of the file stay where they
-- are and hold what they held, the table of inodes is as it was, and the blocks of the file are again
-- taken, different ones and no metadata.
pub block_for-Gains :
    (s : Fs) (inode : Inode) (index : ℕ)
    → IsFile s inode
    → Gains s inode index (block_for s inode index true)
unfolding block_for
block_for-Gains s inode index f =
    if_elim (Gains s inode index) (ltb index direct_count) _ _
      (λ low.
        if_elim (Gains s inode index) (inode.direct index == 0 && true) _ _
          (λ e.
            direct-Gains s inode index (alloc_block s) f (alloc_block-Takes s f.works f.disk)
              (ground arith) (located_direct s inode index low ∙ ground arith))
          (λ e.
            nothing-Gains s s inode index (inode.direct index) false f refl
              (sym (located_direct s inode index low))))
      (λ high.
        let e : index - 12 + 12 ≡ index = ground arith in
        subst (λ i. Gains s inode i (indirect_block s inode (index - 12) true)) e
          (indirect_block-Gains s inode (index - 12) f))
