-- ===== src/Sfs/Stored.antt =====
-- `sfs_file_write` of an inode of the table, and reading back what it wrote.
use sifar_os.Common.{
  ℕ, ◌+◌, ◌-◌, ◌/◌, ◌%◌, ◌^◌, ◌<◌, ◌≤◌, ◌≡◌, ◌≢◌, refl, sym, ap, ◌∙◌, subst, Bool, true, false,
  ◌&&◌, ◌||◌, Option, none, some, List, if◌then◌else◌, leb, ltb, arith, if_elim, min, max, length,
  get_or,
}
use sifar_os.Sfs.Disk.{
  block_size, Geometry, Fs, Inode, inode_block, inode_slot, inode_at, stored_inode, is_inode,
  inode_read, inode_write,
}
use sifar_os.Sfs.Files.{Written, file_read, file_write, write_loop, finish_write}
use sifar_os.Sfs.Mapped.{located, IsFile}
use sifar_os.Sfs.Content.{byte_at}
use sifar_os.Sfs.Reading.{inode_read-some, file_read-Reads}
use sifar_os.Sfs.Putting.{
  put_inode, inode_block-in_table, put-IsFile, put-size, put-byte_at, put-others, put-located_now,
  put-is_inode,
}
use sifar_os.Sfs.Writing.{Writes, write_loop-Writes}

-- What `sfs_file_write` does where it writes: the file is well formed, as long as before or up to the
-- end of the write, holds the bytes that were written, and every other byte is as it was, as are the
-- other inodes of the table. Where it writes less than it was given, no block was to be had for the next byte.
pub record Stores (s : Fs) (number offset : ℕ) (bytes : List ℕ) (n : ℕ) (t : Fs) : Type 0 where
  pub file : IsFile t (stored_inode t number)
  pub size : (stored_inode t number).size ≡ max (stored_inode s number).size (offset + n)
  pub content :
      (p : ℕ)
      → byte_at t (stored_inode t number) p ≡ (
          if leb offset p && ltb p (offset + n)
          then get_or bytes (p - offset) 0
          else byte_at s (stored_inode s number) p)
  pub other_inodes :
      (m : ℕ) → m ≢ number → is_inode s m ≡ true → stored_inode t m ≡ stored_inode s m
  pub at_most : n ≤ length bytes
  pub stops : n ≢ length bytes → located t (stored_inode t number) ((offset + n) / block_size) ≡ 0
  pub still : is_inode t number ≡ true

-- The inode that is written back.
abbrev final_inode : ℕ → ℕ → Written → Inode
final_inode offset now w =
    let end = (offset + w.written) % 2 ^ 32 in
    record w.inode { size = if ltb w.inode.size end then end else w.inode.size; modified = now }

finish_write-count :
    (number offset now : ℕ) (w : Written) → (finish_write number offset now w).0 ≡ w.written
finish_write-count number offset now w =
    if_elim (λ (r : ℕ × Fs). r.0 ≡ w.written)
      ((w.changed || ltb w.inode.size ((offset + w.written) % 2 ^ 32)) || ltb 0 w.written) _ _
      (λ e. refl) (λ e. refl)

finish_write_put :
    (number offset now : ℕ) (w : Written)
    → is_inode w.fs number ≡ true
    → w.written ≢ 0
    → (finish_write number offset now w).1 ≡ put_inode w.fs number (final_inode offset now w)
unfolding inode_write
finish_write_put number offset now w i n =
    if_elim (λ (r : ℕ × Fs). r.1 ≡ put_inode w.fs number (final_inode offset now w))
      ((w.changed || ltb w.inode.size ((offset + w.written) % 2 ^ 32)) || ltb 0 w.written) _ _
      (λ e.
        ap
          (λ c. elim (if c then some (put_inode w.fs number (final_inode offset now w)) else none) [
            | none ↦ w.fs
            | some t ↦ t
          ])
          i)
      (λ e. absurd (
        last (w.changed || ltb w.inode.size ((offset + w.written) % 2 ^ 32)) (ltb 0 w.written) e
          (ground arith)))
  where
    last : (a b : Bool) → a || b ≡ false → b ≡ true → ⊥
    last true b e d = cc
    last false b e d = cc

-- The bytes and blocks of a file do not depend on the size and the time.
final-IsFile :
    (offset now : ℕ) (w : Written) → IsFile w.fs w.inode → IsFile w.fs (final_inode offset now w)
unfolding located
final-IsFile offset now w f = record {
  works = f.works;
  disk = f.disk;
  taken = f.taken;
  different = f.different;
  table_taken = f.table_taken;
  apart = f.apart;
  plain = f.plain;
  plain_table = f.plain_table;
  words = f.words;
  size_word = ground (arith, f.size_word);
}

-- The inode is there after the loop as before.
still_inode :
    (s : Fs) (number : ℕ) (w : Written)
    → is_inode s number ≡ true
    → w.fs.super.geometry ≡ s.super.geometry
    → w.fs.works (inode_block w.fs number) ≡ true
    → is_inode w.fs number ≡ true
still_inode s number w i e k =
    ap
      (λ (c : Geometry).
        (leb 1 number && leb number c.inode_count) && w.fs.works (inode_block w.fs number))
      e
    ∙ generic number s.super.geometry.inode_count _ _ i k
  where
    generic :
        (n count : ℕ) (a b : Bool)
        → (leb 1 n && leb n count) && a ≡ true
        → b ≡ true
        → (leb 1 n && leb n count) && b ≡ true
    generic n count a b p q = ground arith

put_inode-Stores :
    (s : Fs) (number offset now : ℕ) (bytes : List ℕ) (w : Written)
    → is_inode s number ≡ true
    → offset + length bytes < 2 ^ 32
    → Writes s (stored_inode s number) offset bytes 0 w
    → Stores s number offset bytes w.written (put_inode w.fs number (final_inode offset now w))
unfolding located byte_at
put_inode-Stores s number offset now bytes w i h r = record {
  file = put-IsFile w.fs number last f there;
  size = put-size w.fs number last f there ∙ ground (arith, r.size, r.at_most);
  content = λ p.
      put-byte_at w.fs number last f there p
      ∙ (r.content p
          ∙ ap
              (λ k.
                if leb offset p && ltb p (offset + k)
                then get_or bytes (p - offset) 0
                else byte_at s (stored_inode s number) p)
              zero_off);
  other_inodes = λ m n k.
      put-others w.fs number m last (ground arith) (ground arith) n f.works
      ∙ (ap (λ g. inode_at (w.fs.blocks (g.inode_start + (m - 1) / 32)) (inode_slot m)) r.geometry
          ∙ ap (λ b. inode_at b (inode_slot m))
              (λ x j. r.table (inode_block s m) j (inode_block-in_table s m k) x));
  at_most = omega (arith, r.at_most);
  stops = λ n.
      put-located_now w.fs number last f there ((offset + w.written) / block_size)
      ∙ (ap (λ k. located w.fs last ((offset + k) / block_size)) (sym zero_off)
          ∙ r.stops (λ e. n (omega (arith, e))));
  still = put-is_inode w.fs number last f there;
}
  where
    last : Inode
    last = final_inode offset now w

    f : IsFile w.fs last
    f = final-IsFile offset now w r.file

    there : is_inode w.fs number ≡ true
    there = still_inode s number w i r.geometry (r.file.works (inode_block w.fs number))

    zero_off : w.written - 0 ≡ w.written
    zero_off = omega arith

pub file_write-Stores :
    (s : Fs) (number offset now : ℕ) (bytes : List ℕ)
    → is_inode s number ≡ true
    → IsFile s (stored_inode s number)
    → offset + length bytes < 2 ^ 32
    → (n : ℕ) × ((file_write s number offset bytes now).0 ≡ some n)
      × (n ≢ 0 → Stores s number offset bytes n (file_write s number offset bytes now).1)
unfolding file_write
file_write-Stores s number offset now bytes i f h = (
  w.written,
  ap (λ r. (body r).0) e ∙ ap some (finish_write-count number offset now w),
  λ n.
      subst (λ x. Stores s number offset bytes w.written x)
        (sym (
          ap (λ r. (body r).1) e
          ∙ finish_write_put number offset now w
              (still_inode s number w i r.geometry (r.file.works (inode_block w.fs number))) n))
        (put_inode-Stores s number offset now bytes w i h r),
)
  where
    w : Written
    w = write_loop (length bytes) s (stored_inode s number) offset bytes 0 false

    r : Writes s (stored_inode s number) offset bytes 0 w
    r =
        write_loop-Writes (length bytes) s (stored_inode s number) offset bytes 0 false f
          (omega arith)

    e : inode_read s number ≡ some (stored_inode s number)
    e = inode_read-some s number i

    body : Option Inode → Option ℕ × Fs
    body o = elim o [
      | none ↦ (none, s)
      | some inode ↦
          (let (n, t) =
              finish_write number offset now
                (write_loop (length bytes) s inode offset bytes 0 false) in
            (some n, t))
    ]

-- What `sfs_file_write` wrote, `sfs_file_read` gives back: on a device that reads and writes every block,
-- and a disk whose metadata lies apart and is taken, for an inode whose blocks are taken, different ones
-- and no metadata, and bytes that end below 2 ^ 32, a read of as many bytes as were written, at the same
-- offset, gives those bytes.
pub file_read-file_write :
    (s : Fs) (number offset now n : ℕ) (bytes : List ℕ)
    → is_inode s number ≡ true
    → IsFile s (stored_inode s number)
    → offset + length bytes < 2 ^ 32
    → (file_write s number offset bytes now).0 ≡ some n
    → n ≢ 0
    → (out : List ℕ) × (file_read (file_write s number offset bytes now).1 number offset n
        ≡ some out)
      × (length out ≡ n)
      × ((i : ℕ) → i < n → get_or out i 0 ≡ get_or bytes i 0)
file_read-file_write s number offset now n bytes i f h e m =
    let (k, p, q) = file_write-Stores s number offset now bytes i f h in
    let same : k ≡ n = some_same k n (sym p ∙ e) in
    read_back
      (subst (λ x. Stores s number offset bytes x t) same (q (subst (λ x. x ≢ 0) (sym same) m)))
  where
    t : Fs
    t = (file_write s number offset bytes now).1

    some_same : (a b : ℕ) → some a ≡ some b → a ≡ b
    some_same a b e = cc

    positive : 0 < n
    positive = omega arith

    byte :
        (i : ℕ)
        → i < n
        → (if leb offset (offset + i) && ltb (offset + i) (offset + n)
            then get_or bytes (offset + i - offset) 0
            else byte_at s (stored_inode s number) (offset + i))
          ≡ get_or bytes i 0
    byte i l =
        let e : offset + i - offset ≡ i = omega arith in
        ground (arith, ap (λ k. get_or bytes k 0) e)

    read_back :
        Stores s number offset bytes n t
        → (out : List ℕ) × (file_read t number offset n ≡ some out)
          × (length out ≡ n)
          × ((i : ℕ) → i < n → get_or out i 0 ≡ get_or bytes i 0)
    read_back d =
        let (out, a, b) =
          file_read-Reads t number offset n d.still d.file (omega (arith, d.at_most))
            (omega (arith, d.size, positive)) in
        let all : min n ((stored_inode t number).size - offset) ≡ n = omega (arith, d.size) in
        (
          out,
          a,
          b.all ∙ all,
          λ i l. b.bytes i (omega (arith, all)) ∙ (d.content (offset + i) ∙ byte i l),
        )
