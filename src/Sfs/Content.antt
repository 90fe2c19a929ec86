-- ===== src/Sfs/Content.antt =====
-- The bytes of a file, and what a new block or a write to a block makes of them.
use sifar_os.Common.{
  ℕ, ◌/◌, ◌%◌, ◌≡◌, ◌≢◌, refl, sym, ap, ◌∙◌, subst, if◌then◌else◌, ltb, ◌==◌, arith, Bool-cases,
  inl, inr,
}
use sifar_os.Sfs.Disk.{block_size, Fs, Inode}
use sifar_os.Sfs.Files.{Located}
use sifar_os.Sfs.Mapped.{located, IsFile, Gains, located_same}

-- Byte `p` of a file; where there is no block it is 0.
unfoldable pub byte_at : Fs → Inode → ℕ → ℕ
byte_at s inode p =
    let b = located s inode (p / block_size) in if b == 0 then 0 else s.blocks b (p % block_size)

-- A block more changes no byte.
pub Gains-byte_at :
    (s : Fs) (inode : Inode) (index : ℕ) (l : Located) (p : ℕ)
    → Gains s inode index l
    → byte_at l.fs l.inode p ≡ byte_at s inode p
unfolding byte_at
Gains-byte_at s inode index l p g = elim (Bool-cases (p / block_size == index)) [
  | inl here ↦
      (let e : p / block_size ≡ index = ground arith in
        subst
          (λ i.
            (if located l.fs l.inode i == 0
              then 0
              else l.fs.blocks (located l.fs l.inode i) (p % block_size))
            ≡ (if located s inode i == 0 then 0 else s.blocks (located s inode i) (p % block_size)))
          (sym e)
          (elim (Bool-cases (located s inode index == 0)) [
            | inl empty ↦ ground (arith, g.here, g.zeros (p % block_size))
            | inr there ↦ ground (arith, g.here, g.kept, g.bytes index (p % block_size))
          ]))
  | inr away ↦ ground (arith, g.others (p / block_size), g.bytes (p / block_size) (p % block_size))
]

-- The block that a round writes to holds the new bytes; no other byte changes.
abbrev pub overwritten : Fs → ℕ → (ℕ → ℕ) → Fs
overwritten s b bytes = record s { blocks = λ g j. if g == b then bytes j else s.blocks g j }

pub located-overwritten :
    (s : Fs) (inode : Inode) (b i : ℕ) (bytes : ℕ → ℕ)
    → (inode.indirect ≢ 0 → b ≢ inode.indirect)
    → located (overwritten s b bytes) inode i ≡ located s inode i
unfolding located
located-overwritten s inode b i bytes n =
    ap (λ x. if ltb i 12 then inode.direct i else x)
      (located_same s (overwritten s b bytes) inode inode i refl
        (λ m k. let e = n m in ground (arith, e)))

pub overwritten-IsFile :
    (s : Fs) (inode : Inode) (b : ℕ) (bytes : ℕ → ℕ)
    → IsFile s inode
    → (inode.indirect ≢ 0 → b ≢ inode.indirect)
    → IsFile (overwritten s b bytes) inode
overwritten-IsFile s inode b bytes f n =
    let at : (i : ℕ) → located (overwritten s b bytes) inode i ≡ located s inode i =
      λ i. located-overwritten s inode b i bytes n in
    record {
      works = f.works;
      disk = f.disk;
      taken = λ i m. ground (arith, at i, f.taken i);
      different = λ i j m q. ground (arith, at i, at j, f.different i j);
      table_taken = f.table_taken;
      apart = λ m i q. f.apart m i (sym (at i) ∙ q);
      plain = λ i m. ground (arith, at i, f.plain i);
      plain_table = f.plain_table;
      words = (λ i. ground (arith, at i, f.words.0 i), f.words.1);
      size_word = f.size_word;
    }

pub overwritten-byte_at :
    (s : Fs) (inode : Inode) (index p : ℕ) (bytes : ℕ → ℕ)
    → IsFile s inode
    → located s inode index ≢ 0
    → byte_at (overwritten s (located s inode index) bytes) inode p
      ≡ (if p / block_size == index then bytes (p % block_size) else byte_at s inode p)
unfolding byte_at
overwritten-byte_at s inode index p bytes f n =
    let at =
      located-overwritten s inode (located s inode index) (p / block_size) bytes
        (λ m. f.apart m index) in
    subst
      (λ x.
        (if x == 0
          then 0
          else (overwritten s (located s inode index) bytes).blocks x (p % block_size))
        ≡ (if p / block_size == index
            then bytes (p % block_size)
            else if located s inode (p / block_size) == 0
            then 0
            else s.blocks (located s inode (p / block_size)) (p % block_size)))
      (sym at)
      (elim (Bool-cases (p / block_size == index)) [
        | inl here ↦
            (let e : located s inode (p / block_size) ≡ located s inode index =
                ap (located s inode) (ground arith) in
              ground (arith, e))
        | inr away ↦ ground (arith, f.different (p / block_size) index)
      ])
