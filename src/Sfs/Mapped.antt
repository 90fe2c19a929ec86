-- ===== src/Sfs/Mapped.antt =====
-- The map from the blocks of a file to the blocks of the disk, and what `block_for` does to it.
use sifar_os.Common.{
  ℕ, ◌+◌, ◌-◌, ◌*◌, ◌^◌, ◌<◌, ◌≡◌, ◌≢◌, refl, sym, ap, ◌∙◌, subst, Bool, true, false, ◌||◌,
  if◌then◌else◌, leb, ltb, ◌==◌, arith, Bool-cases, inl, inr,
}
use sifar_os.Sfs.Disk.{Fs, Inode, direct_count, pointers, word_at}
use sifar_os.Sfs.Files.{Located, with_direct}
use sifar_os.Sfs.Layout.{is_meta, in_table, IsDisk, taken-IsDisk, free-is_meta}
use sifar_os.Sfs.Blocks.{Takes}

-- The block of the disk that holds block `i` of a file, or 0.
unfoldable pub located : Fs → Inode → ℕ → ℕ
located s inode i =
    if ltb i direct_count
    then inode.direct i
    else if leb pointers (i - direct_count) || (inode.indirect == 0)
    then 0
    else word_at (s.blocks inode.indirect) (i - direct_count)

-- The device works for every block, the disk has its layout, and the blocks of the file are taken and
-- different ones, the table among them, and none of the metadata.
pub record IsFile (s : Fs) (inode : Inode) : Type 0 where
  pub works : (b : ℕ) → s.works b ≡ true
  pub disk : IsDisk s.super.geometry s.bitmap
  pub taken : (i : ℕ) → located s inode i ≢ 0 → s.bitmap (located s inode i) ≡ true
  pub different : (i j : ℕ) → located s inode i ≢ 0 → located s inode i ≡ located s inode j → i ≡ j
  pub table_taken : inode.indirect ≢ 0 → s.bitmap inode.indirect ≡ true
  pub apart : inode.indirect ≢ 0 → (i : ℕ) → located s inode i ≢ inode.indirect
  pub plain : (i : ℕ) → located s inode i ≢ 0 → is_meta s.super.geometry (located s inode i) ≡ false
  pub plain_table : inode.indirect ≢ 0 → is_meta s.super.geometry inode.indirect ≡ false
  pub words : ((i : ℕ) → located s inode i < 2 ^ 32) × (inode.indirect < 2 ^ 32)
  pub size_word : inode.size < 2 ^ 32

clash : true ≡ false → ⊥
clash e = cc

-- A taken block is not a free one.
pub taken_ne : (s : Fs) (x b : ℕ) → s.bitmap x ≡ true → s.bitmap b ≡ false → x ≢ b
taken_ne s x b t f e = clash (sym t ∙ (ap s.bitmap e ∙ f))

-- One more block `b`, which was free, at `index`.
grown-IsFile :
    (s t : Fs) (inode inode' : Inode) (index b : ℕ)
    → IsFile s inode
    → ((g : ℕ) → t.works g ≡ true)
    → t.super.geometry ≡ s.super.geometry
    → ((g : ℕ) → t.bitmap g ≡ (if g == b then true else s.bitmap g))
    → s.bitmap b ≡ false
    → b < 2 ^ 32
    → inode'.indirect ≡ inode.indirect
    → inode'.size ≡ inode.size
    → ((j : ℕ) → located t inode' j ≡ (if j == index then b else located s inode j))
    → IsFile t inode'
grown-IsFile s t inode inode' index b f w e bits free small same size at = record {
  works = w;
  disk =
      subst (λ x. IsDisk x t.bitmap) (sym e)
        (taken-IsDisk s.super.geometry s.bitmap t.bitmap f.disk (λ g h. bits g ∙ ground arith));
  taken = λ i n. bits (located t inode' i) ∙ ground (arith, at i, f.taken i);
  different = λ i j n q. ground (
    arith,
    at i,
    at j,
    f.different i j,
    f.taken i,
    f.taken j,
    taken_ne s (located s inode i) b,
    taken_ne s (located s inode j) b,
    free,
  );
  table_taken = λ n. bits inode'.indirect ∙ ground (arith, same, f.table_taken);
  apart = λ n i q.
      let k : inode.indirect ≢ 0 = subst (λ x. x ≢ 0) same n in
      let r : (if i == index then b else located s inode i) ≡ inode.indirect =
        sym (at i) ∙ (q ∙ same) in
      ground (arith, r, f.apart k i, taken_ne s inode.indirect b (f.table_taken k) free);
  plain = λ i n.
      ap (λ x. is_meta x (located t inode' i)) e
      ∙ ground (arith, at i, f.plain i, free-is_meta s.super.geometry s.bitmap b f.disk free);
  plain_table = λ n.
      ap (λ x. is_meta x inode'.indirect) e
      ∙ subst (λ x. is_meta s.super.geometry x ≡ false) (sym same)
          (f.plain_table (subst (λ x. x ≢ 0) same n));
  words = (λ i. ground (arith, at i, f.words.0 i), omega (arith, same, f.words));
  size_word = omega (arith, size, f.size_word);
}

-- What `block_for` does: the map gains at most the block at `index`, the file keeps its form, and
-- what its blocks hold stays; a block that it gains reads as zeros.
pub record Gains (s : Fs) (inode : Inode) (index : ℕ) (l : Located) : Type 0 where
  pub file : IsFile l.fs l.inode
  pub here : located l.fs l.inode index ≡ l.block
  pub others : (j : ℕ) → j ≢ index → located l.fs l.inode j ≡ located s inode j
  pub kept : located s inode index ≢ 0 → l.block ≡ located s inode index
  pub bytes :
      (j k : ℕ)
      → located s inode j ≢ 0
      → l.fs.blocks (located s inode j) k ≡ s.blocks (located s inode j) k
  pub zeros : (k : ℕ) → located s inode index ≡ 0 → l.block ≢ 0 → l.fs.blocks l.block k ≡ 0
  pub size : l.inode.size ≡ inode.size
  pub table : (g k : ℕ) → in_table s.super.geometry g ≡ true → l.fs.blocks g k ≡ s.blocks g k
  pub geometry : l.fs.super.geometry ≡ s.super.geometry

-- Where nothing is gained.
pub same-Gains :
    (s : Fs) (inode : Inode) (index : ℕ) (changed : Bool)
    → IsFile s inode
    → Gains s inode index
        (record { block = located s inode index; inode = inode; fs = s; changed = changed })
same-Gains s inode index changed f = record {
  file = f;
  here = refl;
  others = λ j n. refl;
  kept = λ n. refl;
  bytes = λ j k n. refl;
  zeros = λ k e n. absurd (n e);
  size = refl;
  table = λ g k m. refl;
  geometry = refl;
}

pub word_same : (b c : ℕ → ℕ) (i : ℕ) → ((k : ℕ) → b k ≡ c k) → word_at b i ≡ word_at c i
word_same b c i h = omega (arith, h (4 * i), h (4 * i + 1), h (4 * i + 2), h (4 * i + 3))

-- The table reads as before if its block does.
pub located_same :
    (s t : Fs) (inode inode' : Inode) (j : ℕ)
    → inode'.indirect ≡ inode.indirect
    → (inode.indirect ≢ 0 → (k : ℕ) → t.blocks inode.indirect k ≡ s.blocks inode.indirect k)
    → (if leb pointers (j - direct_count) || (inode'.indirect == 0)
        then 0
        else word_at (t.blocks inode'.indirect) (j - direct_count))
      ≡ (if leb pointers (j - direct_count) || (inode.indirect == 0)
          then 0
          else word_at (s.blocks inode.indirect) (j - direct_count))
located_same s t inode inode' j e h =
    subst
      (λ x.
        (if leb pointers (j - direct_count) || (x == 0)
          then 0
          else word_at (t.blocks x) (j - direct_count))
        ≡ (if leb pointers (j - direct_count) || (inode.indirect == 0)
            then 0
            else word_at (s.blocks inode.indirect) (j - direct_count)))
      (sym e)
      (elim (Bool-cases (inode.indirect == 0)) [
        | inl none_there ↦ ground arith
        | inr there ↦
            (let w : word_at (t.blocks inode.indirect) (j - direct_count)
                  ≡ word_at (s.blocks inode.indirect) (j - direct_count) =
                word_same _ _ (j - direct_count) (h (λ z. ground arith)) in
              ap (λ x. if leb pointers (j - direct_count) || (inode.indirect == 0) then 0 else x) w)
      ])

same-IsFile :
    (s : Fs) (inode inode' : Inode)
    → IsFile s inode
    → inode'.indirect ≡ inode.indirect
    → inode'.size ≡ inode.size
    → ((j : ℕ) → located s inode' j ≡ located s inode j)
    → IsFile s inode'
same-IsFile s inode inode' f e size at = record {
  works = f.works;
  disk = f.disk;
  taken = λ i n. ground (arith, at i, f.taken i);
  different = λ i j n q. ground (arith, at i, at j, f.different i j);
  table_taken = subst (λ x. x ≢ 0 → s.bitmap x ≡ true) (sym e) f.table_taken;
  apart = λ n i q.
      let k : inode.indirect ≢ 0 = subst (λ x. x ≢ 0) e n in f.apart k i (sym (at i) ∙ (q ∙ e));
  plain = λ i n. ground (arith, at i, f.plain i);
  plain_table = subst (λ x. x ≢ 0 → is_meta s.super.geometry x ≡ false) (sym e) f.plain_table;
  words = (λ i. ground (arith, at i, f.words.0 i), omega (arith, e, f.words));
  size_word = omega (arith, size, f.size_word);
}

-- Where the block at `index` was none, and is `b` now, which was free.
pub grown-Gains :
    (s t : Fs) (inode inode' : Inode) (index b : ℕ) (changed : Bool)
    → IsFile s inode
    → ((g : ℕ) → t.works g ≡ true)
    → t.super.geometry ≡ s.super.geometry
    → ((g : ℕ) → t.bitmap g ≡ (if g == b then true else s.bitmap g))
    → s.bitmap b ≡ false
    → b < 2 ^ 32
    → inode'.indirect ≡ inode.indirect
    → inode'.size ≡ inode.size
    → ((g k : ℕ) → in_table s.super.geometry g ≡ true → t.blocks g k ≡ s.blocks g k)
    → located s inode index ≡ 0
    → ((j : ℕ) → located t inode' j ≡ (if j == index then b else located s inode j))
    → ((j k : ℕ)
        → located s inode j ≢ 0
        → t.blocks (located s inode j) k ≡ s.blocks (located s inode j) k)
    → ((k : ℕ) → t.blocks b k ≡ 0)
    → Gains s inode index (record { block = b; inode = inode'; fs = t; changed = changed })
grown-Gains s t inode inode' index b changed f w e bits free small same size table nothing at bytes
      zeros =
    record {
      file = grown-IsFile s t inode inode' index b f w e bits free small same size at;
      here = ground (arith, at index);
      others = λ j n. ground (arith, at j);
      kept = λ n. absurd (n nothing);
      bytes = bytes;
      zeros = λ k e n. zeros k;
      size = size;
      table = table;
      geometry = e;
    }

direct_at :
    (s t : Fs) (inode : Inode) (index b j : ℕ)
    → index < 12
    → (inode.indirect ≢ 0 → (k : ℕ) → t.blocks inode.indirect k ≡ s.blocks inode.indirect k)
    → located t (with_direct inode index b) j ≡ (if j == index then b else located s inode j)
unfolding located
direct_at s t inode index b j h same = elim (Bool-cases (ltb j direct_count)) [
  | inl low ↦ ground arith
  | inr high ↦
      (let e = located_same s t inode (with_direct inode index b) j refl same in ground (arith, e))
]

pub direct-Gains :
    (s : Fs) (inode : Inode) (index : ℕ) (r : ℕ × Fs)
    → IsFile s inode
    → Takes s r
    → index < 12
    → located s inode index ≡ 0
    → Gains s inode index
        (record { block = r.0; inode = with_direct inode index r.0; fs = r.1; changed = true })
direct-Gains s inode index (b, t) f k h e = elim (Bool-cases (b == 0)) [
  | inl full ↦
      (let z : b ≡ 0 = ground arith in
        let (q, w) = k.full z in
        subst
          (λ x.
            Gains s inode index
              (record { block = b; inode = with_direct inode index b; fs = x; changed = true }))
          (sym q) (none_left z))
  | inr got ↦ gained (λ z. ground arith)
]
  where
    none_left :
        b ≡ 0
        → Gains s inode index
            (record { block = b; inode = with_direct inode index b; fs = s; changed = true })
    none_left z =
        let at : (j : ℕ) → located s (with_direct inode index b) j ≡ located s inode j =
          λ j. direct_at s s inode index b j h (λ n k. refl) ∙ ground (arith, e) in
        record {
          file = same-IsFile s inode (with_direct inode index b) f refl refl at;
          here = at index ∙ (e ∙ sym z);
          others = λ j n. at j;
          kept = λ n. absurd (n e);
          bytes = λ j k n. refl;
          zeros = λ k e n. absurd (n z);
          size = refl;
          table = λ g k m. refl;
          geometry = refl;
        }

    gained :
        b ≢ 0
        → Gains s inode index
            (record { block = b; inode = with_direct inode index b; fs = t; changed = true })
    gained n =
        let (w, q) = k.rest in
        grown-Gains s t inode (with_direct inode index b) index b true f
          (λ g. ap (λ (x : ℕ → Bool). x g) w ∙ f.works g) q (k.bits n) (k.was_free n)
          (omega (arith, (k.below n).0, f.disk.total)) refl refl k.table e
          (λ j. direct_at s t inode index b j h (λ m i.
            k.bytes n inode.indirect i (f.plain_table m)
            ∙ ground (arith, taken_ne s inode.indirect b (f.table_taken m) (k.was_free n))))
          (λ j i m.
            k.bytes n (located s inode j) i (f.plain j m)
            ∙ ground (arith, taken_ne s (located s inode j) b (f.taken j m) (k.was_free n)))
          (λ i.
            k.bytes n b i (free-is_meta s.super.geometry s.bitmap b f.disk (k.was_free n))
            ∙ ground arith)
