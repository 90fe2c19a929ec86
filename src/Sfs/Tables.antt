-- ===== src/Sfs/Tables.antt =====
-- `block_for`: the entries of the table, and all its branches.
use sifar_os.Common.{
  ℕ, ◌+◌, ◌-◌, ◌^◌, ◌<◌, ◌≡◌, ◌≢◌, refl, sym, ap, ◌∙◌, subst, Bool, true, false, ◌||◌,
  if◌then◌else◌, leb, ltb, ◌==◌, arith, Bool-cases, inl, inr,
}
use sifar_os.Sfs.Disk.{Fs, Inode, word_at, put_word, write_block}
use sifar_os.Sfs.Files.{Located}
use sifar_os.Sfs.Mapped.{located, IsFile, Gains, taken_ne, word_same, same-Gains, grown-Gains}
use sifar_os.Sfs.Layout.{is_meta, in_table, IsDisk, taken-IsDisk, free-is_meta, table_is_meta}
use sifar_os.Sfs.Blocks.{Takes, word_at-put_word}

pub write_block_works :
    (s : Fs) (block : ℕ) (bytes : ℕ → ℕ)
    → s.works block ≡ true
    → write_block s block bytes
      ≡ record s { blocks = λ b j. if b == block then bytes j else s.blocks b j }
write_block_works s block bytes w = ground arith

-- The file system after the table got its new entry.
abbrev entered : Fs → Fs → ℕ → ℕ → ℕ → Fs
entered s t table idx b = record t {
  blocks = λ g j. if g == table then put_word (s.blocks table) idx b j else t.blocks g j;
}

-- `d` is the direct entry, `a` and `c` the entry of the table, after and before.
entered_entry :
    (d table idx b a c j : ℕ)
    → table ≢ 0
    → idx < 1024
    → a ≡ (if j - 12 == idx then b else c)
    → (if ltb j 12 then d else if leb 1024 (j - 12) || (table == 0) then 0 else a) ≡ (
        if j == idx + 12
        then b
        else if ltb j 12
        then d
        else if leb 1024 (j - 12) || (table == 0)
        then 0
        else c)
entered_entry d table idx b a c j n h e = ground arith

entered_at :
    (s t : Fs) (inode : Inode) (idx b j : ℕ)
    → inode.indirect ≢ 0
    → idx < 1024
    → b < 2 ^ 32
    → located (entered s t inode.indirect idx b) inode j
      ≡ (if j == idx + 12 then b else located s inode j)
unfolding located
entered_at s t inode idx b j n h k = entered_entry (inode.direct j) inode.indirect idx b _ _ j n h (
    word_same ((entered s t inode.indirect idx b).blocks inode.indirect)
      (put_word (s.blocks inode.indirect) idx b) (j - 12) (λ i. ground arith)
    ∙ word_at-put_word (s.blocks inode.indirect) idx (j - 12) b k)

-- A block of the table of inodes is not the file's table.
meta_ne :
    (s : Fs) (inode : Inode)
    → inode.indirect ≢ 0
    → IsFile s inode
    → (g : ℕ) → in_table s.super.geometry g ≡ true
    → g ≢ inode.indirect
meta_ne s inode n f g l e = clash (
    sym (f.plain_table n)
    ∙ (ap (is_meta s.super.geometry) (sym e) ∙ table_is_meta s.super.geometry g l))
  where
    clash : false ≡ true → ⊥
    clash e = cc

entry-Gains :
    (s : Fs) (inode : Inode) (idx : ℕ) (r : ℕ × Fs) (changed : Bool)
    → IsFile s inode
    → Takes s r
    → inode.indirect ≢ 0
    → idx < 1024
    → located s inode (idx + 12) ≡ 0
    → r.0 ≢ 0
    → Gains s inode (idx + 12) (record {
      block = r.0;
      inode = inode;
      fs = entered s r.1 inode.indirect idx r.0;
      changed = changed;
    })
entry-Gains s inode idx (b, t) changed f k n h e m =
    let (w, q) = k.rest in
    let ne : inode.indirect ≢ b = taken_ne s inode.indirect b (f.table_taken n) (k.was_free m) in
    grown-Gains s (entered s t inode.indirect idx b) inode inode (idx + 12) b changed f
      (λ g. ap (λ (x : ℕ → Bool). x g) w ∙ f.works g) q (k.bits m) (k.was_free m)
      (omega (arith, (k.below m).0, f.disk.total)) refl refl
      (λ g i l. ground (arith, k.table g i l, meta_ne s inode n f g l)) e
      (λ j. entered_at s t inode idx b j n h (omega (arith, (k.below m).0, f.disk.total)))
      (λ j i l. ground (
        arith,
        f.apart n j,
        k.bytes m (located s inode j) i (f.plain j l),
        taken_ne s (located s inode j) b (f.taken j l) (k.was_free m),
      ))
      (λ i.
        ground (
          arith,
          ne,
          k.bytes m b i (free-is_meta s.super.geometry s.bitmap b f.disk (k.was_free m)),
        ))

-- A table that was allocated just now.
module _ (s : Fs) (inode : Inode) (b : ℕ) (t : Fs) (f : IsFile s inode) (k : Takes s (b, t))
    (z : inode.indirect ≡ 0) (m : b ≢ 0) where
  abbrev pub with_table : Inode
  with_table = record inode { indirect = b }

  new_plain : is_meta s.super.geometry b ≡ false
  new_plain = free-is_meta s.super.geometry s.bitmap b f.disk (k.was_free m)

  new_table_at : (j : ℕ) → located t with_table j ≡ located s inode j
  unfolding located
  new_table_at j =
      let w : word_at (t.blocks b) (j - 12) ≡ word_at (λ i. 0) (j - 12) =
        word_same (t.blocks b) (λ i. 0) (j - 12) (λ i. k.bytes m b i new_plain ∙ ground arith) in
      ap (λ x. if ltb j 12 then inode.direct j else if leb 1024 (j - 12) || (b == 0) then 0 else x)
        w
      ∙ ground arith

  pub new_table-IsFile : IsFile t with_table
  new_table-IsFile =
      let (w, q) = k.rest in
      record {
        works = λ g. ap (λ (x : ℕ → Bool). x g) w ∙ f.works g;
        disk =
            subst (λ x. IsDisk x t.bitmap) (sym q)
              (taken-IsDisk s.super.geometry s.bitmap t.bitmap f.disk
                (λ g h. k.bits m g ∙ ground arith));
        taken =
            λ i n. k.bits m (located t with_table i) ∙ ground (arith, new_table_at i, f.taken i);
        different = λ i j n e. ground (arith, new_table_at i, new_table_at j, f.different i j);
        table_taken = λ n. k.bits m b ∙ ground arith;
        apart = λ n i e.
            let e' : located s inode i ≡ b = sym (new_table_at i) ∙ e in
            taken_ne s (located s inode i) b (f.taken i (subst (λ x. x ≢ 0) (sym e') m))
              (k.was_free m) e';
        plain = λ i n.
            ap (λ x. is_meta x (located t with_table i)) q
            ∙ ground (arith, new_table_at i, f.plain i);
        plain_table = λ n. ap (λ x. is_meta x b) q ∙ new_plain;
        words = (
          λ i. ground (arith, new_table_at i, f.words.0 i),
          omega (arith, (k.below m).0, f.disk.total),
        );
        size_word = f.size_word;
      }

  -- What the entry in the new table does is what both steps do.
  pub new_table-Gains :
      (index : ℕ) (l : Located) → Gains t with_table index l → Gains s inode index l
  new_table-Gains index l g =
      let (w, q) = k.rest in
      record {
        file = g.file;
        here = g.here;
        others = λ j n. g.others j n ∙ new_table_at j;
        kept = λ n. g.kept (subst (λ x. x ≢ 0) (sym (new_table_at index)) n) ∙ new_table_at index;
        bytes = λ j i n. old j i n;
        zeros = λ i e n. g.zeros i (new_table_at index ∙ e) n;
        size = g.size;
        table = λ h i l. g.table h i (ap (λ x. in_table x h) q ∙ l) ∙ k.table h i l;
        geometry = g.geometry ∙ q;
      }
    where
      old :
          (j i : ℕ)
          → located s inode j ≢ 0
          → l.fs.blocks (located s inode j) i ≡ s.blocks (located s inode j) i
      old j i n =
          subst (λ x. l.fs.blocks x i ≡ t.blocks x i) (new_table_at j)
            (g.bytes j i (subst (λ x. x ≢ 0) (sym (new_table_at j)) n))
          ∙ (k.bytes m (located s inode j) i (f.plain j n)
              ∙ ground (arith, taken_ne s (located s inode j) b (f.taken j n) (k.was_free m)))

-- `b` is where `alloc_block` put the entry.
abbrev pub stored : Fs → Inode → ℕ → Bool → ℕ × Fs → Located
stored s inode idx changed (b, t) = record {
  block = b;
  inode = inode;
  fs =
      if b == 0 then t else write_block t inode.indirect (put_word (s.blocks inode.indirect) idx b);
  changed = changed;
}

pub nothing-Gains :
    (s t : Fs) (inode : Inode) (index b : ℕ) (changed : Bool)
    → IsFile s inode
    → t ≡ s
    → b ≡ located s inode index
    → Gains s inode index (record { block = b; inode = inode; fs = t; changed = changed })
nothing-Gains s t inode index b changed f e g =
    subst
      (λ x. Gains s inode index (record { block = b; inode = inode; fs = x; changed = changed }))
      (sym e)
      (subst
        (λ x. Gains s inode index (record { block = x; inode = inode; fs = s; changed = changed }))
        (sym g) (same-Gains s inode index changed f))

pub stored-Gains :
    (s : Fs) (inode : Inode) (idx : ℕ) (changed : Bool) (r : ℕ × Fs)
    → IsFile s inode
    → Takes s r
    → inode.indirect ≢ 0
    → idx < 1024
    → located s inode (idx + 12) ≡ 0
    → Gains s inode (idx + 12) (stored s inode idx changed r)
stored-Gains s inode idx changed (b, t) f k n h e = elim (Bool-cases (b == 0)) [
  | inl full ↦
      (let z : b ≡ 0 = ground arith in
        let (q, w) = k.full z in
        nothing-Gains s _ inode (idx + 12) b changed f
          (ap
              (λ c.
                if c
                then t
                else write_block t inode.indirect (put_word (s.blocks inode.indirect) idx b))
              full
            ∙ q)
          (z ∙ sym e))
  | inr got ↦
      (let m : b ≢ 0 = λ z. ground arith in
        let (w, q) = k.rest in
        let same : (stored s inode idx changed (b, t)).fs ≡ entered s t inode.indirect idx b =
          ap
            (λ c.
              if c
              then t
              else write_block t inode.indirect (put_word (s.blocks inode.indirect) idx b))
            got
          ∙ write_block_works t inode.indirect _
              (ap (λ (x : ℕ → Bool). x inode.indirect) w ∙ f.works inode.indirect) in
        subst
          (λ x.
            Gains s inode (idx + 12)
              (record { block = b; inode = inode; fs = x; changed = changed }))
          (sym same) (entry-Gains s inode idx (b, t) changed f k n h e m))
]
