-- ===== src/Sfs/Putting.antt =====
-- What writing an inode back leaves: the file of the inode, and every other inode.
use sifar_os.Common.{
  ℕ, ◌+◌, ◌-◌, ◌*◌, ◌/◌, ◌%◌, ◌^◌, ◌<◌, ◌≤◌, ◌≡◌, ◌≢◌, sym, ap, ◌∙◌, subst, Bool, true, false,
  if◌then◌else◌, ltb, ◌==◌, arith, Bool-cases, inl, inr,
}
use sifar_os.Sfs.Disk.{
  block_size, direct_count, word_at, Fs, Inode, inode_block, inode_slot, inode_at, put_inode_at,
  is_inode, stored_inode, write_block, inode_word,
}
use sifar_os.Sfs.Layout.{IsDisk, in_table, is_meta, table_is_meta}
use sifar_os.Sfs.Mapped.{located, IsFile, located_same}
use sifar_os.Sfs.Growth.{located_direct}
use sifar_os.Sfs.Content.{byte_at}
use sifar_os.Sfs.Records.{word_at-put_inode_at, word_at-put_inode_at_away, inode_at_same}

-- The file system after the inode was written back.
abbrev pub put_inode : Fs → ℕ → Inode → Fs
put_inode s number inode =
    write_block s (inode_block s number)
      (put_inode_at (s.blocks (inode_block s number)) (inode_slot number) inode)

pub inode_block-in_table :
    (s : Fs) (number : ℕ)
    → is_inode s number ≡ true
    → in_table s.super.geometry (inode_block s number) ≡ true
unfolding in_table
inode_block-in_table s number i = ground arith

clash : true ≡ false → ⊥
clash e = cc

written_here :
    (s : Fs) (b j : ℕ) (bytes : ℕ → ℕ)
    → s.works b ≡ true
    → (write_block s b bytes).blocks b j ≡ bytes j
written_here s b j bytes w = ground (arith, w)

-- The inode that is put has the map and the size that it is put with.
module _ (s : Fs) (number : ℕ) (inode : Inode) (f : IsFile s inode)
    (i : is_inode s number ≡ true) where
  t : Fs
  t = put_inode s number inode

  word :
      (k : ℕ)
      → k < 32
      → inode_word inode k < 2 ^ 32
      → word_at (t.blocks (inode_block s number)) (32 * inode_slot number + k) ≡ inode_word inode k
  unfolding t
  word k h l =
      ap (λ b. word_at b (32 * inode_slot number + k)) (λ x j. held j x)
      ∙ word_at-put_inode_at (s.blocks (inode_block s number)) (inode_slot number) k inode h l
    where
      held :
          (j : ℕ)
          → t.blocks (inode_block s number) j
            ≡ put_inode_at (s.blocks (inode_block s number)) (inode_slot number) inode j
      held j = written_here s (inode_block s number) j _ (f.works (inode_block s number))

  -- A block that is none of the metadata is as it was.
  kept : (g j : ℕ) → is_meta s.super.geometry g ≡ false → t.blocks g j ≡ s.blocks g j
  unfolding t
  kept g j m = ground (arith, f.works (inode_block s number), ne)
    where
      ne : g ≢ inode_block s number
      ne e = clash (
          sym (
            table_is_meta s.super.geometry g
              (ap (in_table s.super.geometry) e ∙ inode_block-in_table s number i))
          ∙ m)

  put-geometry : t.super.geometry ≡ s.super.geometry
  unfolding t
  put-geometry = ground (arith, f.works (inode_block s number))

  kept_blocks : (g : ℕ) → is_meta s.super.geometry g ≡ false → t.blocks g ≡ s.blocks g
  kept_blocks g m x j = kept g j m x

  now : Inode
  now = stored_inode t number

  -- It is read from the block that it was put into.
  now_at : now ≡ inode_at (t.blocks (inode_block s number)) (inode_slot number)
  unfolding now
  now_at =
      ap (λ g. inode_at (t.blocks (g.inode_start + (number - 1) / 32)) (inode_slot number))
        put-geometry

  pub put-size : (stored_inode (put_inode s number inode) number).size ≡ inode.size
  unfolding inode_at now t
  put-size = ap (λ (x : Inode). x.size) now_at ∙ word 1 (omega arith) f.size_word

  put-indirect : now.indirect ≡ inode.indirect
  unfolding inode_at
  put-indirect = ap (λ (x : Inode). x.indirect) now_at ∙ word 18 (omega arith) f.words.1

  put-direct : (j : ℕ) → j < 12 → now.direct j ≡ inode.direct j
  unfolding inode_at
  put-direct j h =
      ap (λ (x : Inode). x.direct j) now_at
      ∙ (ap
            (λ c.
              if c
              then word_at (t.blocks (inode_block s number)) (32 * inode_slot number + (6 + j))
              else 0)
            low
          ∙ (word (6 + j) (omega arith) (
                subst (λ x. x < 2 ^ 32) (sym its_word)
                  (subst (λ x. x < 2 ^ 32) (located_direct s inode j low) (f.words.0 j)))
              ∙ its_word))
    where
      low : ltb j direct_count ≡ true
      low = ground arith

      its_word : inode_word inode (6 + j) ≡ inode.direct j
      its_word =
          let e : 6 + j - 6 ≡ j = omega arith in
          let a : ltb (6 + j) 6 ≡ false = ground arith in
          let b : ltb (6 + j) 18 ≡ true = ground arith in rw (a, b, e)

  put-located : (j : ℕ) → located t now j ≡ located s inode j
  unfolding located
  put-located j = elim (Bool-cases (ltb j direct_count)) [
    | inl low ↦ ground (arith, put-direct j)
    | inr high ↦
        (let e =
            located_same s t inode now j put-indirect
              (λ n k. kept inode.indirect k (f.plain_table n)) in
          ground (arith, e))
  ]

  -- The file is the same.
  pub put-IsFile :
      IsFile (put_inode s number inode) (stored_inode (put_inode s number inode) number)
  unfolding t now
  put-IsFile =
      let geo : t.super.geometry ≡ s.super.geometry = put-geometry in
      let same_bitmap : t.bitmap ≡ s.bitmap = ground (arith, f.works (inode_block s number)) in
      let same_works : t.works ≡ s.works = ground (arith, f.works (inode_block s number)) in
      record {
        works = λ b. ap (λ (x : ℕ → Bool). x b) same_works ∙ f.works b;
        disk =
            subst (λ x. IsDisk x t.bitmap) (sym geo)
              (subst (λ x. IsDisk s.super.geometry x) (sym same_bitmap) f.disk);
        taken = λ j n.
            ap (λ (x : ℕ → Bool). x (located t now j)) same_bitmap
            ∙ ground (arith, put-located j, f.taken j);
        different = λ j k n e. ground (arith, put-located j, put-located k, f.different j k);
        table_taken = λ n.
            ap (λ (x : ℕ → Bool). x now.indirect) same_bitmap
            ∙ subst (λ x. s.bitmap x ≡ true) (sym put-indirect)
                (f.table_taken (subst (λ x. x ≢ 0) put-indirect n));
        apart = λ n j e.
            f.apart (subst (λ x. x ≢ 0) put-indirect n) j
              (sym (put-located j) ∙ (e ∙ put-indirect));
        plain = λ j n.
            ap (λ g. is_meta g (located t now j)) geo ∙ ground (arith, put-located j, f.plain j);
        plain_table = λ n.
            ap (λ g. is_meta g now.indirect) geo
            ∙ subst (λ x. is_meta s.super.geometry x ≡ false) (sym put-indirect)
                (f.plain_table (subst (λ x. x ≢ 0) put-indirect n));
        words = (
          λ j. ground (arith, put-located j, f.words.0 j),
          subst (λ x. x < 2 ^ 32) (sym put-indirect) f.words.1,
        );
        size_word = subst (λ x. x < 2 ^ 32) (sym put-size) f.size_word;
      }

  -- Its bytes are the same.
  pub put-byte_at :
      (p : ℕ)
      → byte_at (put_inode s number inode) (stored_inode (put_inode s number inode) number) p
        ≡ byte_at s inode p
  unfolding byte_at t now
  put-byte_at p =
      ap (λ b. if b == 0 then 0 else t.blocks b (p % block_size)) (put-located (p / block_size))
      ∙ elim (Bool-cases (located s inode (p / block_size) == 0)) [
        | inl empty ↦ ground arith
        | inr there ↦ ground (
          arith,
          kept (located s inode (p / block_size)) (p % block_size)
              (f.plain (p / block_size) (λ e. ground arith)),
        )
      ]

  pub put-located_now :
      (j : ℕ)
      → located (put_inode s number inode) (stored_inode (put_inode s number inode) number) j
        ≡ located s inode j
  unfolding t now
  put-located_now j = put-located j

  pub put-is_inode : is_inode (put_inode s number inode) number ≡ true
  unfolding t
  put-is_inode = ground (arith, f.works (inode_block s number))

-- Every other inode of the table is as it was.
pub put-others :
    (s : Fs) (number m : ℕ) (inode : Inode)
    → 1 ≤ number
    → 1 ≤ m
    → m ≢ number
    → ((b : ℕ) → s.works b ≡ true)
    → stored_inode (put_inode s number inode) m ≡ stored_inode s m
put-others s number m inode a b n w =
    ap (λ g. inode_at (t.blocks (g.inode_start + (m - 1) / 32)) (inode_slot m)) geo
    ∙ inode_at_same (t.blocks (inode_block s m)) (s.blocks (inode_block s m)) (inode_slot m)
        (λ k h. each k h)
  where
    t : Fs
    t = put_inode s number inode

    geo : t.super.geometry ≡ s.super.geometry
    geo = ground (arith, w (inode_block s number))

    holds :
        (g j : ℕ)
        → t.blocks g j ≡ (
            if g == inode_block s number
            then put_inode_at (s.blocks (inode_block s number)) (inode_slot number) inode j
            else s.blocks g j)
    holds g j = ground (arith, w (inode_block s number))

    each :
        (k : ℕ)
        → k < 32
        → word_at (t.blocks (inode_block s m)) (32 * inode_slot m + k)
          ≡ word_at (s.blocks (inode_block s m)) (32 * inode_slot m + k)
    each k h = elim (Bool-cases (inode_block s m == inode_block s number)) [
      | inl same ↦
          (let e : inode_block s m ≡ inode_block s number = ground arith in
            let ne : inode_slot m ≢ inode_slot number = λ q. n (omega (arith, e)) in
            ap (λ b. word_at b (32 * inode_slot m + k))
              (λ x j.
                (holds (inode_block s m) j
                    ∙ ap
                        (λ c.
                          if c
                          then put_inode_at (s.blocks (inode_block s number)) (inode_slot number)
                              inode j
                          else s.blocks (inode_block s m) j)
                        same)
                  x)
            ∙ (word_at-put_inode_at_away (s.blocks (inode_block s number)) (inode_slot number)
                  (inode_slot m) k inode h ne
                ∙ ap (λ g. word_at (s.blocks g) (32 * inode_slot m + k)) (sym e)))
      | inr away ↦
          ap (λ b. word_at b (32 * inode_slot m + k))
            (λ x j.
              (holds (inode_block s m) j
                  ∙ ap
                      (λ c.
                        if c
                        then put_inode_at (s.blocks (inode_block s number)) (inode_slot number)
                            inode j
                        else s.blocks (inode_block s m) j)
                      away)
                x)
    ]
