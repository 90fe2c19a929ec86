-- ===== src/Sfs/Blocks.antt =====
-- What `alloc_block` takes, and the words of a block.
use sifar_os.Common.{
  ℕ, zero, suc, ◌+◌, ◌*◌, ◌/◌, ◌%◌, ◌^◌, ◌<◌, ◌≤◌, ◌≡◌, ◌≢◌, inl, inr, refl, sym, ap, ◌∙◌, subst,
  Bool, true, false, Option, none, some, if◌then◌else◌, ◌==◌, arith, Bool-cases, if_elim,
}
use sifar_os.Sfs.Disk.{
  Fs, word_at, put_word, byte_of, take_block, scan_blocks, alloc_block, bitmap_block,
}
use sifar_os.Sfs.Layout.{is_meta, in_table, IsDisk, super_taken, take_block-data, take_block-table}

-- The first free block of `n` from `block` on, or none.
abbrev pub IsFirstFree : (ℕ → Bool) → ℕ → ℕ → Option ℕ → Type 0
IsFirstFree bitmap block n none = (g : ℕ) → block ≤ g → g < block + n → bitmap g ≡ true
IsFirstFree bitmap block n (some f) =
    (block ≤ f)
    × (f < block + n)
    × (bitmap f ≡ false)
    × ((g : ℕ) → block ≤ g → g < f → bitmap g ≡ true)

scan_blocks-IsFirstFree :
    (bitmap : ℕ → Bool) (n block : ℕ) → IsFirstFree bitmap block n (scan_blocks bitmap n block)
unfolding scan_blocks
scan_blocks-IsFirstFree bitmap zero block = λ g a b. absurd (omega arith)
scan_blocks-IsFirstFree bitmap (suc n) block =
    if_elim (IsFirstFree bitmap block (suc n)) (bitmap block) _ _
      (λ t.
        later (scan_blocks bitmap n (block + 1)) t (scan_blocks-IsFirstFree bitmap n (block + 1)))
      (λ f. (omega arith, omega arith, f, λ g a b. absurd (omega arith)))
  where
    at :
        bitmap block ≡ true
        → (g : ℕ) → block ≤ g
        → (block + 1 ≤ g → bitmap g ≡ true)
        → bitmap g ≡ true
    at t g a rest = elim (Bool-cases (block == g)) [
      | inl here ↦ (let e : block ≡ g = ground arith in subst (λ x. bitmap x ≡ true) e t)
      | inr other ↦ rest (ground arith)
    ]

    later :
        (r : Option ℕ)
        → bitmap block ≡ true
        → IsFirstFree bitmap (block + 1) n r
        → IsFirstFree bitmap block (suc n) r
    later none t h = λ g a b. at t g a (λ l. h g l (omega arith))
    later (some f) t (a, b, c, d) = (omega arith, omega arith, c, λ g k l. at t g k (λ m. d g m l))

-- What `alloc_block` does on a device that works, where the metadata is taken: it takes the first free
-- block, which then reads as zeros, or gives 0 and changes nothing where none is free. The bitmap and
-- the superblock are written; no other block changes, the table of inodes not either.
pub record Takes (s : Fs) (r : ℕ × Fs) : Type 0 where
  pub full : r.0 ≡ 0 → (r.1 ≡ s) × ((g : ℕ) → g < s.super.geometry.total_blocks → s.bitmap g ≡ true)
  pub was_free : r.0 ≢ 0 → s.bitmap r.0 ≡ false
  pub below :
      r.0 ≢ 0 → (r.0 < s.super.geometry.total_blocks) × ((g : ℕ) → g < r.0 → s.bitmap g ≡ true)
  pub bits : r.0 ≢ 0 → (g : ℕ) → r.1.bitmap g ≡ (if g == r.0 then true else s.bitmap g)
  pub bytes :
      r.0 ≢ 0
      → (g j : ℕ) → is_meta s.super.geometry g ≡ false
      → r.1.blocks g j ≡ (if g == r.0 then 0 else s.blocks g j)
  pub table : (g j : ℕ) → in_table s.super.geometry g ≡ true → r.1.blocks g j ≡ s.blocks g j
  pub rest : (r.1.works ≡ s.works) × (r.1.super.geometry ≡ s.super.geometry)

pub alloc_block-Takes :
    (s : Fs)
    → ((b : ℕ) → s.works b ≡ true)
    → IsDisk s.super.geometry s.bitmap
    → Takes s (alloc_block s)
unfolding alloc_block
alloc_block-Takes s w d =
    at (scan_blocks s.bitmap s.super.geometry.total_blocks 0)
      (scan_blocks-IsFirstFree s.bitmap s.super.geometry.total_blocks 0)
  where
    clash : true ≡ false → ⊥
    clash e = cc

    at :
        (r : Option ℕ)
        → IsFirstFree s.bitmap 0 s.super.geometry.total_blocks r
        → Takes s (elim r [ none ↦ (0, s) | some block ↦ (block, take_block s block) ])
    at none h = record {
      full = λ e. (refl, λ g l. h g (omega arith) (omega arith));
      was_free = λ n. absurd (n refl);
      below = λ n. absurd (n refl);
      bits = λ n. absurd (n refl);
      bytes = λ n. absurd (n refl);
      table = λ g j m. refl;
      rest = (refl, refl);
    }
    at (some f) (a, b, c, e') = record {
      full = λ e.
          absurd
            (clash (sym (super_taken s.super.geometry s.bitmap d) ∙ (ap s.bitmap (sym e) ∙ c)));
      was_free = λ n. c;
      below = λ n. (omega arith, λ g l. e' g (omega arith) l);
      bits = λ n g. ground (arith, w f, w 0, w (bitmap_block s f));
      bytes = λ n g j m. take_block-data s f g j w d (omega arith) m;
      table = λ g j m. take_block-table s f g j w d (omega arith) c m;
      rest = (
        ground (arith, w f, w 0, w (bitmap_block s f)),
        ground (arith, w f, w 0, w (bitmap_block s f)),
      );
    }

put_word_byte :
    (b : ℕ → ℕ) (i j w k p : ℕ)
    → k < 4
    → p ≡ 4 * j + k
    → put_word b i w p ≡ (if j == i then byte_of w k else b p)
put_word_byte b i j w k p h e =
    let q : p / 4 ≡ j = omega arith in
    let r : p % 4 ≡ k = omega arith in
    ap (λ x. if x == i then byte_of w (p % 4) else b p) q
    ∙ ap (λ x. if j == i then byte_of w x else b p) r

-- A word put together from bytes that are those of `w`, or others.
pub word_join :
    (w : ℕ) (c : Bool) (p q r t : ℕ) {x y z u : ℕ}
    → w < 2 ^ 32
    → x ≡ (if c then w % 2 ^ 8 else p)
    → y ≡ (if c then w / 2 ^ 8 % 2 ^ 8 else q)
    → z ≡ (if c then w / 2 ^ 16 % 2 ^ 8 else r)
    → u ≡ (if c then w / 2 ^ 24 % 2 ^ 8 else t)
    → x + 2 ^ 8 * y + 2 ^ 16 * z + 2 ^ 24 * u
      ≡ (if c then w else p + 2 ^ 8 * q + 2 ^ 16 * r + 2 ^ 24 * t)
word_join w true p q r t h d e f g = omega arith
word_join w false p q r t h d e f g = omega arith

-- A word that was put into a block is read back, and no other word changes.
pub word_at-put_word :
    (b : ℕ → ℕ) (i j w : ℕ)
    → w < 2 ^ 32
    → word_at (put_word b i w) j ≡ (if j == i then w else word_at b j)
word_at-put_word b i j w h =
    word_join w (j == i) (b (4 * j)) (b (4 * j + 1)) (b (4 * j + 2)) (b (4 * j + 3)) h
      (put_word_byte b i j w 0 (4 * j) (omega arith) (omega arith))
      (put_word_byte b i j w 1 (4 * j + 1) (omega arith) refl)
      (put_word_byte b i j w 2 (4 * j + 2) (omega arith) refl)
      (put_word_byte b i j w 3 (4 * j + 3) (omega arith) refl)
