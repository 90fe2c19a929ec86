-- ===== src/Sfs/Layout.antt =====
-- Where the superblock, the bitmap and the table of inodes lie on the disk, and what taking a block
-- does to the bytes of the blocks.
use sifar_os.Common.{
  ℕ, ◌+◌, ◌*◌, ◌/◌, ◌^◌, ◌<◌, ◌≤◌, ◌≡◌, ◌≢◌, sym, ap, ◌∙◌, Bool, true, false, ◌&&◌, ◌||◌,
  if◌then◌else◌, leb, ltb, ◌==◌, arith,
}
use sifar_os.Sfs.Disk.{Geometry, Fs, bitmap_block, take_block}

-- A block of the table of inodes.
unfoldable pub in_table : Geometry → ℕ → Bool
in_table g b = leb g.inode_start b && ltb b (g.inode_start + (g.inode_count + 31) / 32)

-- A block of the superblock, of the bitmap or of the table.
unfoldable pub is_meta : Geometry → ℕ → Bool
is_meta g b =
    (b == 0) || ((leb g.bitmap_start b && ltb b (g.bitmap_start + g.bitmap_blocks)) || in_table g b)

-- The bitmap has a bit for each block, and lies between the superblock and the table; the blocks of all
-- three are taken.
pub record IsDisk (g : Geometry) (bitmap : ℕ → Bool) : Type 0 where
  pub total : g.total_blocks ≤ 2 ^ 32
  pub bits : g.total_blocks ≤ 32768 * g.bitmap_blocks
  pub first : 1 ≤ g.bitmap_start
  pub then_table : g.bitmap_start + g.bitmap_blocks ≤ g.inode_start
  pub meta_taken : (b : ℕ) → is_meta g b ≡ true → bitmap b ≡ true

pub super_taken : (g : Geometry) (bitmap : ℕ → Bool) → IsDisk g bitmap → bitmap 0 ≡ true
unfolding is_meta
super_taken g bitmap d = d.meta_taken 0 (ground arith)

pub table_is_meta : (g : Geometry) (b : ℕ) → in_table g b ≡ true → is_meta g b ≡ true
unfolding is_meta
table_is_meta g b h = ground arith

-- A block that is free is none of the metadata.
pub free-is_meta :
    (g : Geometry) (bitmap : ℕ → Bool) (b : ℕ)
    → IsDisk g bitmap
    → bitmap b ≡ false
    → is_meta g b ≡ false
free-is_meta g bitmap b d h = ground (arith, d.meta_taken b)

pub taken-IsDisk :
    (g : Geometry) (bitmap bitmap' : ℕ → Bool)
    → IsDisk g bitmap
    → ((b : ℕ) → bitmap b ≡ true → bitmap' b ≡ true)
    → IsDisk g bitmap'
taken-IsDisk g bitmap bitmap' d h = record {
  total = d.total;
  bits = d.bits;
  first = d.first;
  then_table = d.then_table;
  meta_taken = λ b m. h b (d.meta_taken b m);
}

-- The bits that are written lie in the bitmap's blocks.
pub outside_bitmap :
    (s : Fs) (f g : ℕ)
    → IsDisk s.super.geometry s.bitmap
    → f < s.super.geometry.total_blocks
    → is_meta s.super.geometry g ≡ false
    → (g ≢ 0) × (g ≢ bitmap_block s f)
unfolding is_meta
outside_bitmap s f g d h m =
    (λ e. clash (sym m ∙ ground arith), λ e. clash (sym m ∙ ground (arith, d.bits)))
  where
    clash : false ≡ true → ⊥
    clash e = cc

table_outside :
    (s : Fs) (f g : ℕ)
    → IsDisk s.super.geometry s.bitmap
    → f < s.super.geometry.total_blocks
    → in_table s.super.geometry g ≡ true
    → (g ≢ 0) × (g ≢ bitmap_block s f)
unfolding in_table
table_outside s f g d h m = (
  λ e. absurd (ground (arith, d.first, d.then_table)),
  λ e. absurd (ground (arith, d.bits, d.then_table)),
)

-- Taking a block clears it, and writes the bitmap and the superblock besides.
pub take_block-data :
    (s : Fs) (f g j : ℕ)
    → ((b : ℕ) → s.works b ≡ true)
    → IsDisk s.super.geometry s.bitmap
    → f < s.super.geometry.total_blocks
    → is_meta s.super.geometry g ≡ false
    → (take_block s f).blocks g j ≡ (if g == f then 0 else s.blocks g j)
take_block-data s f g j w d h m =
    let (a, b) = outside_bitmap s f g d h m in ground (arith, w f, w 0, w (bitmap_block s f), a, b)

pub take_block-table :
    (s : Fs) (f g j : ℕ)
    → ((b : ℕ) → s.works b ≡ true)
    → IsDisk s.super.geometry s.bitmap
    → f < s.super.geometry.total_blocks
    → s.bitmap f ≡ false
    → in_table s.super.geometry g ≡ true
    → (take_block s f).blocks g j ≡ s.blocks g j
take_block-table s f g j w d h free m =
    let (a, b) = table_outside s f g d h m in
    let t = d.meta_taken g (table_is_meta s.super.geometry g m) in
    let ne : g ≢ f = λ e. clash (sym free ∙ (ap s.bitmap (sym e) ∙ t)) in
    ground (arith, w f, w 0, w (bitmap_block s f), a, b, ne)
  where
    clash : false ≡ true → ⊥
    clash e = cc
