-- ===== src/Pmm/Inv.antt =====
-- The invariant of the frame allocator: `used_frames` counts the taken frames.
use sifar_os.Common.{ℕ, ◌+◌, ◌*◌, ◌/◌, ◌^◌, ◌<◌, ◌≤◌, ◌≡◌, true, false, arith, length, length-set}
use sifar_os.Pmm.{
  Pmm, page_size, bit_test, take_frame, give_frame, mark_used_one, mark_free_one, free_frame,
}
use sifar_os.Pmm.Bits.{count_set, count_set-le, count_set-set-true, count_set-set-false}

-- No more than the 2 ^ 18 frames below 1 GiB are managed.
pub record IsValid (p : Pmm) : Type 0 where
  pub used : p.used_frames ≡ count_set p.total_frames p.bitmap
  pub words : p.bitmap_words ≡ (p.total_frames + 31) / 32
  pub size : length p.bitmap ≡ 32 * p.bitmap_words
  pub small : p.total_frames ≤ 2 ^ 18

pub take_frame-IsValid :
    (p : Pmm) (f : ℕ)
    → f < p.total_frames
    → bit_test p f ≡ false
    → IsValid p
    → IsValid (take_frame p f)
take_frame-IsValid p f h e v = ground (
  arith,
  length-set {0} p.bitmap f true,
  count_set-le p.total_frames p.bitmap,
  count_set-set-true p.total_frames f p.bitmap h,
)

pub give_frame-IsValid :
    (p : Pmm) (f : ℕ)
    → f < p.total_frames
    → bit_test p f ≡ true
    → IsValid p
    → IsValid (give_frame p f)
give_frame-IsValid p f h e v = ground (
  arith,
  length-set {0} p.bitmap f false,
  count_set-le p.total_frames p.bitmap,
  count_set-set-false p.total_frames f p.bitmap h,
)

pub free_frame-IsValid : (p : Pmm) (addr : ℕ) → IsValid p → IsValid (free_frame p addr)
unfolding free_frame
free_frame-IsValid p addr v = ground (arith, give_frame-IsValid p (addr / page_size))

pub mark_used_one-IsValid :
    (p : Pmm) (f : ℕ) → f < p.total_frames → IsValid p → IsValid (mark_used_one p f)
unfolding mark_used_one
mark_used_one-IsValid p f h v = ground (arith, take_frame-IsValid p f h)

pub mark_free_one-IsValid :
    (p : Pmm) (f : ℕ) → f < p.total_frames → IsValid p → IsValid (mark_free_one p f)
unfolding mark_free_one
mark_free_one-IsValid p f h v = ground (arith, give_frame-IsValid p f h)
