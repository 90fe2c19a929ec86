-- ===== src/Paging/Tests.antt =====
-- Runs of the paging code, and the theorems at small machines.
use sifar_os.Common.{
  ℕ, ◌+◌, ◌<◌, ◌≤◌, ◌≡◌, ◌↔◌, refl, true, false, arith, ◌==◌, ◌&&◌, ◌||◌, not, ltb, if◌then◌else◌,
}
use sifar_os.Pmm.{alloc_frame, scan_words, scan_word, all_set}
use sifar_os.Paging.Tables.{Vm, map_in, table_for, translate_in, table_at, unmap_in}
use sifar_os.Paging.Ranges.{
  alloc_range, alloc_pages, free_range, free_pages, free_page, access_ok_in, pages_ok, page_ok,
}
use sifar_os.Paging.Spaces.{space_create, map_kernel}
use sifar_os.Paging.Frames.{Shape, IsSpace-Shape}
use sifar_os.Paging.Bare.{eight, bare, bare-IsSpace, based, based-IsSpace, based-NoFrameZero}
use sifar_os.Paging.Mapping.{Maps, map_in-Maps}
use sifar_os.Paging.Unmapping.{meets, free_range-translate_in}
use sifar_os.Paging.Allocating.{Allocates, alloc_range-Allocates}
use sifar_os.Paging.Access.{user_byte, WritableTables, access_ok_in-user_byte}
use sifar_os.Paging.Shared.{Shares, Starts, space_create-Starts, MapsBoth, map_kernel-MapsBoth}

map_in-Maps_example : Maps bare 1 0x40001000 0x3000 (map_in bare 1 0x40001000 0x3000 7)
map_in-Maps_example = map_in-Maps bare 1 0x40001000 0x3000 7 bare-IsSpace (omega arith)

alloc_range-Allocates_example :
    Allocates based 1 0x40000800 0x1000 (alloc_range based 1 0x40000800 0x1000 7)
alloc_range-Allocates_example =
    alloc_range-Allocates based 1 0x40000800 0x1000 7 based-IsSpace based-NoFrameZero (omega arith)

-- Two pages fit beside their table; six do not.
two_pages_fit : (alloc_range based 1 0x40000800 0x1000 7).0 ≡ true
unfolding alloc_range alloc_pages map_in table_for translate_in table_at alloc_frame scan_words
    scan_word all_set
two_pages_fit = refl

six_pages_do_not : (alloc_range bare 1 0x40000000 0x6000 7).0 ≡ false
unfolding alloc_range alloc_pages map_in table_for translate_in table_at alloc_frame scan_words
    scan_word all_set free_range free_pages free_page unmap_in
six_pages_do_not = refl

free_range-translate_in_example :
    translate_in (free_range bare 1 0x40000000 0x2000) 1 0x40001234 ≡ (
      if meets 0x40001234 0x40000000 0x2000
        && (ltb 0 0x2000 && not (translate_in bare 1 0x40001000 == 0))
      then 0
      else translate_in bare 1 0x40001234)
free_range-translate_in_example =
    free_range-translate_in bare 1 0x40000000 0x2000 0x40001234 (IsSpace-Shape bare-IsSpace)
      (omega arith) (omega arith)

-- A directory in frame 1 with one table, in frame 2, which gives the user the page at 0x40000000.
abbrev one_page : Vm
one_page = record {
  pmm = eight;
  frames = λ f i. if f == 1 && i == 256 then 0x2007 else if f == 2 && i == 0 then 0x3007 else 0;
  mapped_pages = 1;
}

one_page-WritableTables : WritableTables one_page 1
unfolding WritableTables
one_page-WritableTables i h p = ground arith

access_ok_in-user_byte_example :
    (access_ok_in one_page 1 0x40000FF0 16 true ≡ true)
    ↔ ((v : ℕ) → 0x40000FF0 ≤ v → v < 0x40000FF0 + 16 → user_byte one_page 1 v true ≡ true)
access_ok_in-user_byte_example =
    access_ok_in-user_byte one_page 1 0x40000FF0 16 true one_page-WritableTables

sixteen_bytes_are_there : access_ok_in one_page 1 0x40000FF0 16 true ≡ true
unfolding access_ok_in pages_ok page_ok
sixteen_bytes_are_there = refl

seventeen_bytes_are_not : access_ok_in one_page 1 0x40000FF0 17 true ≡ false
unfolding access_ok_in pages_ok page_ok
seventeen_bytes_are_not = refl

space_create-Starts_example : Starts bare 1 2 (space_create bare 1).1
unfolding space_create alloc_frame scan_words scan_word all_set
space_create-Starts_example = space_create-Starts bare 1 2 bare-IsSpace refl

-- The kernel's directory in frame 1 and a space in frame 3 share the table in frame 2.
abbrev shared : Vm
shared = record {
  pmm = eight;
  frames = λ f i. if i == 832 && (f == 1 || f == 3) then 0x2003 else 0;
  mapped_pages = 0;
}

kernel-Shape : Shape shared 1
kernel-Shape = record { away = λ i h p. ground arith; different = λ i j h k p q e. ground arith }

space-Shape : Shape shared 3
space-Shape = record { away = λ i h p. ground arith; different = λ i j h k p q e. ground arith }

shared-Shares : Shares shared 1 3
unfolding Shares
shared-Shares i h k = ground arith

map_kernel-MapsBoth_example :
    MapsBoth shared 1 3 0xD0000000 0x5000 (map_kernel shared 1 0xD0000000 0x5000 3)
map_kernel-MapsBoth_example =
    map_kernel-MapsBoth shared 1 3 0xD0000000 0x5000 3 shared-Shares kernel-Shape space-Shape
      (omega arith) refl refl
