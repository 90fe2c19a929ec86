-- ===== src/Paging/Tables.antt =====
-- Entries, tables, and the mapping of one page.
use sifar_os.Common.{
  ℕ, ◌+◌, ◌-◌, ◌*◌, ◌/◌, ◌%◌, ◌^◌, Bool, true, false, ◌&&◌, ◌||◌, not, Option, none, some,
  if◌then◌else◌, ltb, leb, ◌==◌,
}
use sifar_os.Pmm.{Pmm, alloc_frame}

abbrev pub page_size : ℕ
page_size = 4096

abbrev pub user_min : ℕ
user_min = 0x40000000

abbrev pub user_max : ℕ
user_max = 0xD0000000

-- The bits of an entry.
abbrev pub is_present : ℕ → Bool
is_present e = e % 2 == 1

abbrev pub is_write : ℕ → Bool
is_write e = e / 2 % 2 == 1

abbrev pub is_user : ℕ → Bool
is_user e = e / 4 % 2 == 1

-- `e | PTE_PRESENT` and `e | PTE_USER`
abbrev pub set_present : ℕ → ℕ
set_present e = e / 2 * 2 + 1

abbrev pub set_user : ℕ → ℕ
set_user e = if is_user e then e else e + 4

-- The frame that an entry points to.
abbrev pub frame_of : ℕ → ℕ
frame_of e = e / page_size

pub record Vm : Type 0 where
  pub pmm : Pmm
  pub frames : ℕ → ℕ → ℕ
  pub mapped_pages : ℕ

-- A store to a word of a frame, and `memset` of a frame.
abbrev pub poke : (ℕ → ℕ → ℕ) → ℕ → ℕ → ℕ → ℕ → ℕ → ℕ
poke mem f i w g j = if g == f && j == i then w else mem g j

abbrev pub wipe : (ℕ → ℕ → ℕ) → ℕ → ℕ → ℕ → ℕ
wipe mem f g j = if g == f then 0 else mem g j

abbrev pub store : Vm → ℕ → ℕ → ℕ → Vm
store m f i w = record m { frames = poke m.frames f i w }

-- `virt >> 22` and `(virt >> 12) & 0x3FF`
abbrev pub dir_index : ℕ → ℕ
dir_index virt = virt / 2 ^ 22

abbrev pub table_index : ℕ → ℕ
table_index virt = virt / 2 ^ 12 % 1024

abbrev pub is_kernel_pde : ℕ → Bool
is_kernel_pde i = ltb i 256 || leb 832 i

abbrev pub user_page : ℕ → Bool
user_page virt = leb user_min virt && ltb virt user_max

-- `table_for` where the entry is not present: a fresh table. `addr` is what `pmm_alloc_frame` gave.
abbrev pub fresh_table : Vm → ℕ → ℕ → Bool → ℕ × Pmm → Option ℕ × Vm
fresh_table m pd i user (addr, pmm) = if addr == 0 then (none, record m { pmm = pmm }) else (
  some (frame_of addr),
  record m {
    pmm = pmm;
    frames = poke (wipe m.frames (frame_of addr)) pd i (addr + 3 + (if user then 4 else 0));
  },
)

-- `table_for`: the frame of the table. `user` is whether `extra_flags` has PTE_USER.
unfoldable pub table_for : Vm → ℕ → ℕ → Bool → Bool → Option ℕ × Vm
table_for m pd virt create user =
    let i = dir_index virt in
    let entry = m.frames pd i in
    if is_present entry
    then (some (frame_of entry), if user then store m pd i (set_user entry) else m)
    else if create
    then fresh_table m pd i user (alloc_frame m.pmm)
    else (none, m)

-- The store of `vmm_map_in`: `phys | (flags & 0xFFF) | PTE_PRESENT`, where `phys` is page aligned.
abbrev pub write_entry : ℕ → ℕ → ℕ → Option ℕ × Vm → Bool × Vm
write_entry virt phys flags (none, m) = (false, m)
write_entry virt phys flags (some t, m) =
    let i = table_index virt in
    (
      true,
      record m {
        mapped_pages =
            if is_present (m.frames t i) then m.mapped_pages else (m.mapped_pages + 1) % 2 ^ 32;
        frames = poke m.frames t i (phys + set_present (flags % page_size));
      },
    )

-- `vmm_map_in`; `false` is -1.
unfoldable pub map_in : Vm → ℕ → ℕ → ℕ → ℕ → Bool × Vm
unfolding table_for
map_in m pd virt phys flags =
    if not (virt % page_size == 0) || not (phys % page_size == 0)
    then (false, m)
    else if is_user flags && not (user_page virt)
    then (false, m)
    else write_entry virt phys flags (table_for m pd virt true (is_user flags))

-- The table of `table_for` without `create` and flags, which changes nothing.
unfoldable pub table_at : Vm → ℕ → ℕ → Option ℕ
table_at m pd virt =
    let entry = m.frames pd (dir_index virt) in
    if is_present entry then some (frame_of entry) else none

abbrev pub align_down : ℕ → ℕ
align_down x = x / page_size * page_size

abbrev pub align_up : ℕ → ℕ
align_up x = (x + (page_size - 1)) % 2 ^ 32 / page_size * page_size

abbrev pub clear_entry : Vm → ℕ → Option ℕ → Vm
clear_entry m virt none = m
clear_entry m virt (some t) =
    if is_present (m.frames t (table_index virt))
    then record m {
      frames = poke m.frames t (table_index virt) 0;
      mapped_pages = m.mapped_pages - 1;
    }
    else m

-- `vmm_unmap_in`
unfoldable pub unmap_in : Vm → ℕ → ℕ → Vm
unfolding table_at
unmap_in m pd virt = clear_entry m (align_down virt) (table_at m pd (align_down virt))

abbrev pub look_up : Vm → ℕ → Option ℕ → ℕ
look_up m virt none = 0
look_up m virt (some t) =
    let entry = m.frames t (table_index virt) in
    if is_present entry then align_down entry + virt % page_size else 0

-- `vmm_translate_in`
unfoldable pub translate_in : Vm → ℕ → ℕ → ℕ
unfolding table_at
translate_in m pd virt = look_up m virt (table_at m pd virt)
