-- ===== src/Paging/Spaces.antt =====
-- Address spaces: their making and end, the kernel's mappings, and the start of paging.
use sifar_os.Common.{
  ℕ, zero, suc, ◌+◌, ◌-◌, ◌*◌, ◌/◌, ◌%◌, ◌^◌, Bool, true, false, ◌&&◌, not, Option, none, some,
  if◌then◌else◌, ltb, ◌==◌, min,
}
use sifar_os.Pmm.{Pmm, alloc_frame, free_frame}
use sifar_os.Paging.Tables.{
  Vm, page_size, user_min, is_present, frame_of, wipe, store, table_for, map_in, unmap_in,
  translate_in, is_kernel_pde, align_down,
}

-- The loop of `vmm_space_create` over the entries: kernel entries are copied, the rest stay 0.
abbrev pub shared_dir : (ℕ → ℕ → ℕ) → ℕ → ℕ → ℕ → ℕ → ℕ
shared_dir mem kernel pd f i =
    if f == pd && (ltb i 1024 && is_kernel_pde i) then mem kernel i else wipe mem pd f i

abbrev pub new_space : Vm → ℕ → ℕ × Pmm → Option ℕ × Vm
new_space m kernel (addr, pmm) = if addr == 0 then (none, record m { pmm = pmm }) else (
  some (frame_of addr),
  record m { pmm = pmm; frames = shared_dir m.frames kernel (frame_of addr) },
)

-- `vmm_space_create`: the frame of the directory; `none` is -1.
unfoldable pub space_create : Vm → ℕ → Option ℕ × Vm
space_create m kernel = new_space m kernel (alloc_frame m.pmm)

-- `vmm_space_destroy`, the pages of one table: `n` entries left, from `j` on.
unfoldable pub drop_pages : Vm → ℕ → ℕ → ℕ → Vm
drop_pages m t zero j = m
drop_pages m t (suc n) j =
    let entry = m.frames t j in
    let dropped = record m {
      pmm = free_frame m.pmm (align_down entry);
      mapped_pages = m.mapped_pages - 1;
    } in
    drop_pages (if is_present entry then dropped else m) t n (j + 1)

abbrev pub drop_table : Vm → ℕ → ℕ → Vm
drop_table m pd i =
    let entry = m.frames pd i in
    let m' = drop_pages m (frame_of entry) 1024 0 in
    store (record m' { pmm = free_frame m'.pmm (align_down entry) }) pd i 0

-- Its loop over the directory, `n` entries left.
unfoldable pub drop_tables : Vm → ℕ → ℕ → ℕ → Vm
unfolding drop_pages
drop_tables m pd zero i = m
drop_tables m pd (suc n) i =
    drop_tables (if is_present (m.frames pd i) then drop_table m pd i else m) pd n (i + 1)

-- `vmm_space_destroy`
unfoldable pub space_destroy : Vm → ℕ → ℕ → Vm
unfolding drop_tables
space_destroy m kernel pd =
    if pd == kernel
    then m
    else (let m' = drop_tables m pd 576 256 in
        record m' { pmm = free_frame m'.pmm (pd * page_size % 2 ^ 32) })

-- `flags & ~PTE_USER`
abbrev pub kernel_flags : ℕ → ℕ
kernel_flags flags = if flags / 4 % 2 == 1 then flags - 4 else flags

-- `vmm_map`, `vmm_unmap` and `vmm_translate`
unfoldable pub map_kernel : Vm → ℕ → ℕ → ℕ → ℕ → Bool × Vm
map_kernel m kernel virt phys flags = map_in m kernel virt phys (kernel_flags flags)

unfoldable pub unmap_kernel : Vm → ℕ → ℕ → Vm
unmap_kernel m kernel virt = unmap_in m kernel virt

unfoldable pub is_mapped : Vm → ℕ → ℕ → Bool
is_mapped m current virt = not (translate_in m current virt == 0)

-- `reserve_tables`, `n` directory entries left; `none` is its panic.
unfoldable pub reserve_tables : Vm → ℕ → ℕ → ℕ → Option Vm
reserve_tables m kernel zero addr = some m
reserve_tables m kernel (suc n) addr = elim (table_for m kernel addr true false).0 [
  | none ↦ none
  | some t ↦ reserve_tables (table_for m kernel addr true false).1 kernel n (addr + 2 ^ 22)
]

-- The identity map of `paging_init`, `n` pages left; `none` is its panic.
unfoldable pub identity_map : Vm → ℕ → ℕ → ℕ → Option Vm
identity_map m kernel zero addr = some m
identity_map m kernel (suc n) addr = elim (map_in m kernel addr addr 3).0 [
  | false ↦ none
  | true ↦ identity_map (map_in m kernel addr addr 3).1 kernel n (addr + page_size)
]

abbrev pub reserve_windows : ℕ → Option Vm → Option Vm
reserve_windows kernel none = none
reserve_windows kernel (some m) = elim (reserve_tables m kernel 16 0xD0000000) [
  | none ↦ none
  | some m' ↦ reserve_tables m' kernel 16 0xE0000000
]

abbrev pub init_from : Vm → ℕ × Pmm → Option (ℕ × Vm)
init_from m (addr, pmm) =
    if addr == 0
    then none
    else (let kernel = frame_of addr in
        let pages = min m.pmm.total_frames (user_min / page_size) in
        elim (reserve_windows kernel
          (identity_map (record m { pmm = pmm; frames = wipe m.frames kernel }) kernel pages 0)) [
            | none ↦ none
            | some m' ↦ some (kernel, m')
          ])

-- `paging_init`: the kernel's directory; `none` is a panic.
unfoldable pub paging_init : Vm → Option (ℕ × Vm)
unfolding identity_map reserve_tables
paging_init m = init_from m (alloc_frame m.pmm)
