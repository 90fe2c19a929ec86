-- ===== src/Paging/Ranges.antt =====
-- `vmm_access_ok_in`, `vmm_alloc_range` and `vmm_free_range`.
use sifar_os.Common.{
  ℕ, zero, suc, ◌+◌, ◌-◌, ◌/◌, ◌^◌, Bool, true, false, ◌&&◌, ◌||◌, not, Option, none, some,
  if◌then◌else◌, ltb, leb, ◌==◌,
}
use sifar_os.Pmm.{Pmm, alloc_frame, free_frame}
use sifar_os.Paging.Tables.{
  Vm, page_size, user_min, user_max, is_present, is_write, is_user, frame_of, wipe, dir_index,
  table_index, map_in, unmap_in, translate_in, align_down, align_up,
}

-- The checks of `vmm_access_ok_in` on one page.
unfoldable pub page_ok : Vm → ℕ → ℕ → Bool → Bool
page_ok m pd page write =
    let pde = m.frames pd (dir_index page) in
    let pte = m.frames (frame_of pde) (table_index page) in
    (is_present pde && is_user pde)
    && ((is_present pte && is_user pte) && not (write && not (is_write pte)))

-- The loop, `n` pages left.
unfoldable pub pages_ok : Vm → ℕ → ℕ → ℕ → Bool → Bool
unfolding page_ok
pages_ok m pd zero page write = true
pages_ok m pd (suc n) page write =
    let rest = pages_ok m pd n (page + page_size) write in
    page_ok m pd page write && (not (ltb (2 ^ 32 - 1 - page_size) page) && rest)

-- The pages that a range of addresses touches.
abbrev pub page_count : ℕ → ℕ → ℕ
page_count first end = (end - first + (page_size - 1)) / page_size

-- `vmm_access_ok_in`
unfoldable pub access_ok_in : Vm → ℕ → ℕ → ℕ → Bool → Bool
unfolding pages_ok
access_ok_in m pd start size write =
    if size == 0
    then true
    else if ltb start user_min || leb user_max start
    then false
    else if ltb user_max (start + size)
    then false
    else pages_ok m pd (page_count (align_down start) (start + size)) (align_down start) write

-- One round of `vmm_free_range`.
unfoldable pub free_page : Vm → ℕ → ℕ → Vm
free_page m pd page =
    let phys = translate_in m pd page in
    let m' = unmap_in m pd page in
    if phys == 0 then m else record m' { pmm = free_frame m'.pmm (align_down phys) }

unfoldable pub free_pages : Vm → ℕ → ℕ → ℕ → Vm
unfolding free_page
free_pages m pd zero page = m
free_pages m pd (suc n) page = free_pages (free_page m pd page) pd n (page + page_size)

-- `end64 > UINT32_MAX || end64 <= start`, for a size that is not 0.
abbrev pub bad_range : ℕ → ℕ → Bool
bad_range start size = ltb (2 ^ 32 - 1) (start + size)

-- `vmm_free_range`
unfoldable pub free_range : Vm → ℕ → ℕ → ℕ → Vm
unfolding free_pages
free_range m pd start size =
    if size == 0 || bad_range start size
    then m
    else if ltb (align_up (start + size)) (align_down start)
    then m
    else free_pages m pd ((align_up (start + size) - align_down start) / page_size)
        (align_down start)

-- The rollback of `vmm_alloc_range`, from the first page that it allocated on.
abbrev pub roll_back : Vm → ℕ → Option ℕ → ℕ → Vm
roll_back m pd none page = m
roll_back m pd (some first) page = free_range m pd first (page - first)

-- The end of one round, after `vmm_map_in`.
abbrev pub after_map : ℕ → Option ℕ → ℕ → ℕ → Bool × Vm → Bool × Vm
after_map pd first page addr (true, m) = (true, m)
after_map pd first page addr (false, m) =
    (false, roll_back (record m { pmm = free_frame m.pmm addr }) pd first page)

-- A round for a page that is not mapped; `addr` is what `pmm_alloc_frame` gave.
abbrev pub fill_page : Vm → ℕ → ℕ → Option ℕ → ℕ → ℕ × Pmm → Bool × Vm
fill_page m pd flags first page (addr, pmm) =
    if addr == 0
    then (false, roll_back (record m { pmm = pmm }) pd first page)
    else after_map pd first page addr
        (map_in (record m { pmm = pmm; frames = wipe m.frames (frame_of addr) }) pd page addr flags)

-- `rollback_first`, `none` as long as nothing was allocated.
abbrev pub or_first : Option ℕ → ℕ → Option ℕ
or_first none page = some page
or_first (some first) page = some first

abbrev pub is_some : Option ℕ → Bool
is_some none = false
is_some (some first) = true

-- The loop of `vmm_alloc_range`, `n` pages left.
unfoldable pub alloc_pages : Vm → ℕ → ℕ → Option ℕ → ℕ → ℕ → Bool × Vm
alloc_pages m pd flags first zero page = (true, m)
alloc_pages m pd flags first (suc n) page =
    let filled = fill_page m pd flags first page (alloc_frame m.pmm) in
    let skip = alloc_pages m pd flags first n (page + page_size) in
    let more = alloc_pages filled.1 pd flags (or_first first page) n (page + page_size) in
    if not (translate_in m pd page == 0)
    then (if is_some first then (false, roll_back m pd first page) else skip)
    else if filled.0
    then more
    else filled

-- `vmm_alloc_range`; `false` is -1.
unfoldable pub alloc_range : Vm → ℕ → ℕ → ℕ → ℕ → Bool × Vm
unfolding alloc_pages
alloc_range m pd start size flags =
    if size == 0
    then (true, m)
    else if bad_range start size
    then (false, m)
    else if is_user flags && (ltb start user_min || ltb user_max (start + size))
    then (false, m)
    else if ltb (align_up (start + size)) (align_down start)
    then (false, m)
    else alloc_pages m pd flags none ((align_up (start + size) - align_down start) / page_size)
        (align_down start)
