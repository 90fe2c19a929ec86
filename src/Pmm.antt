-- ===== src/Pmm.antt =====
-- kernel/mm/pmm.c: the physical memory manager, one bit for each 4 KiB frame.
-- The array of 32-bit words `bitmap` is held as the list of its bits, bit `b` of word `w` at index
-- `32 * w + b`. A set bit is a frame that is taken.
pub mod Bits
pub mod Inv
pub mod Alloc
pub mod Runs
pub mod Free
pub mod Init
mod Tests
use sifar_os.Common.{
  ℕ, zero, suc, ◌+◌, ◌-◌, ◌*◌, ◌/◌, ◌%◌, ◌^◌, Bool, true, false, ◌&&◌, ◌||◌, Option, none, some,
  List, [], ◌∷◌, if◌then◌else◌, ltb, leb, ◌==◌, min, max, not, get_or, set, replicate,
}

abbrev pub page_size : ℕ
page_size = 4096

-- USER_MIN, the end of the identity map.
abbrev pub max_managed_phys : ℕ
max_managed_phys = 0x40000000

abbrev pub inc32 : ℕ → ℕ
inc32 x = (x + 1) % 2 ^ 32

abbrev pub dec32 : ℕ → ℕ
dec32 x = (x + 2 ^ 32 - 1) % 2 ^ 32

pub record Pmm : Type 0 where
  pub bitmap : List Bool
  pub bitmap_words : ℕ
  pub total_frames : ℕ
  pub used_frames : ℕ
  pub total_bytes : ℕ

-- A read past the array counts as taken; `Inv` rules it out.
abbrev pub bit_test : Pmm → ℕ → Bool
bit_test p f = get_or p.bitmap f true

-- `bit_set(f); used_frames++` and `bit_clear(f); used_frames--`.
abbrev pub take_frame : Pmm → ℕ → Pmm
take_frame p f = record p { bitmap = set p.bitmap f true; used_frames = inc32 p.used_frames }

abbrev pub give_frame : Pmm → ℕ → Pmm
give_frame p f = record p { bitmap = set p.bitmap f false; used_frames = dec32 p.used_frames }

pub mark_used_one : Pmm → ℕ → Pmm
mark_used_one p f = if bit_test p f then p else take_frame p f

pub mark_free_one : Pmm → ℕ → Pmm
mark_free_one p f = if bit_test p f then give_frame p f else p

-- `for (f = first; f < last && f < total_frames; f++)`: the rounds left are counted down.
pub mark_used_loop : ℕ → ℕ → Pmm → Pmm
mark_used_loop zero f p = p
mark_used_loop (suc n) f p = mark_used_loop n (f + 1) (mark_used_one p f)

pub mark_free_loop : ℕ → ℕ → Pmm → Pmm
mark_free_loop zero f p = p
mark_free_loop (suc n) f p = mark_free_loop n (f + 1) (mark_free_one p f)

-- `if (end > MAX_MANAGED_PHYS) end = MAX_MANAGED_PHYS`
abbrev pub clamp_end : ℕ → ℕ
clamp_end end = min end max_managed_phys

pub mark_used : Pmm → ℕ → ℕ → Pmm
mark_used p base length =
    let end = clamp_end ((base + length) % 2 ^ 64) in
    let first = base / page_size in
    let last = (end + page_size - 1) / page_size in
    if leb end base then p else mark_used_loop (min last p.total_frames - first) first p

-- `end = base + length; if (end < base || end > MAX_MANAGED_PHYS) end = MAX_MANAGED_PHYS`
abbrev pub region_end : ℕ → ℕ → ℕ
region_end base length =
    let end = (base + length) % 2 ^ 64 in
    if ltb end base || ltb max_managed_phys end then max_managed_phys else end

pub mark_free : Pmm → ℕ → ℕ → Pmm
mark_free p base length =
    let end = region_end base length in
    let first = (base + page_size - 1) / page_size in
    let last = end / page_size in
    if leb max_managed_phys base || length == 0
    then p
    else mark_free_loop (min last p.total_frames - first) first p

-- `struct e820_entry`
pub record Region : Type 0 where
  pub base : ℕ
  pub length : ℕ
  pub type : ℕ

abbrev pub e820_usable : ℕ
e820_usable = 1

-- What pass 1 carries.
pub record Survey : Type 0 where
  pub highest : ℕ
  pub bytes : ℕ

pub survey_region : Survey → Region → Survey
survey_region s r =
    let end = region_end r.base r.length in
    if not (r.type == e820_usable) || r.length == 0 || leb max_managed_phys r.base || leb end r.base
    then s
    else record { highest = max s.highest end; bytes = (s.bytes + (end - r.base)) % 2 ^ 64 }

pub survey : Survey → List Region → Survey
survey s [] = s
survey s (r ∷ rs) = survey (survey_region s r) rs

-- `for (i ...) if (map[i].type == E820_USABLE) mark_free(...)`
pub release_regions : Pmm → List Region → Pmm
release_regions p [] = p
release_regions p (r ∷ rs) =
    release_regions (if r.type == e820_usable then mark_free p r.base r.length else p) rs

abbrev pub align_up : ℕ → ℕ → ℕ
align_up x a = (x + (a - 1)) / a * a

abbrev pub reserved_end : ℕ → ℕ → ℕ
reserved_end kernel_end words = align_up kernel_end 16 + words * 4

abbrev pub all_taken : Survey → Pmm
all_taken s =
    let frames = s.highest / page_size in
    let words = (frames + 31) / 32 in
    record {
      bitmap = replicate (words * 32) true;
      bitmap_words = words;
      total_frames = frames;
      used_frames = frames;
      total_bytes = s.bytes;
    }

-- `pmm_init`; `none` is a panic. `kernel_end` is the linker's address of the end of the image.
pub init : ℕ → List Region → Option Pmm
init kernel_end map =
    let s = survey (record { highest = 0; bytes = 0 }) map in
    let p = all_taken s in
    let end = reserved_end kernel_end p.bitmap_words in
    if p.total_frames == 0 || p.bitmap_words == 0
    then none
    else if leb max_managed_phys end
    then none
    else some (mark_used (release_regions p map) 0 (align_up end page_size))

-- The inner loop of `pmm_alloc_frame`: from bit `b` of word `w`, `n` bits left.
unfoldable pub scan_word : Pmm → ℕ → ℕ → ℕ → Option ℕ
scan_word p w zero b = none
scan_word p w (suc n) b =
    let frame = w * 32 + b in
    let rest = scan_word p w n (b + 1) in
    if leb p.total_frames frame then none else if bit_test p frame then rest else some frame

-- `bitmap[w] == 0xFFFFFFFF`, from bit `f` on.
unfoldable pub all_set : Pmm → ℕ → ℕ → Bool
all_set p zero f = true
all_set p (suc n) f = bit_test p f && all_set p n (f + 1)

-- The outer loop, `n` words left.
unfoldable pub scan_words : Pmm → ℕ → ℕ → Option ℕ
scan_words p zero w = none
scan_words p (suc n) w =
    let rest = scan_words p n (w + 1) in
    if all_set p 32 (w * 32)
    then rest
    else elim (scan_word p w 32 0) [ some f ↦ some f | none ↦ rest ]

-- `pmm_alloc_frame`: the address, and 0 when memory is out.
unfoldable pub alloc_frame : Pmm → ℕ × Pmm
alloc_frame p = elim (scan_words p p.bitmap_words 0) [
  | none ↦ (0, p)
  | some f ↦ (f * page_size % 2 ^ 32, take_frame p f)
]

-- The search of `pmm_alloc_frames`: `n` frames left, `run` free ones before `frame` from `start`.
pub find_run : Pmm → ℕ → ℕ → ℕ → ℕ → ℕ → Option ℕ
find_run p count zero frame run start = none
find_run p count (suc n) frame run start =
    let start' = if run == 0 then frame else start in
    let skip = find_run p count n (frame + 1) 0 start in
    let next = find_run p count n (frame + 1) (run + 1) start' in
    if bit_test p frame then skip else if run + 1 == count then some start' else next

-- `for (i = 0; i < count; i++) { bit_set(start + i); used_frames++; }`
pub take_run : ℕ → ℕ → Pmm → Pmm
take_run zero f p = p
take_run (suc n) f p = take_run n (f + 1) (take_frame p f)

pub alloc_frames : Pmm → ℕ → ℕ × Pmm
alloc_frames p count =
    if count == 0
    then (0, p)
    else if count == 1
    then alloc_frame p
    else if ltb p.total_frames count
    then (0, p)
    else elim (find_run p count p.total_frames 0 0 0) [
      | none ↦ (0, p)
      | some start ↦ (start * page_size % 2 ^ 32, take_run count start p)
    ]

pub free_frame : Pmm → ℕ → Pmm
free_frame p addr =
    let frame = addr / page_size in
    if addr % page_size == 0
    then (if leb p.total_frames frame
        then p
        else if bit_test p frame
        then give_frame p frame
        else p)
    else p

-- `for (i = 0; i < count; i++) pmm_free_frame(base + i * PAGE_SIZE)`
pub free_loop : ℕ → ℕ → ℕ → Pmm → Pmm
free_loop zero base i p = p
free_loop (suc n) base i p =
    free_loop n base (i + 1) (free_frame p ((base + i * page_size) % 2 ^ 32))

pub free_contiguous : Pmm → ℕ → ℕ → Pmm
free_contiguous p base count = if base % page_size == 0 then free_loop count base 0 p else p

pub free_frames : Pmm → ℕ
free_frames p = (p.total_frames + 2 ^ 32 - p.used_frames) % 2 ^ 32
