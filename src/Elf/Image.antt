-- ===== src/Elf/Image.antt =====
-- The structures of include/kernel/elf.h, read from the bytes of an image, and the checks of
-- kernel/elf.c on the header.
use Prim.Native.Nat.{bit_and}
use sifar_os.Common.{
  ℕ, zero, suc, ◌+◌, ◌-◌, ◌*◌, ◌/◌, ◌%◌, ◌^◌, Bool, true, false, ◌&&◌, ◌||◌, not, List,
  if◌then◌else◌, leb, ltb, ◌==◌, get_or, length,
}

abbrev pub Bytes : Type 0
Bytes = List ℕ

abbrev pub page_size : ℕ
page_size = 4096

abbrev pub user_min : ℕ
user_min = 0x40000000

abbrev pub user_max : ℕ
user_max = 0xD0000000

abbrev pub elf_magic : ℕ
elf_magic = 0x464C457F

abbrev pub pt_load : ℕ
pt_load = 1

abbrev pub max_program_headers : ℕ
max_program_headers = 64

-- `sizeof(struct elf32_ehdr)` and `sizeof(struct elf32_phdr)`
abbrev pub ehdr_size : ℕ
ehdr_size = 52

abbrev pub phdr_size : ℕ
phdr_size = 32

-- Little endian fields. The checks keep every read that counts inside the image.
abbrev pub read8 : Bytes → ℕ → ℕ
read8 b i = get_or b i 0

unfoldable pub read16 : Bytes → ℕ → ℕ
read16 b i = read8 b i + read8 b (i + 1) * 2 ^ 8

unfoldable pub read32 : Bytes → ℕ → ℕ
read32 b i =
    read8 b i + read8 b (i + 1) * 2 ^ 8 + read8 b (i + 2) * 2 ^ 16 + read8 b (i + 3) * 2 ^ 24

-- The fields of `struct elf32_ehdr` that the loader reads.
pub record Ehdr : Type 0 where
  pub magic : ℕ
  pub class : ℕ
  pub encoding : ℕ
  pub version : ℕ
  pub type : ℕ
  pub machine : ℕ
  pub elf_version : ℕ
  pub entry : ℕ
  pub phoff : ℕ
  pub ehsize : ℕ
  pub phentsize : ℕ
  pub phnum : ℕ

unfoldable pub ehdr : Bytes → Ehdr
ehdr b = record {
  magic = read32 b 0;
  class = read8 b 4;
  encoding = read8 b 5;
  version = read8 b 6;
  type = read16 b 16;
  machine = read16 b 18;
  elf_version = read32 b 20;
  entry = read32 b 24;
  phoff = read32 b 28;
  ehsize = read16 b 40;
  phentsize = read16 b 42;
  phnum = read16 b 44;
}

-- `struct elf32_phdr`, without `paddr`.
pub record Phdr : Type 0 where
  pub type : ℕ
  pub offset : ℕ
  pub vaddr : ℕ
  pub filesz : ℕ
  pub memsz : ℕ
  pub flags : ℕ
  pub align : ℕ

unfoldable pub phdr : Bytes → ℕ → Phdr
phdr b i = record {
  type = read32 b i;
  offset = read32 b (i + 4);
  vaddr = read32 b (i + 8);
  filesz = read32 b (i + 16);
  memsz = read32 b (i + 20);
  flags = read32 b (i + 24);
  align = read32 b (i + 28);
}

-- `image + header->phoff + i * header->phentsize`
unfoldable pub segment : Bytes → ℕ → Phdr
segment b i = phdr b ((ehdr b).phoff + i * (ehdr b).phentsize)

unfoldable pub range_within : ℕ → ℕ → ℕ → Bool
range_within offset length total = leb offset total && leb length (total - offset)

unfoldable pub elf_is_valid : Bytes → Bool
elf_is_valid b =
    let h = ehdr b in
    not (ltb (length b) ehdr_size)
    && ((h.magic == elf_magic)
        && ((h.class == 1)
            && ((h.encoding == 1)
                && ((h.version == 1)
                    && ((h.type == 2)
                        && ((h.machine == 3)
                            && ((h.elf_version == 1)
                                && ((h.ehsize == ehdr_size)
                                    && ((h.phentsize == phdr_size)
                                        && (not (h.phnum == 0 || ltb max_program_headers h.phnum)
                                            && range_within h.phoff (h.phnum * phdr_size)
                                                (length b)))))))))))

-- `segment->type != PT_LOAD || segment->memsz == 0`, negated.
abbrev pub loads : Phdr → Bool
loads s = (s.type == pt_load) && not (s.memsz == 0)

-- `segment->flags & PF_X` and `segment->flags & PF_W`
abbrev pub is_exec : Phdr → Bool
is_exec s = s.flags % 2 == 1

abbrev pub is_writable : Phdr → Bool
is_writable s = s.flags / 2 % 2 == 1

abbrev pub align_down : ℕ → ℕ
align_down x = x / page_size * page_size

abbrev pub align_up : ℕ → ℕ
align_up x = (x + (page_size - 1)) % 2 ^ 32 / page_size * page_size

-- `segment->vaddr + segment->memsz`
abbrev pub segment_end : Phdr → ℕ
segment_end s = (s.vaddr + s.memsz) % 2 ^ 32

unfoldable pub pages_meet : Phdr → Phdr → Bool
pages_meet s o =
    ltb (align_down s.vaddr) (align_up (segment_end o))
    && ltb (align_down o.vaddr) (align_up (segment_end s))

-- The loop of `load_pages_overlap`: `n` headers left, from `j` on.
unfoldable pub overlap_from : Bytes → Phdr → ℕ → ℕ → Bool
overlap_from b s zero j = false
overlap_from b s (suc n) j =
    let rest = overlap_from b s n (j + 1) in
    if loads (segment b j) && pages_meet s (segment b j) then true else rest

unfoldable pub load_pages_overlap : Bytes → ℕ → Bool
unfolding overlap_from
load_pages_overlap b current = overlap_from b (segment b current) current 0

-- The conditions of `elf_load` under which a load segment makes it return -1, in their order.
unfoldable pub file_fits : ℕ → Phdr → Bool
file_fits size s = not (ltb s.memsz s.filesz) && range_within s.offset s.filesz size

unfoldable pub in_user_window : Phdr → Bool
in_user_window s =
    not (ltb s.vaddr user_min || (leb user_max s.vaddr || ltb (user_max - s.vaddr) s.memsz))
    && not (leb (segment_end s) s.vaddr || ltb user_max (segment_end s))

unfoldable pub is_aligned : Phdr → Bool
is_aligned s =
    not (not (s.align == 0) && not (bit_and s.align (s.align - 1) == 0))
    && not
        (ltb 1 s.align && not (bit_and ((s.vaddr + 2 ^ 32 - s.offset) % 2 ^ 32) (s.align - 1) == 0))

unfoldable pub acceptable : Bytes → ℕ → Bool
acceptable b i =
    let s = segment b i in
    file_fits (length b) s
    && (in_user_window s
        && (not (is_writable s && is_exec s) && (is_aligned s && not (load_pages_overlap b i))))
