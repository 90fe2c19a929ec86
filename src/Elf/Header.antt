-- ===== src/Elf/Header.antt =====
-- What `elf_is_valid` accepts.
use sifar_os.Common.{ℕ, ◌+◌, ◌-◌, ◌*◌, ◌<◌, ◌≤◌, ◌≡◌, ◌↔◌, true, arith, length, subst}
use sifar_os.Elf.Image.{Bytes, ehdr, elf_is_valid, range_within}

-- An image that can be loaded, in the terms of the ELF specification: a 32-bit little endian
-- executable for the 80386, whose header has its size, and which has 1 to 64 program headers of 32
-- bytes, every one of them inside the image, as is the ELF header.
pub record IsExecutable (b : Bytes) : Type 0 where
  pub header_inside : 52 ≤ length b
  pub magic : (ehdr b).magic ≡ 0x464C457F
  pub class32 : (ehdr b).class ≡ 1
  pub little_endian : (ehdr b).encoding ≡ 1
  pub versions : ((ehdr b).version ≡ 1) × ((ehdr b).elf_version ≡ 1)
  pub executable : (ehdr b).type ≡ 2
  pub intel : (ehdr b).machine ≡ 3
  pub header_size : (ehdr b).ehsize ≡ 52
  pub entry_size : (ehdr b).phentsize ≡ 32
  pub some_entry : 1 ≤ (ehdr b).phnum
  pub few_entries : (ehdr b).phnum ≤ 64
  pub entries_inside :
      (i : ℕ) → i < (ehdr b).phnum → (ehdr b).phoff + i * (ehdr b).phentsize + 32 ≤ length b

accepted-IsExecutable : (b : Bytes) → elf_is_valid b ≡ true → IsExecutable b
unfolding elf_is_valid range_within
accepted-IsExecutable b h =
    let size : (ehdr b).phentsize ≡ 32 = ground arith in
    let bound : (ehdr b).phoff + (ehdr b).phnum * 32 ≤ length b = ground arith in
    record {
      header_inside = ground arith;
      magic = ground arith;
      class32 = ground arith;
      little_endian = ground arith;
      versions = (ground arith, ground arith);
      executable = ground arith;
      intel = ground arith;
      header_size = ground arith;
      entry_size = size;
      some_entry = ground arith;
      few_entries = ground arith;
      entries_inside = λ i k. rw size (omega arith);
    }

IsExecutable-accepted : (b : Bytes) → IsExecutable b → elf_is_valid b ≡ true
unfolding elf_is_valid range_within
IsExecutable-accepted b v =
    let last : (ehdr b).phoff + ((ehdr b).phnum - 1) * 32 + 32 ≤ length b =
      subst (λ x. (ehdr b).phoff + ((ehdr b).phnum - 1) * x + 32 ≤ length b) v.entry_size
        (v.entries_inside ((ehdr b).phnum - 1) (omega (arith, v.some_entry))) in
    ground (
      arith, v.header_inside, v.magic, v.class32, v.little_endian, v.versions, v.executable,
      v.intel, v.header_size, v.entry_size, v.some_entry, v.few_entries, last,
    )

-- `elf_is_valid` accepts exactly the images with the right magic number, class, encoding, versions,
-- type, machine and sizes, whose ELF header lies inside the image, and which have 1 to 64 program
-- headers of 32 bytes, every one of them inside the image.
pub elf_is_valid-IsExecutable : (b : Bytes) → (elf_is_valid b ≡ true) ↔ IsExecutable b
elf_is_valid-IsExecutable b = (accepted-IsExecutable b, IsExecutable-accepted b)
