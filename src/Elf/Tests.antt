-- ===== src/Elf/Tests.antt =====
-- Runs of the loader, and the theorems at a small program: a header, one program header, no bytes.
use sifar_os.Common.{◌↔◌, ℕ, ◌+◌, ◌≡◌, refl, true, some, ◌∷◌, ◌++◌, replicate}
use sifar_os.Elf.Image.{
  Bytes, ehdr, elf_is_valid, phdr, segment, read16, read32, range_within, acceptable, file_fits,
  in_user_window, is_aligned, load_pages_overlap, overlap_from,
}
use sifar_os.Elf.Load.{Space, Loaded, elf_load, load_loop, load_one, place, finish_load}
use sifar_os.Elf.Header.{IsExecutable, elf_is_valid-IsExecutable}
use sifar_os.Elf.Safe.{IsSafeLoad, elf_load-IsSafeLoad}

-- Entry point 0x40000000; one segment of a byte of zero at 0x40000000, to read and to execute.
abbrev program : Bytes
program =
    0x7F ∷ 0x45 ∷ 0x4C ∷ 0x46 ∷ 1 ∷ 1 ∷ 1 ∷ replicate 9 0
    ++ (2 ∷ 0 ∷ 3 ∷ 0 ∷ 1 ∷ 0 ∷ 0 ∷ 0 ∷ 0 ∷ 0 ∷ 0 ∷ 0x40 ∷ 52 ∷ 0 ∷ 0 ∷ 0 ∷ replicate 8 0
        ++ (52 ∷ 0 ∷ 32 ∷ 0 ∷ 1 ∷ 0 ∷ replicate 6 0
            ++ (1 ∷ 0 ∷ 0 ∷ 0 ∷ 84 ∷ 0 ∷ 0 ∷ 0 ∷ 0 ∷ 0 ∷ 0 ∷ 0x40 ∷ replicate 8 0
                ++ (1 ∷ 0 ∷ 0 ∷ 0 ∷ 5 ∷ 0 ∷ 0 ∷ 0 ∷ replicate 4 0))))

-- An address space that counts the bytes that it was asked for.
abbrev counting : Space
counting = record {
  State = ℕ;
  alloc_range = λ st start len flags. some (st + len);
  translate = λ st virt. virt;
  store = λ st phys bytes. st;
}

elf_is_valid-program : elf_is_valid program ≡ true
unfolding elf_is_valid ehdr read16 read32 range_within
elf_is_valid-program = refl

elf_is_valid-IsExecutable_example : (elf_is_valid program ≡ true) ↔ IsExecutable program
elf_is_valid-IsExecutable_example = elf_is_valid-IsExecutable program

program-IsExecutable : IsExecutable program
program-IsExecutable = (elf_is_valid-IsExecutable program).0 elf_is_valid-program

abbrev program_loaded : Loaded counting
program_loaded = record { space = 1; entry = 0x40000000; break_start = 0x40001000 }

elf_load-program : elf_load counting 0 program ≡ some program_loaded
unfolding elf_load elf_is_valid ehdr read16 read32 range_within load_loop load_one segment phdr
    acceptable file_fits in_user_window is_aligned load_pages_overlap overlap_from place finish_load
elf_load-program = refl

elf_load-IsSafeLoad_example : IsSafeLoad counting program program_loaded
elf_load-IsSafeLoad_example = elf_load-IsSafeLoad counting 0 program program_loaded elf_load-program
