-- ===== src/Elf/Load.antt =====
-- `write_to_space` and `elf_load` of kernel/elf.c.
use sifar_os.Common.{
  ℕ, zero, suc, ◌+◌, ◌-◌, ◌%◌, ◌^◌, Bool, false, ◌&&◌, ◌||◌, not, Option, none, some, [], ◌∷◌,
  if◌then◌else◌, leb, ltb, ◌==◌, length, take, drop, min, max,
}
use sifar_os.Elf.Image.{
  Bytes, page_size, Phdr, ehdr, segment, elf_is_valid, loads, is_exec, is_writable, acceptable,
  segment_end, align_up,
}

-- What the loader uses of an address space: `vmm_alloc_range`, which maps fresh zeroed pages,
-- `vmm_translate_in`, with 0 for an address that is not mapped, and a copy to physical memory
-- through the identity map.
pub record Space : Type 1 where
  pub State : Type 0
  pub alloc_range : State → ℕ → ℕ → ℕ → Option State
  pub translate : State → ℕ → ℕ
  pub store : State → ℕ → Bytes → State

module _ (m : Space) where
  open m use {State, alloc_range, translate, store}

  -- The loop of `write_to_space`. A round copies at least one byte, so as many rounds as there are
  -- bytes are enough; `none` is the return of -1.
  unfoldable pub write_loop : ℕ → State → ℕ → Bytes → Option State
  write_loop zero st dst [] = some st
  write_loop zero st dst (x ∷ bytes) = none
  write_loop (suc n) st dst [] = some st
  write_loop (suc n) st dst (x ∷ bytes) =
      let phys = translate st dst in
      let chunk = min (page_size - dst % page_size) (length (x ∷ bytes)) in
      let rest =
        write_loop n (store st phys (take chunk (x ∷ bytes))) ((dst + chunk) % 2 ^ 32)
          (drop chunk (x ∷ bytes)) in
      if phys == 0 then none else rest

  unfoldable pub write_to_space : State → ℕ → Bytes → Option State
  unfolding write_loop
  write_to_space st dst src = write_loop (length src) st dst src

  -- The locals of `elf_load`.
  pub record Loading : Type 0 where
    pub space : State
    pub highest : ℕ
    pub entry_executable : Bool
    pub load_segments : ℕ

  -- `PTE_PRESENT | PTE_USER`, with `PTE_WRITE` for a writable segment.
  abbrev pub page_flags : Phdr → ℕ
  page_flags s = if is_writable s then 7 else 5

  abbrev pub file_bytes : Bytes → Phdr → Bytes
  file_bytes b s = take s.filesz (drop s.offset b)

  -- The two calls that change the address space.
  unfoldable pub place : Bytes → State → Phdr → Option State
  place b st s = elim (alloc_range st s.vaddr s.memsz (page_flags s)) [
    | none ↦ none
    | some st' ↦ if s.filesz == 0 then some st' else write_to_space st' s.vaddr (file_bytes b s)
  ]

  abbrev pub runs_entry : Bytes → Phdr → Bool
  runs_entry b s = leb s.vaddr (ehdr b).entry && (ltb (ehdr b).entry (segment_end s) && is_exec s)

  -- The rest of the round: `entry_executable` and `highest`.
  abbrev pub advance : Bytes → Phdr → Loading → State → Loading
  advance b s l st = record {
    space = st;
    highest = max l.highest (segment_end s);
    entry_executable = runs_entry b s || l.entry_executable;
    load_segments = l.load_segments + 1;
  }

  unfoldable pub load_one : Bytes → ℕ → Loading → Option Loading
  load_one b i l =
      let s = segment b i in
      if not (loads s)
      then some l
      else if not (acceptable b i)
      then none
      else elim (place b l.space s) [ none ↦ none | some st ↦ some (advance b s l st) ]

  unfoldable pub load_loop : Bytes → ℕ → ℕ → Loading → Option Loading
  load_loop b zero i l = some l
  load_loop b (suc n) i l = elim (load_one b i l) [
    | none ↦ none
    | some l' ↦ load_loop b n (i + 1) l'
  ]

  -- What `elf_load` leaves on success: the address space, `*entry` and `*break_start`.
  pub record Loaded : Type 0 where
    pub space : State
    pub entry : ℕ
    pub break_start : ℕ

  unfoldable pub finish_load : Bytes → Loading → Option Loaded
  finish_load b l =
      if l.load_segments == 0 || (l.highest == 0 || not l.entry_executable)
      then none
      else some
          (record { space = l.space; entry = (ehdr b).entry; break_start = align_up l.highest })

  -- `elf_load`; `none` is -1, and the caller destroys the address space.
  unfoldable pub elf_load : State → Bytes → Option Loaded
  elf_load st b =
      if not (elf_is_valid b)
      then none
      else elim (load_loop b (ehdr b).phnum 0
          (record { space = st; highest = 0; entry_executable = false; load_segments = 0 })) [
            | none ↦ none
            | some l ↦ finish_load b l
          ]
