-- ===== src/Mem/Tests.antt =====
-- Runs of the memory routines, and the theorems on a small memory.
use sifar_os.Common.{◌≡◌, refl, [], ◌∷◌, arith, get_or, inl}
use sifar_os.Mem.{Memory, memcpy, memmove, copy_up, copy_down}
use sifar_os.Mem.Laws.{get_or-memmove}
use sifar_os.Mem.Copy.{get_or-memcpy}

abbrev eight : Memory
eight = 1 ∷ 2 ∷ 3 ∷ 4 ∷ 5 ∷ 6 ∷ 7 ∷ 8 ∷ []

memmove-eight : memmove eight 2 0 5 ≡ 1 ∷ 2 ∷ 1 ∷ 2 ∷ 3 ∷ 4 ∷ 5 ∷ 8 ∷ []
unfolding memmove copy_up copy_down
memmove-eight = refl

get_or-memmove_example : get_or (memmove eight 2 0 5) 4 0 ≡ 3
get_or-memmove_example = get_or-memmove eight 2 0 5 4 (omega arith) (omega arith)

get_or-memcpy_example : get_or (memcpy eight 0 3 3) 1 0 ≡ 5
get_or-memcpy_example = get_or-memcpy eight 0 3 3 1 (omega arith) (inl (omega arith))
