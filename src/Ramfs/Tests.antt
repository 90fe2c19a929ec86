-- ===== src/Ramfs/Tests.antt =====
-- Runs of ramfs, and the theorems at small files.
use sifar_os.Common.{◌≡◌, refl, true, some, [], ◌∷◌, arith}
use sifar_os.Ramfs.{File, returns, create, read_at, read, write, truncate}
use sifar_os.Ramfs.Laws.{IsValid, Written, Truncated, write-Written, truncate-Truncated}
use sifar_os.Ramfs.Stale.{read-write-truncate}

abbrev empty : File
empty = record { bytes = []; size = 0 }

create-empty : create true ≡ some empty
unfolding create
create-empty = refl

empty-IsValid : IsValid empty
empty-IsValid = record { inside = omega arith; small = omega arith }

write-Written_example :
    (g : File) × (write empty 2 (7 ∷ 8 ∷ []) true ≡ returns 2 g) × Written empty 2 (7 ∷ 8 ∷ []) g
write-Written_example = write-Written empty 2 (7 ∷ 8 ∷ []) empty-IsValid (omega arith)

abbrev four : File
four = record { bytes = 1 ∷ 2 ∷ 3 ∷ 4 ∷ []; size = 4 }

four-IsValid : IsValid four
four-IsValid = record { inside = omega arith; small = omega arith }

read-four :
    (read four 1 2 ≡ some (2 ∷ 3 ∷ []))
    × (read four 2 9 ≡ some (3 ∷ 4 ∷ []))
    × (read four 4 1 ≡ some [])
unfolding read read_at
read-four = (refl, refl, refl)

truncate-Truncated_example : (g : File) × (truncate four 6 true ≡ returns 0 g) × Truncated four 6 g
truncate-Truncated_example = truncate-Truncated four 6 four-IsValid (omega arith)

-- Cut to 1 byte, then written at 3: the bytes 2 and 3 are back.
read-write-truncate_example :
    (g : File) × (h : File) × (truncate four 1 true ≡ returns 0 g)
    × (write g 3 (9 ∷ []) true ≡ returns 1 h)
    × (read h 1 2 ≡ read four 1 2)
read-write-truncate_example =
    read-write-truncate four 1 3 (9 ∷ []) four-IsValid (omega arith) (omega arith) (omega arith)
