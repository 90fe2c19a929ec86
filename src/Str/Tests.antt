-- ===== src/Str/Tests.antt =====
-- Runs of the string routines, and the theorems at concrete strings.
use sifar_os.Common.{◌-◌, ◌^◌, ◌≡◌, refl, some, none, [], ◌∷◌}
use sifar_os.Str.{Bytes, strcmp, strncmp, strchr, memcmp, atoi}

abbrev ab : Bytes
ab = b'a' ∷ b'b' ∷ []

abbrev ac : Bytes
ac = b'a' ∷ b'c' ∷ []

strcmp_runs : (strcmp ab ac ≡ 2 ^ 32 - 1) × (strcmp ac ab ≡ 1) × (strcmp ab ab ≡ 0)
unfolding strcmp
strcmp_runs = (refl, refl, refl)

strchr_runs : (strchr ab b'b' ≡ some 1) × (strchr ab b'z' ≡ none)
unfolding strchr
strchr_runs = (refl, refl)

memcmp_runs : (memcmp ab ac 1 ≡ 0) × (memcmp ab ac 2 ≡ 2 ^ 32 - 1) × (strncmp ab ac 1 ≡ 0)
unfolding memcmp strncmp
memcmp_runs = (refl, refl, refl)

atoi_runs : (atoi (b' ' ∷ b'-' ∷ b'1' ∷ b'2' ∷ b'x' ∷ []) ≡ 2 ^ 32 - 12) × (atoi (b'7' ∷ []) ≡ 7)
unfolding atoi
atoi_runs = (refl, refl)
