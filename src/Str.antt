-- ===== src/Str.antt =====
-- kernel/lib/string.c: the string routines, over the bytes of a C string without its NUL.
-- A function that takes a pointer reads the list from its head; the end of the list is the NUL.
pub mod Laws
mod Tests
use sifar_os.Common.{
  ℕ, zero, suc, ◌+◌, ◌-◌, ◌*◌, ◌%◌, ◌^◌, Bool, true, false, ◌&&◌, ◌||◌, not, Option, none, some,
  List, [], ◌∷◌, ◌++◌, if◌then◌else◌, leb, ltb, ◌==◌, take, length,
}

abbrev pub Bytes : Type 0
Bytes = List ℕ

-- `while (s[n]) n++`
unfoldable pub strlen_from : Bytes → ℕ → ℕ
strlen_from [] n = n
strlen_from (c ∷ s) n = strlen_from s (n + 1)

unfoldable pub strlen : Bytes → ℕ
unfolding strlen_from
strlen s = strlen_from s 0

-- `(int)x - (int)y` for two bytes, as a 32-bit pattern.
abbrev pub byte_diff : ℕ → ℕ → ℕ
byte_diff x y = (x + 2 ^ 32 - y) % 2 ^ 32

unfoldable pub strcmp : Bytes → Bytes → ℕ
strcmp [] [] = byte_diff 0 0
strcmp [] (y ∷ t) = byte_diff 0 y
strcmp (x ∷ s) [] = byte_diff x 0
strcmp (x ∷ s) (y ∷ t) = let rest = strcmp s t in if x == y then rest else byte_diff x y

unfoldable pub strncmp : Bytes → Bytes → ℕ → ℕ
strncmp s t zero = 0
strncmp [] [] (suc n) = byte_diff 0 0
strncmp [] (y ∷ t) (suc n) = byte_diff 0 y
strncmp (x ∷ s) [] (suc n) = byte_diff x 0
strncmp (x ∷ s) (y ∷ t) (suc n) = let rest = strncmp s t n in if x == y then rest else byte_diff x y

-- `memcmp` of two arrays that hold at least `n` bytes.
unfoldable pub memcmp : Bytes → Bytes → ℕ → ℕ
memcmp s t zero = 0
memcmp [] t (suc n) = 0
memcmp (x ∷ s) [] (suc n) = 0
memcmp (x ∷ s) (y ∷ t) (suc n) = let rest = memcmp s t n in if x == y then rest else byte_diff x y

-- What `strlcpy` leaves in `dst`, for a `size` that is not 0, and what it returns.
unfoldable pub strlcpy : Bytes → ℕ → Bytes × ℕ
strlcpy src size =
    let len = strlen src in
    let copy = if leb size len then size - 1 else len in (take copy src, len)

-- `strchr` and `strrchr` of a byte that is not NUL: the index that the pointer has in `s`.
unfoldable pub strchr_from : Bytes → ℕ → ℕ → Option ℕ
strchr_from [] c i = none
strchr_from (x ∷ s) c i = let rest = strchr_from s c (i + 1) in if x == c then some i else rest

unfoldable pub strchr : Bytes → ℕ → Option ℕ
unfolding strchr_from
strchr s c = strchr_from s c 0

unfoldable pub strrchr_from : Bytes → ℕ → ℕ → Option ℕ → Option ℕ
strrchr_from [] c i hit = hit
strrchr_from (x ∷ s) c i hit = strrchr_from s c (i + 1) (if x == c then some i else hit)

unfoldable pub strrchr : Bytes → ℕ → Option ℕ
unfolding strrchr_from
strrchr s c = strrchr_from s c 0 none

-- `atoi`: an `int` is its 32-bit pattern.
abbrev pub is_digit : ℕ → Bool
is_digit c = leb b'0' c && leb c b'9'

unfoldable pub atoi_digits : Bytes → ℕ → ℕ
atoi_digits [] value = value
atoi_digits (c ∷ s) value =
    let rest = atoi_digits s ((value * 10 + (c - b'0')) % 2 ^ 32) in
    if is_digit c then rest else value

unfoldable pub skip_blanks : Bytes → Bytes
skip_blanks [] = []
skip_blanks (c ∷ s) = let rest = skip_blanks s in if c == b' ' || c == 9 then rest else c ∷ s

abbrev negate32 : ℕ → ℕ
negate32 x = (2 ^ 32 - x) % 2 ^ 32

unfoldable pub atoi_signed : Bytes → ℕ
unfolding atoi_digits
atoi_signed [] = atoi_digits [] 0
atoi_signed (c ∷ s) =
    if c == b'-'
    then negate32 (atoi_digits s 0)
    else if c == b'+'
    then atoi_digits s 0
    else atoi_digits (c ∷ s) 0

unfoldable pub atoi : Bytes → ℕ
unfolding atoi_signed skip_blanks
atoi s = atoi_signed (skip_blanks s)

unfoldable pub strnlen : Bytes → ℕ → ℕ
strnlen s zero = 0
strnlen [] (suc max) = 0
strnlen (c ∷ s) (suc max) = suc (strnlen s max)

abbrev pub lower : ℕ → ℕ
lower c = if leb b'A' c && leb c b'Z' then c + 32 else c

unfoldable pub strcasecmp : Bytes → Bytes → ℕ
strcasecmp [] [] = byte_diff 0 0
strcasecmp [] (y ∷ t) = byte_diff 0 (lower y)
strcasecmp (x ∷ s) [] = byte_diff (lower x) 0
strcasecmp (x ∷ s) (y ∷ t) =
    let rest = strcasecmp s t in if lower x == lower y then rest else byte_diff (lower x) (lower y)

-- The `n` bytes that `strncpy` writes, NULs included.
unfoldable pub strncpy : Bytes → ℕ → Bytes
strncpy s zero = []
strncpy [] (suc n) = 0 ∷ strncpy [] n
strncpy (c ∷ s) (suc n) = c ∷ strncpy s n
