-- ===== src/Mem.antt =====
-- kernel/lib/string.c: memset, memcpy and memmove, on a memory of bytes. The string instructions
-- of memset and memcpy are written out: `rep stosl` and `rep movsl` go a dword at a time, the tail of
-- up to three bytes a byte at a time.
use sifar_os.Common.{
  ℕ, zero, suc, ◌+◌, ◌-◌, ◌*◌, ◌/◌, ◌%◌, Bool, true, false, ◌||◌, List, if◌then◌else◌, ltb, ◌==◌,
  get_or, set,
}
pub mod Laws
pub mod Copy
mod Tests

abbrev pub Memory : Type 0
Memory = List ℕ

-- `rep stosb`
unfoldable pub fill_bytes : ℕ → ℕ → ℕ → Memory → Memory
fill_bytes zero dst value m = m
fill_bytes (suc n) dst value m = fill_bytes n (dst + 1) value (set m dst value)

-- `rep stosl` of a dword whose bytes are all `value`.
unfoldable pub fill_words : ℕ → ℕ → ℕ → Memory → Memory
unfolding fill_bytes
fill_words zero dst value m = m
fill_words (suc n) dst value m = fill_words n (dst + 4) value (fill_bytes 4 dst value m)

unfoldable pub memset : Memory → ℕ → ℕ → ℕ → Memory
unfolding fill_bytes fill_words
memset m dst c n =
    fill_bytes (n % 4) (dst + n / 4 * 4) (c % 256) (fill_words (n / 4) dst (c % 256) m)

-- `while (n--) *d++ = *s++`, and `rep movsb`
unfoldable pub copy_up : ℕ → ℕ → ℕ → Memory → Memory
copy_up zero dst src m = m
copy_up (suc n) dst src m = copy_up n (dst + 1) (src + 1) (set m dst (get_or m src 0))

-- `while (n--) *--d = *--s`, from the ends.
unfoldable pub copy_down : ℕ → ℕ → ℕ → Memory → Memory
copy_down zero dst src m = m
copy_down (suc n) dst src m = copy_down n dst src (set m (dst + n) (get_or m (src + n) 0))

-- One step of `rep movsl`: the dword is read whole before it is written.
unfoldable pub copy_word : ℕ → ℕ → Memory → Memory
copy_word dst src m =
    set
      (set (set (set m dst (get_or m src 0)) (dst + 1) (get_or m (src + 1) 0)) (dst + 2)
        (get_or m (src + 2) 0))
      (dst + 3) (get_or m (src + 3) 0)

unfoldable pub copy_words : ℕ → ℕ → ℕ → Memory → Memory
unfolding copy_word
copy_words zero dst src m = m
copy_words (suc n) dst src m = copy_words n (dst + 4) (src + 4) (copy_word dst src m)

unfoldable pub memcpy : Memory → ℕ → ℕ → ℕ → Memory
unfolding copy_up copy_words
memcpy m dst src n =
    copy_up (n % 4) (dst + n / 4 * 4) (src + n / 4 * 4) (copy_words (n / 4) dst src m)

unfoldable pub memmove : Memory → ℕ → ℕ → ℕ → Memory
unfolding copy_up copy_down
memmove m dst src n =
    if (dst == src) || (n == 0)
    then m
    else if ltb dst src
    then copy_up n dst src m
    else copy_down n dst src m
