-- ===== src/Path.antt =====
-- The path handling of kernel/fs/vfs.c: `vfs_abspath` and the walk that `vfs_lookup` shares with it.
pub mod Loop
pub mod Names
pub mod Resolve
pub mod Fits
pub mod Total
pub mod Print
mod Tests
use sifar_os.Common.{
  ℕ, zero, suc, ◌+◌, ◌-◌, ◌<◌, Bool, true, false, ◌&&◌, ◌||◌, not, Option, none, some, List, [],
  ◌∷◌, ◌++◌, if◌then◌else◌, leb, ltb, ◌==◌, take, length,
}
use sifar_os.Str.{Bytes, strlen, strlcpy, strrchr}

abbrev pub slash : ℕ
slash = b'/'

abbrev pub dot : ℕ
dot = b'.'

-- FS_PATH_MAX, the size of the buffer `stack`.
abbrev pub path_max : ℕ
path_max = 192

-- `while (*p == '/') p++`
unfoldable pub skip_slashes : Bytes → Bytes
skip_slashes [] = []
skip_slashes (c ∷ p) = let rest = skip_slashes p in if c == slash then rest else c ∷ p

-- `start = p; while (*p && *p != '/') p++`: the segment from `start` to `p`, and `p`.
unfoldable pub take_segment : Bytes → Bytes × Bytes
take_segment [] = ([], [])
take_segment (c ∷ p) =
    let (seg, rest) = take_segment p in if c == slash then ([], c ∷ p) else (c ∷ seg, rest)

-- `seg == 1 && start[0] == '.'`
abbrev pub is_dot : Bytes → Bool
is_dot [] = false
is_dot (c ∷ []) = c == dot
is_dot (c ∷ d ∷ s) = false

-- `seg == 2 && start[0] == '.' && start[1] == '.'`
abbrev pub is_dot_dot : Bytes → Bool
is_dot_dot [] = false
is_dot_dot (c ∷ []) = false
is_dot_dot (c ∷ d ∷ []) = (c == dot) && (d == dot)
is_dot_dot (c ∷ d ∷ e ∷ s) = false

-- `slash = strrchr(stack, '/'); if (slash) *slash = '\0'`
abbrev pub cut_at : Bytes → Option ℕ → Bytes
cut_at stack none = stack
cut_at stack (some i) = take i stack

-- What one segment does to `stack`, whose length is the source's `len`; `none` is the return of -1.
unfoldable pub push_segment : Bytes → Bytes → Option Bytes
push_segment stack seg =
    if is_dot seg
    then some stack
    else if is_dot_dot seg
    then some (cut_at stack (strrchr stack slash))
    else if leb path_max (length stack + 1 + length seg)
    then none
    else some (stack ++ slash ∷ seg)

-- How the loop ends: by its fuel, by -1, or with the final stack.
pub data Walk : Type 0 where
  out_of_fuel : Walk
  too_long : Walk
  walked : Bytes → Walk

-- The loop `for (p = path; *p; )`, one round for each unit of fuel.
unfoldable pub abspath_loop : ℕ → Bytes → Bytes → Walk
abspath_loop zero p stack = out_of_fuel
abspath_loop (suc n) p stack =
    let (seg, rest) = take_segment (skip_slashes p) in
    elim seg [
      | [] ↦ walked stack
      | c ∷ cs ↦ elim (push_segment stack (c ∷ cs)) [
        | none ↦ too_long
        | some stack' ↦ abspath_loop n rest stack'
      ]
    ]

abbrev pub is_absolute : Bytes → Bool
is_absolute [] = false
is_absolute (c ∷ p) = c == slash

abbrev pub is_empty : Bytes → Bool
is_empty [] = true
is_empty (c ∷ s) = false

abbrev pub ends_in_slash : Bytes → Bool
ends_in_slash [] = false
ends_in_slash (c ∷ []) = c == slash
ends_in_slash (c ∷ d ∷ s) = ends_in_slash (d ∷ s)

-- The copy of `cwd` that the walk starts from; an empty `cwd` stands for NULL too.
unfoldable pub start_stack : Bytes → Bytes → Option Bytes
start_stack cwd path =
    if is_absolute path || is_empty cwd
    then some []
    else if leb path_max (length cwd)
    then none
    else if ltb 1 (length cwd) && ends_in_slash cwd
    then some (take (length cwd - 1) cwd)
    else some cwd

-- `if (stack[0] == '\0') strlcpy(stack, "/", ...); if (strlcpy(out, stack, size) >= size) return -1`
unfoldable pub finish : ℕ → Walk → Option Bytes
finish size out_of_fuel = none
finish size too_long = none
finish size (walked stack) =
    let result = if is_empty stack then slash ∷ [] else stack in
    if leb size (strlcpy result size).1 then none else some (strlcpy result size).0

-- `vfs_abspath`: what is left in `out` on success, `none` for -1.
unfoldable pub abspath : Bytes → Bytes → ℕ → Option Bytes
abspath cwd path size = if ltb size 2 then none else elim (start_stack cwd path) [
  | none ↦ none
  | some stack ↦ finish size (abspath_loop (length path + 1) path stack)
]
