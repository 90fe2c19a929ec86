-- ===== src/Path/Print.antt =====
-- `vfs_path_of` of kernel/fs/vfs.c: the path of a node, from the names of the node and of the
-- directories above it, the root excepted, the node first.
use sifar_os.Common.{
  ℕ, zero, suc, ◌+◌, ◌<◌, ◌≤◌, ◌≡◌, refl, ap, false, Option, none, some, List, [], ◌∷◌, ◌++◌, arith,
  if◌then◌else◌, leb, ◌==◌, length, length-append, ◌∙◌, sym,
}
use mathlib.Core.List.{append_assoc, append-nil}
use sifar_os.Str.{Bytes, strlen, strlcpy}
use sifar_os.Str.Laws.{strlen-length}
use sifar_os.Path.{slash}
use sifar_os.Path.Names.{raw}

-- `ARRAY_SIZE(chain)`
abbrev pub max_depth : ℕ
max_depth = 32

-- The loop that fills `chain`, which is read from its end: the last name comes first.
unfoldable pub climb : ℕ → List Bytes → List Bytes → List Bytes
climb zero names chain = chain
climb (suc n) [] chain = chain
climb (suc n) (x ∷ names) chain = climb n names (x ∷ chain)

-- The loop that writes the names; `none` is -1.
unfoldable pub emit_path : List Bytes → Bytes → ℕ → Option Bytes
emit_path [] out size = some out
emit_path (x ∷ chain) out size =
    let rest = emit_path chain (out ++ slash ∷ x) size in
    if leb size (length out + 1 + strlen x) then none else rest

abbrev pub path_from : List Bytes → ℕ → Option Bytes
path_from [] size = some (strlcpy (slash ∷ []) size).0
path_from (x ∷ chain) size = emit_path (x ∷ chain) [] size

unfoldable pub path_of : List Bytes → ℕ → Option Bytes
unfolding climb
path_of names size = if size == 0 then none else path_from (climb max_depth names []) size

-- The names from the root down.
abbrev pub downward : List Bytes → List Bytes
downward [] = []
downward (x ∷ names) = downward names ++ (x ∷ [])

climb-downward :
    (n : ℕ) (names chain : List Bytes)
    → length names ≤ n
    → climb n names chain ≡ downward names ++ chain
unfolding climb
climb-downward zero [] chain h = refl
climb-downward zero (x ∷ names) chain h = absurd (omega arith)
climb-downward (suc n) [] chain h = refl
climb-downward (suc n) (x ∷ names) chain h =
    climb-downward n names (x ∷ chain) (omega arith)
    ∙ sym (append_assoc (downward names) (x ∷ []) chain)

emit_path-raw :
    (chain : List Bytes) (out : Bytes) (size : ℕ)
    → length out + length (raw chain) < size
    → emit_path chain out size ≡ some (out ++ raw chain)
unfolding emit_path raw
emit_path-raw [] out size h = ap some (sym (append-nil out))
emit_path-raw (x ∷ chain) out size h =
    let a = length-append x (raw chain) in
    let b = length-append out (slash ∷ x) in
    let rest = emit_path-raw chain (out ++ slash ∷ x) size (omega (arith, a, b)) in
    let e : (out ++ slash ∷ x) ++ raw chain ≡ out ++ (slash ∷ (x ++ raw chain)) =
      append_assoc out (slash ∷ x) (raw chain) in
    ground (arith, a, strlen-length x, rest, e)

-- For a node at a depth of 1 to 32 whose path fits the buffer, `vfs_path_of` writes the absolute path:
-- the names from the root down, each after a slash.
pub path_of-render :
    (names : List Bytes) (size : ℕ)
    → 0 < length names
    → length names ≤ max_depth
    → length (raw (downward names)) < size
    → path_of names size ≡ some (raw (downward names))
unfolding path_of
path_of-render names size p d h =
    let c : climb max_depth names [] ≡ downward names =
      climb-downward max_depth names [] d ∙ append-nil (downward names) in
    let z : (size == 0) ≡ false = ground arith in
    rw (z, c) (at_depth (downward names) (below names p) h)
  where
    below : (names : List Bytes) → 0 < length names → 0 < length (downward names)
    below [] p = absurd (omega arith)
    below (x ∷ names) p = omega (arith, length-append (downward names) (x ∷ []))

    at_depth :
        (chain : List Bytes)
        → 0 < length chain
        → length (raw chain) < size
        → path_from chain size ≡ some (raw chain)
    at_depth [] p h = absurd (omega arith)
    at_depth (x ∷ chain) p h = emit_path-raw (x ∷ chain) [] size (omega arith)
