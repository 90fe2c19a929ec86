-- ===== src/Path/Resolve.antt =====
-- `vfs_abspath` resolves a path against a clean working directory.
use sifar_os.Common.{
  ℕ, ◌+◌, ◌<◌, ◌≤◌, ◌≡◌, ◌≢◌, refl, false, Option, none, some, List, [], ◌∷◌, ◌++◌, arith, ◌⊎◌, inl,
  inr, if◌then◌else◌, Bool-cases, subst, sym, ◌∙◌, length, leb,
}
use mathlib.Core.List.{append-nil}
use sifar_os.Str.{Bytes, strlcpy}
use sifar_os.Str.Laws.{Lacks, strlen-length, take_length}
use sifar_os.Path.{
  slash, is_empty, ends_in_slash, path_max, abspath, start_stack, finish, abspath_loop, Walk,
  walked, too_long, out_of_fuel, is_absolute,
}
use sifar_os.Path.Loop.{components, push_all, abspath_loop-push_all}
use sifar_os.Path.Names.{
  AreNames, AreSegments, raw, render, resolve, enter, enter-AreNames, resolve-AreNames,
  push_segment-enter, components-AreSegments,
}

-- The walk ends with the text of the resolved names, or fails because a path grew too long.
abbrev Walked : List Bytes → Walk → Type 0
Walked names out_of_fuel = ⊥
Walked names too_long = Unit {0}
Walked names (walked stack) = stack ≡ raw names

push_all-Walked :
    (segs base : List Bytes)
    → AreNames base
    → AreSegments segs
    → Walked (resolve base segs) (push_all (raw base) segs)
unfolding push_all resolve
push_all-Walked [] base h s = refl
push_all-Walked (seg ∷ segs) base h (s, ss) = elim (push_segment-enter base seg h) [
  | inl e ↦
      rw (e, push_all) (push_all-Walked segs (enter base seg) (enter-AreNames base seg h s) ss)
  | inr (e, _) ↦ rw (e, push_all) tt
]

ends_in_slash-append : (s t : Bytes) → is_empty t ≡ false → ends_in_slash (s ++ t) ≡ ends_in_slash t
ends_in_slash-append [] t h = refl
ends_in_slash-append (c ∷ []) [] h = absurd (cc)
ends_in_slash-append (c ∷ []) (d ∷ t) h = refl
ends_in_slash-append (c ∷ d ∷ s) t h = ends_in_slash-append (d ∷ s) t h

Lacks-end : (c : ℕ) (s : Bytes) → c ≢ slash → Lacks slash s → ends_in_slash (c ∷ s) ≡ false
Lacks-end c [] n h = ground arith
Lacks-end c (d ∷ s) n (m, h) = Lacks-end d s m h

name_end : (s : Bytes) → is_empty s ≡ false → Lacks slash s → ends_in_slash s ≡ false
name_end [] e h = absurd (cc)
name_end (c ∷ s) e (m, h) = Lacks-end c s m h

after_slash : (s : Bytes) → is_empty s ≡ false → ends_in_slash (slash ∷ s) ≡ ends_in_slash s
after_slash [] e = absurd (cc)
after_slash (c ∷ s) e = refl

raw_end : (s : Bytes) (ss : List Bytes) → AreNames (s ∷ ss) → ends_in_slash (raw (s ∷ ss)) ≡ false
unfolding raw
raw_end s [] ((e, l, a, b), t) = rw (append-nil s) (after_slash s e ∙ name_end s e l)
raw_end s (t ∷ ss) ((e, l, a, b), h) =
    ends_in_slash-append (slash ∷ s) (raw (t ∷ ss)) refl ∙ raw_end t ss h

-- The names that the walk starts from.
abbrev pub origin : List Bytes → Bytes → List Bytes
origin base path = if is_absolute path then [] else base

pub start_stack-raw :
    (base : List Bytes) (path : Bytes)
    → AreNames base
    → (start_stack (raw base) path ≡ some (raw (origin base path)))
      ⊎ ((start_stack (raw base) path ≡ none) × (path_max ≤ length (raw base)))
unfolding start_stack raw
start_stack-raw [] path h = ground arith
start_stack-raw (s ∷ ss) path h =
    let e = raw_end s ss h in
    elim (Bool-cases (is_absolute path)) [
      | inl a ↦ rw a (inl refl)
      | inr r ↦ rw r (elim (Bool-cases (leb path_max (length (raw (s ∷ ss))))) [
        | inl long ↦ rw long (inr (refl, ground arith))
        | inr short ↦ rw short (rw e (inl (ground arith)))
      ])
    ]

-- The text of clean names after the last lines of the function.
finish-render :
    (names : List Bytes) (size : ℕ) (out : Bytes)
    → finish size (walked (raw names)) ≡ some out
    → (out ≡ render names) × (length out < size)
unfolding finish raw render strlcpy
finish-render [] size out e = ground (arith, strlen-length (slash ∷ []), take_length (slash ∷ []))
finish-render (s ∷ ss) size out e =
    ground (arith, strlen-length (raw (s ∷ ss)), take_length (raw (s ∷ ss)) (length (raw (s ∷ ss))))

finished :
    (names : List Bytes) (size : ℕ) (w : Walk) (out : Bytes)
    → Walked names w
    → finish size w ≡ some out
    → (out ≡ render names) × (length out < size)
unfolding finish
finished names size out_of_fuel out h e = absurd h
finished names size too_long out h e = absurd (cc)
finished names size (walked stack) out h e =
    finish-render names size out (subst (λ s. finish size (walked s) ≡ some out) h e)

abspath_from :
    (cwd path : Bytes) (size : ℕ) (stack out : Bytes)
    → start_stack cwd path ≡ some stack
    → abspath cwd path size ≡ some out
    → finish size (abspath_loop (length path + 1) path stack) ≡ some out
unfolding abspath
abspath_from cwd path size stack out s e = ground arith

abspath-none :
    (cwd path : Bytes) (size : ℕ) → start_stack cwd path ≡ none → abspath cwd path size ≡ none
unfolding abspath
abspath-none cwd path size s = ground arith

-- For a working directory that is written as clean names, each with a slash before it, whatever
-- `vfs_abspath` puts out is the clean absolute path that the components of the path lead to: "."
-- stays, ".." drops the last name and stops at the root, and an absolute path starts at the root.
-- It has no empty component, ".", or "..", and it fits the buffer.
pub abspath-resolve :
    (base : List Bytes) (path : Bytes) (size : ℕ) (out : Bytes)
    → AreNames base
    → abspath (raw base) path size ≡ some out
    → (out ≡ render (resolve (origin base path) (components path)))
      × AreNames (resolve (origin base path) (components path))
      × (length out < size)
abspath-resolve base path size out h e = elim (start_stack-raw base path h) [
  | inl s ↦
      let clean : AreNames (origin base path) = origin_clean base path h in
      let w =
        subst (Walked (resolve (origin base path) (components path)))
          (sym
            (abspath_loop-push_all (length path + 1) path (raw (origin base path)) (omega arith)))
          (push_all-Walked (components path) (origin base path) clean
            (components-AreSegments path)) in
      let (a, b) = finished _ size _ out w (abspath_from (raw base) path size _ out s e) in
      (
        a,
        resolve-AreNames (origin base path) (components path) clean (components-AreSegments path),
        b,
      )
  | inr (s, long) ↦ absurd (no_result (abspath-none (raw base) path size s) e)
]
  where
    origin_clean : (base : List Bytes) (path : Bytes) → AreNames base → AreNames (origin base path)
    origin_clean base path h = elim (Bool-cases (is_absolute path)) [
      | inl a ↦ rw a tt
      | inr r ↦ rw r h
    ]

    no_result : {r : Option Bytes} → r ≡ none → r ≡ some out → ⊥
    no_result p q = cc
