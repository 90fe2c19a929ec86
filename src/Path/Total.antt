-- ===== src/Path/Total.antt =====
-- When `vfs_abspath` succeeds, that its results are fixed points, and the working directory "/".
use sifar_os.Common.{
  ℕ, suc, ◌+◌, ◌<◌, ◌≤◌, ◌≡◌, ◌≢◌, refl, ap, true, false, some, List, [], ◌∷◌, ◌++◌, arith, inl,
  inr, Bool-cases, subst, sym, ◌∙◌, length,
}
use sifar_os.Str.{Bytes, strlcpy}
use sifar_os.Str.Laws.{strlen-length, take_length}
use sifar_os.Path.{slash, push_segment, path_max, abspath, start_stack, finish, walked, is_absolute}
use sifar_os.Path.Loop.{components, push_all, abspath_loop-push_all}
use sifar_os.Path.Names.{AreNames, IsName, raw, render, resolve, components-AreSegments}
use sifar_os.Path.Resolve.{origin, abspath-resolve, start_stack-raw}
use sifar_os.Path.Fits.{
  weight, weight-components, push_all_fits, weight-raw, components-raw, resolve_names,
  one_component,
}

-- The steps of the function put together.
abspath_steps :
    (cwd path : Bytes) (size : ℕ) (stack text : Bytes)
    → 2 ≤ size
    → start_stack cwd path ≡ some stack
    → push_all stack (components path) ≡ walked text
    → abspath cwd path size ≡ finish size (walked text)
unfolding abspath
abspath_steps cwd path size stack text h s w =
    ground (arith, abspath_loop-push_all (length path + 1) path stack)

finish_fits :
    (names : List Bytes) (size : ℕ)
    → 2 ≤ size
    → length (raw names) < size
    → finish size (walked (raw names)) ≡ some (render names)
unfolding finish raw render strlcpy
finish_fits [] size h l = ground (arith, strlen-length (slash ∷ []), take_length (slash ∷ []) 1)
finish_fits (s ∷ ss) size h l =
    ground (arith, strlen-length (raw (s ∷ ss)), take_length (raw (s ∷ ss)) (length (raw (s ∷ ss))))

length-origin :
    (base : List Bytes) (path : Bytes) → length (raw (origin base path)) ≤ length (raw base)
unfolding raw
length-origin base path = elim (Bool-cases (is_absolute path)) [
  | inl a ↦ rw a (omega arith)
  | inr r ↦ rw r (omega arith)
]

AreNames-origin : (base : List Bytes) (path : Bytes) → AreNames base → AreNames (origin base path)
AreNames-origin base path h = elim (Bool-cases (is_absolute path)) [
  | inl a ↦ rw a tt
  | inr r ↦ rw r h
]

resolves_from :
    (base : List Bytes) (path : Bytes) (size : ℕ)
    → AreNames base
    → path_max ≤ size
    → length (raw base) + weight (components path) < path_max
    → abspath (raw base) path size ≡ some (render (resolve (origin base path) (components path)))
resolves_from base path size h s l =
    let (w, fits) =
      push_all_fits (components path) (origin base path) (AreNames-origin base path h)
        (components-AreSegments path) (omega (arith, length-origin base path)) in
    elim (start_stack-raw base path h) [
      | inl e ↦
          abspath_steps (raw base) path size (raw (origin base path)) _ (omega arith) e w
          ∙ finish_fits (resolve (origin base path) (components path)) size (omega arith)
              (omega arith)
      | inr (e, long) ↦ absurd (omega arith)
    ]

-- With a buffer of FS_PATH_MAX bytes or more, and a working directory that is its clean names, each
-- after a slash, with the empty text and not "/" for the root, `vfs_abspath` succeeds on every path
-- that fits 191 bytes together with the working directory and a slash, and returns the resolved path.
pub abspath_total :
    (base : List Bytes) (path : Bytes) (size : ℕ)
    → AreNames base
    → path_max ≤ size
    → length (raw base) + length path + 1 < path_max
    → abspath (raw base) path size ≡ some (render (resolve (origin base path) (components path)))
abspath_total base path size h s l =
    resolves_from base path size h s (ground (arith, weight-components path))

components-render : (names : List Bytes) → AreNames names → components (render names) ≡ names
unfolding render components raw
components-render [] h = refl
components-render (s ∷ ss) h = components-raw (s ∷ ss) h

length-render : (names : List Bytes) → length (raw names) ≤ length (render names)
unfolding render raw
length-render [] = omega arith
length-render (s ∷ ss) = omega arith

absolute-render : (names : List Bytes) → is_absolute (render names) ≡ true
unfolding render raw
absolute-render [] = refl
absolute-render (s ∷ ss) = refl

render_again :
    (names base : List Bytes)
    → AreNames names
    → AreNames base
    → length (raw base) + length (raw names) < path_max
    → abspath (raw base) (render names) path_max ≡ some (render names)
render_again names base h b l =
    resolves_from base (render names) path_max b (omega arith)
      (rw components-render (omega (arith, weight-raw names)))
    ∙ ap some (ap render (again (absolute-render names)))
  where
    again :
        is_absolute (render names) ≡ true
        → resolve (origin base (render names)) (components (render names)) ≡ names
    again a = rw a (ap (resolve []) (components-render names h) ∙ resolve_names [] names h)

-- What `vfs_abspath` returns in a buffer of FS_PATH_MAX bytes, for a working directory that is its
-- clean names, each after a slash, with the empty text and not "/" for the root, is a fixed point:
-- resolved once more, from the root, it is the same.
pub abspath_idempotent :
    (base : List Bytes) (path out : Bytes)
    → AreNames base
    → abspath (raw base) path path_max ≡ some out
    → abspath [] out path_max ≡ some out
abspath_idempotent base path out h e =
    let (a, n, l) = abspath-resolve base path path_max out h e in
    let names = resolve (origin base path) (components path) in
    rw a (from_root names n (subst (λ x. length x < path_max) a l))
  where
    from_root :
        (names : List Bytes)
        → AreNames names
        → length (render names) < path_max
        → abspath [] (render names) path_max ≡ some (render names)
    from_root names n l =
        unfold raw in render_again names [] n tt (omega (arith, length-render names))

slash_stack : (s : Bytes) → is_absolute s ≡ false → start_stack (slash ∷ []) s ≡ some (slash ∷ [])
unfolding start_stack
slash_stack s r = ground arith

relative_name : (s : Bytes) → IsName s → is_absolute s ≡ false
relative_name [] h = refl
relative_name (c ∷ s) (a, (n, l), b, d) = ground arith

push_on_slash :
    (s : Bytes)
    → IsName s
    → length s + 2 < path_max
    → push_all (slash ∷ []) (s ∷ []) ≡ walked (slash ∷ slash ∷ s)
unfolding push_all push_segment
push_on_slash s (a, b, c, d) l = ground arith

finish_text :
    (c : ℕ) (s : Bytes) (size : ℕ)
    → suc (length s) < size
    → finish size (walked (c ∷ s)) ≡ some (c ∷ s)
unfolding finish strlcpy
finish_text c s size l = ground (arith, strlen-length (c ∷ s), take_length (c ∷ s) (length (c ∷ s)))

name_alone : (s : Bytes) → IsName s → components s ≡ s ∷ []
name_alone s (a, b, c, d) = one_component s a b

-- A single name looked up from the working directory "/", which ends in a slash, yields two
-- slashes: the result is not the clean path "/name".
pub abspath_double_slash :
    (s : Bytes)
    → IsName s
    → length s + 2 < path_max
    → (abspath (slash ∷ []) s path_max ≡ some (slash ∷ slash ∷ s))
      × (abspath (slash ∷ []) s path_max ≢ some (render (s ∷ [])))
unfolding render raw
abspath_double_slash s h l =
    let e : abspath (slash ∷ []) s path_max ≡ some (slash ∷ slash ∷ s) =
      abspath_steps (slash ∷ []) s path_max (slash ∷ []) _ (omega arith)
        (slash_stack s (relative_name s h))
        (ap (push_all (slash ∷ [])) (name_alone s h) ∙ push_on_slash s h l)
      ∙ finish_text slash (slash ∷ s) path_max (omega arith) in
    (e, λ k. differ s h (sym e ∙ k))
  where
    differ : (s : Bytes) → IsName s → some (slash ∷ slash ∷ s) ≡ some (slash ∷ (s ++ [])) → ⊥
    differ [] (a, b, c, d) e = cc
    differ (c ∷ s) (a, (n, l), b, d) e = n (ground arith)
