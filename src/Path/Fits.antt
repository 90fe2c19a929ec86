-- ===== src/Path/Fits.antt =====
-- How long the stack of `vfs_abspath` gets, and that clean paths are read back as they were written.
use sifar_os.Common.{
  ℕ, ◌+◌, ◌<◌, ◌≤◌, ◌≡◌, ◌≢◌, refl, ap, true, false, List, [], ◌∷◌, ◌++◌, arith, ◌⊎◌, inl, inr,
  if◌then◌else◌, sym, ◌∙◌, length, length-append,
}
use mathlib.Core.List.{append-nil, append_assoc}
use sifar_os.Str.{Bytes}
use sifar_os.Str.Laws.{Lacks}
use sifar_os.Path.{slash, is_empty, path_max, walked}
use sifar_os.Path.Loop.{components, onto, starts_with_slash, push_all}
use sifar_os.Path.Names.{
  AreNames, IsSegment, AreSegments, raw, raw_snoc, resolve, enter, drop_last, enter-AreNames,
  push_segment-enter,
}

-- The bytes that the components take with a slash each.
pub weight : List Bytes → ℕ
weight [] = 0
weight (s ∷ ss) = 1 + length s + weight ss

weight-onto : (c : ℕ) (ss : List Bytes) → weight (onto c ss) ≤ weight ss + 2
unfolding weight
weight-onto c [] = omega arith
weight-onto c (s ∷ ss) = omega arith

onto_more : (c : ℕ) (ss : List Bytes) → ss ≢ [] → weight (onto c ss) ≡ weight ss + 1
unfolding weight
onto_more c [] h = absurd (h refl)
onto_more c (s ∷ ss) h = omega arith

pub weight-components :
    (p : Bytes) → weight (components p) ≤ length p + (if starts_with_slash p then 0 else 1)
unfolding components weight
weight-components [] = omega arith
weight-components (c ∷ p) = ground (arith, weight-components p, onto_weight c p)
  where
    onto_weight :
        (c : ℕ) (p : Bytes)
        → (weight (onto c (components p)) ≤ weight (components p) + 1) ⊎ (components p ≡ [])
    onto_weight c p = go (components p)
      where
        go : (ss : List Bytes) → (weight (onto c ss) ≤ weight ss + 1) ⊎ (ss ≡ [])
        go [] = inr refl
        go (s ∷ ss) = inl (omega arith)

raw-drop_last : (ss : List Bytes) → length (raw (drop_last ss)) ≤ length (raw ss)
unfolding raw drop_last
raw-drop_last [] = omega arith
raw-drop_last (s ∷ []) = omega arith
raw-drop_last (s ∷ t ∷ ss) = omega (
  arith,
  length-append {0} s (raw (drop_last (t ∷ ss))),
  length-append {0} s (raw (t ∷ ss)),
  raw-drop_last (t ∷ ss),
)

length-enter :
    (base : List Bytes) (seg : Bytes)
    → length (raw (enter base seg)) ≤ length (raw base) + 1 + length seg
unfolding enter
length-enter base seg = ground (
  arith,
  raw-drop_last base,
  ap length (raw_snoc base seg),
  length-append {0} (raw base) (slash ∷ seg),
)

pub push_all_fits :
    (segs base : List Bytes)
    → AreNames base
    → AreSegments segs
    → length (raw base) + weight segs < path_max
    → (push_all (raw base) segs ≡ walked (raw (resolve base segs)))
      × (length (raw (resolve base segs)) < path_max)
unfolding push_all resolve weight
push_all_fits [] base h s l = (refl, omega arith)
push_all_fits (seg ∷ segs) base h (s, ss) l = elim (push_segment-enter base seg h) [
  | inl e ↦
      rw (e, push_all)
        (push_all_fits segs (enter base seg) (enter-AreNames base seg h s) ss
          (omega (arith, length-enter base seg)))
  | inr (e, long) ↦ absurd (omega arith)
]

pub weight-raw : (ss : List Bytes) → weight ss ≡ length (raw ss)
unfolding weight raw
weight-raw [] = refl
weight-raw (s ∷ ss) = omega (arith, length-append {0} s (raw ss), weight-raw ss)

starts-raw : (ss : List Bytes) → starts_with_slash (raw ss) ≡ true
unfolding raw
starts-raw [] = refl
starts-raw (s ∷ ss) = refl

components-append :
    (s t : Bytes)
    → IsSegment s
    → starts_with_slash t ≡ true
    → components (s ++ t) ≡ s ∷ components t
unfolding components
components-append [] t (e, l) h = absurd (cc)
components-append (c ∷ []) t (e, (n, l)) h = ground arith
components-append (c ∷ d ∷ s) t (e, (n, (m, l))) h =
    ground (arith, components-append (d ∷ s) t (refl, (m, l)) h)

pub components-raw : (ss : List Bytes) → AreNames ss → components (raw ss) ≡ ss
unfolding raw components
components-raw [] h = refl
components-raw (s ∷ ss) ((a, b, c, d), h) =
    components-append s (raw ss) (a, b) (starts-raw ss) ∙ ap (λ t. s ∷ t) (components-raw ss h)

pub resolve_names : (base ss : List Bytes) → AreNames ss → resolve base ss ≡ base ++ ss
unfolding resolve enter
resolve_names base [] h = sym (append-nil base)
resolve_names base (s ∷ ss) ((a, b, c, d), h) =
    rw (c, d) (resolve_names (base ++ (s ∷ [])) ss h ∙ append_assoc base (s ∷ []) ss)

pub one_component : (s : Bytes) → is_empty s ≡ false → Lacks slash s → components s ≡ s ∷ []
unfolding components
one_component s a b = ap components (sym (append-nil s)) ∙ components-append s [] (a, b) refl
