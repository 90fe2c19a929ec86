-- ===== src/Path/Names.antt =====
-- Clean paths: lists of names, and how they are written.
use sifar_os.Common.{
  ℕ, ◌+◌, ◌≤◌, ◌≡◌, ◌≢◌, refl, ap, false, none, some, List, [], ◌∷◌, ◌++◌, arith, ◌⊎◌, inl, inr,
  if◌then◌else◌, ◌==◌, Bool-cases, sym, ◌∙◌, length,
}
use mathlib.Core.List.{append_assoc, append-nil}
use sifar_os.Str.{Bytes, strrchr}
use sifar_os.Str.Laws.{Lacks, strrchr-append, strrchr-Lacks, take-append}
use sifar_os.Path.{slash, is_empty, is_dot, is_dot_dot, push_segment, cut_at, path_max}
use sifar_os.Path.Loop.{components, onto, starts_with_slash}

-- A component: not empty, and without a slash.
abbrev pub IsSegment : Bytes → Type 0
IsSegment s = (is_empty s ≡ false) × Lacks slash s

-- A name: a component other than "." and "..".
abbrev pub IsName : Bytes → Type 0
IsName s = (is_empty s ≡ false) × Lacks slash s × (is_dot s ≡ false) × (is_dot_dot s ≡ false)

abbrev pub AreSegments : List Bytes → Type 0
AreSegments [] = Unit {0}
AreSegments (s ∷ ss) = IsSegment s × AreSegments ss

abbrev pub AreNames : List Bytes → Type 0
AreNames [] = Unit {0}
AreNames (s ∷ ss) = IsName s × AreNames ss

-- The names with a slash before each.
unfoldable pub raw : List Bytes → Bytes
raw [] = []
raw (s ∷ ss) = slash ∷ (s ++ raw ss)

-- How a clean absolute path is written.
unfoldable pub render : List Bytes → Bytes
unfolding raw
render [] = slash ∷ []
render (s ∷ ss) = raw (s ∷ ss)

unfoldable pub drop_last : List Bytes → List Bytes
drop_last [] = []
drop_last (s ∷ []) = []
drop_last (s ∷ t ∷ ss) = s ∷ drop_last (t ∷ ss)

-- What one component does to the names so far.
unfoldable pub enter : List Bytes → Bytes → List Bytes
enter base seg =
    if is_dot seg then base else if is_dot_dot seg then drop_last base else base ++ (seg ∷ [])

unfoldable pub resolve : List Bytes → List Bytes → List Bytes
resolve base [] = base
resolve base (seg ∷ segs) = resolve (enter base seg) segs

onto-AreSegments : (c : ℕ) (ss : List Bytes) → c ≢ slash → AreSegments ss → AreSegments (onto c ss)
onto-AreSegments c [] h a = ((refl, (h, tt)), tt)
onto-AreSegments c (s ∷ ss) h ((e, l), a) = ((refl, (h, l)), a)

pub components-AreSegments : (p : Bytes) → AreSegments (components p)
unfolding components
components-AreSegments [] = tt
components-AreSegments (c ∷ p) = elim (Bool-cases (c == slash)) [
  | inl cut ↦ rw cut (components-AreSegments p)
  | inr char ↦ rw char (elim (Bool-cases (starts_with_slash p)) [
    | inl single ↦ rw single ((refl, (ground arith, tt)), components-AreSegments p)
    | inr more ↦
        rw more (onto-AreSegments c (components p) (ground arith) (components-AreSegments p))
  ])
]

pub raw-append : (ss ts : List Bytes) → raw (ss ++ ts) ≡ raw ss ++ raw ts
unfolding raw
raw-append [] ts = refl
raw-append (s ∷ ss) ts =
    ap (λ t. slash ∷ t)
      (ap (λ t. s ++ t) (raw-append ss ts) ∙ sym (append_assoc s (raw ss) (raw ts)))

pub raw_snoc : (ss : List Bytes) (s : Bytes) → raw (ss ++ (s ∷ [])) ≡ raw ss ++ (slash ∷ s)
unfolding raw
raw_snoc ss s = raw-append ss (s ∷ []) ∙ ap (λ t. raw ss ++ (slash ∷ t)) (append-nil s)

-- A list of names is empty, or ends in a name.
data Snoc : List Bytes → Type 0 where
  nothing : Snoc []
  snoc :
      (ss : List Bytes) (s : Bytes) {ts : List Bytes}
      → ts ≡ ss ++ (s ∷ [])
      → Lacks slash s
      → drop_last ts ≡ ss
      → Snoc ts

Snoc-cons : (s : Bytes) (ts : List Bytes) → Lacks slash s → Snoc ts → Snoc (s ∷ ts)
unfolding drop_last
Snoc-cons s [] h nothing = snoc [] s refl h refl
Snoc-cons s [] h (snoc ss t e l d) = snoc [] s refl h refl
Snoc-cons s (u ∷ us) h (snoc ss t e l d) = snoc (s ∷ ss) t (ap (λ x. s ∷ x) e) l (ap (λ x. s ∷ x) d)

AreNames-Snoc : (ts : List Bytes) → AreNames ts → Snoc ts
AreNames-Snoc [] h = nothing
AreNames-Snoc (s ∷ ts) ((a, b, c, d), h) = Snoc-cons s ts b (AreNames-Snoc ts h)

-- Cutting the text at its last slash drops the last name.
pub cut-drop_last :
    (ts : List Bytes) → AreNames ts → cut_at (raw ts) (strrchr (raw ts) slash) ≡ raw (drop_last ts)
cut-drop_last ts h = go (AreNames-Snoc ts h)
  where
    go : {ts : List Bytes} → Snoc ts → cut_at (raw ts) (strrchr (raw ts) slash) ≡ raw (drop_last ts)
    go nothing = unfold raw drop_last in rw (strrchr-Lacks [] slash tt)
    go (snoc ss s e l d) =
        rw (d, e, raw_snoc ss s, strrchr-append (raw ss) s slash l)
          (take-append (raw ss) (slash ∷ s))

AreNames-append : (ss : List Bytes) (s : Bytes) → AreNames ss → IsName s → AreNames (ss ++ (s ∷ []))
AreNames-append [] s h n = (n, tt)
AreNames-append (t ∷ ss) s (m, h) n = (m, AreNames-append ss s h n)

AreNames-drop_last : (ss : List Bytes) → AreNames ss → AreNames (drop_last ss)
unfolding drop_last
AreNames-drop_last [] h = tt
AreNames-drop_last (s ∷ []) h = tt
AreNames-drop_last (s ∷ t ∷ ss) (m, h) = (m, AreNames-drop_last (t ∷ ss) h)

pub enter-AreNames :
    (base : List Bytes) (seg : Bytes) → AreNames base → IsSegment seg → AreNames (enter base seg)
unfolding enter
enter-AreNames base seg h (a, b) = elim (Bool-cases (is_dot seg)) [
  | inl d ↦ rw d h
  | inr d ↦ rw d (elim (Bool-cases (is_dot_dot seg)) [
    | inl dd ↦ rw dd (AreNames-drop_last base h)
    | inr dd ↦ rw dd (AreNames-append base seg h (a, b, d, dd))
  ])
]

pub resolve-AreNames :
    (base segs : List Bytes) → AreNames base → AreSegments segs → AreNames (resolve base segs)
unfolding resolve
resolve-AreNames base [] h s = h
resolve-AreNames base (seg ∷ segs) h (s, ss) =
    resolve-AreNames (enter base seg) segs (enter-AreNames base seg h s) ss

-- Pushing a component on the text of the names is entering it, where it fits.
pub push_segment-enter :
    (base : List Bytes) (seg : Bytes)
    → AreNames base
    → (push_segment (raw base) seg ≡ some (raw (enter base seg)))
      ⊎ ((push_segment (raw base) seg ≡ none) × (path_max ≤ length (raw base) + 1 + length seg))
unfolding push_segment enter
push_segment-enter base seg h = elim (Bool-cases (is_dot seg)) [
  | inl d ↦ rw d (inl refl)
  | inr d ↦ rw d (elim (Bool-cases (is_dot_dot seg)) [
    | inl dd ↦ rw dd (inl (ap some (cut-drop_last base h)))
    | inr dd ↦ rw (dd, raw_snoc base seg) (ground arith)
  ])
]
