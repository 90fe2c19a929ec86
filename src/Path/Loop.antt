-- ===== src/Path/Loop.antt =====
-- The loop of `vfs_abspath` handles the components of the path in turn, and the fuel is enough.
use sifar_os.Common.{
  ℕ, zero, suc, ◌+◌, ◌<◌, ◌≤◌, ◌≡◌, refl, ap, Bool, true, none, some, List, [], ◌∷◌, arith, inl,
  inr, if◌then◌else◌, ◌==◌, Option-cases, sym, ◌∙◌, length,
}
use sifar_os.Str.{Bytes}
use sifar_os.Path.{
  slash, is_empty, skip_slashes, take_segment, push_segment, Walk, too_long, walked, abspath_loop,
}

-- Put the byte in front of the first component, if the path goes on with one.
abbrev pub onto : ℕ → List Bytes → List Bytes
onto c [] = (c ∷ []) ∷ []
onto c (seg ∷ segs) = (c ∷ seg) ∷ segs

abbrev pub starts_with_slash : Bytes → Bool
starts_with_slash [] = true
starts_with_slash (c ∷ p) = c == slash

-- The components of a path: what stands between slashes, empty ones left out.
unfoldable pub components : Bytes → List Bytes
components [] = []
components (c ∷ p) =
    let rest = components p in
    if c == slash then rest else if starts_with_slash p then (c ∷ []) ∷ rest else onto c rest

-- Pushing the components in turn.
unfoldable pub push_all : Bytes → List Bytes → Walk
push_all stack [] = walked stack
push_all stack (seg ∷ segs) = elim (push_segment stack seg) [
  | none ↦ too_long
  | some stack' ↦ push_all stack' segs
]

components-skip_slashes : (p : Bytes) → components (skip_slashes p) ≡ components p
unfolding components skip_slashes
components-skip_slashes [] = refl
components-skip_slashes (c ∷ p) = ground (arith, components-skip_slashes p)

-- How the first segment and the rest make up the components.
abbrev Splits : Bytes → Bytes × Bytes → Type 0
Splits p (seg, rest) =
    (components p ≡ elim seg [ [] ↦ components rest | c ∷ cs ↦ (c ∷ cs) ∷ components rest ])
    × (length seg + length rest ≡ length p)
    × (is_empty seg ≡ starts_with_slash p)

split_on :
    (c : ℕ) (p : Bytes) (r : Bytes × Bytes)
    → Splits p r
    → Splits (c ∷ p) (if c == slash then ([], c ∷ p) else (c ∷ r.0, r.1))
unfolding components
split_on c p ([], rest) (a, b, d) = ground arith
split_on c p (x ∷ seg, rest) (a, b, d) = ground arith

take_segment-Splits : (p : Bytes) → Splits p (take_segment p)
unfolding components take_segment
take_segment-Splits [] = (refl, refl, refl)
take_segment-Splits (c ∷ p) = split_on c p (take_segment p) (take_segment-Splits p)

length-skip_slashes : (p : Bytes) → length (skip_slashes p) ≤ length p
unfolding skip_slashes
length-skip_slashes [] = omega arith
length-skip_slashes (c ∷ p) = ground (arith, length-skip_slashes p)

skipped : (p : Bytes) → starts_with_slash (skip_slashes p) ≡ true → skip_slashes p ≡ []
unfolding skip_slashes
skipped [] e = refl
skipped (c ∷ p) e = ground (arith, skipped p)

round :
    (n : ℕ) (q : Bytes) (r : Bytes × Bytes) (stack : Bytes)
    → Splits q r
    → (starts_with_slash q ≡ true → q ≡ [])
    → ((rest stack' : Bytes)
        → length rest < length q
        → abspath_loop n rest stack' ≡ push_all stack' (components rest))
    → (elim r.0 [
      | [] ↦ walked stack
      | c ∷ cs ↦ elim (push_segment stack (c ∷ cs)) [
        | none ↦ too_long
        | some stack' ↦ abspath_loop n r.1 stack'
      ]
    ])
      ≡ push_all stack (components q)
unfolding push_all components
round n q ([], rest) stack (a, b, d) only ih = let e : q ≡ [] = only (sym d) in rw e
round n q (c ∷ cs, rest) stack (a, b, d) only ih =
    rw a (elim (Option-cases (push_segment stack (c ∷ cs))) [
      | inl stop ↦ rw (stop, push_all) refl
      | inr (stack', go) ↦ rw (go, push_all) (ih rest stack' (omega arith))
    ])

-- With more fuel than the path has bytes the loop ends, and it has pushed the components in turn.
pub abspath_loop-push_all :
    (n : ℕ) (p stack : Bytes)
    → length p < n
    → abspath_loop n p stack ≡ push_all stack (components p)
unfolding abspath_loop
abspath_loop-push_all zero p stack h = absurd (omega arith)
abspath_loop-push_all (suc n) p stack h =
    round n (skip_slashes p) (take_segment (skip_slashes p)) stack
      (take_segment-Splits (skip_slashes p)) (skipped p)
      (λ rest stack' k. abspath_loop-push_all n rest stack' (omega (arith, length-skip_slashes p)))
    ∙ ap (push_all stack) (components-skip_slashes p)
