-- ===== src/Str/Laws.antt =====
-- What the string routines compute.
use sifar_os.Common.{
  ℕ, zero, suc, ◌+◌, ◌-◌, ◌<◌, ◌≤◌, ◌≡◌, ◌≢◌, ◌↔◌, refl, ap, false, Option, none, some, [], ◌∷◌,
  ◌++◌, arith, inl, inr, ◌==◌, Bool-cases, ◌∙◌, length, take, min,
}
use sifar_os.Common.{replicate}
use sifar_os.Str.{
  strnlen, strncpy, lower, strcasecmp, Bytes, strlen, strlen_from, strcmp, strncmp, strlcpy,
  strrchr, strrchr_from,
}

strlen_from-length : (s : Bytes) (n : ℕ) → strlen_from s n ≡ n + length s
unfolding strlen_from
strlen_from-length [] n = omega arith
strlen_from-length (c ∷ s) n = omega (arith, strlen_from-length s (n + 1))

pub strlen-length : (s : Bytes) → strlen s ≡ length s
unfolding strlen
strlen-length s = omega (arith, strlen_from-length s 0)

-- Every byte is one that a C string can hold.
abbrev pub AreChars : Bytes → Type 0
AreChars [] = Unit {0}
AreChars (c ∷ s) = (0 < c) × (c < 256) × AreChars s

-- `strcmp` returns 0 exactly on equal strings.
pub strcmp_zero : (s t : Bytes) → AreChars s → AreChars t → (strcmp s t ≡ 0) ↔ (s ≡ t)
unfolding strcmp
strcmp_zero [] [] a b = (λ e. refl, λ e. refl)
strcmp_zero [] (y ∷ t) a (b, c, d) = (λ e. absurd (omega arith), λ e. absurd (cc))
strcmp_zero (x ∷ s) [] (b, c, d) a = (λ e. absurd (omega arith), λ e. absurd (cc))
strcmp_zero (x ∷ s) (y ∷ t) (a, b, c) (d, e, f) = elim (Bool-cases (x == y)) [
  | inl same ↦
      (let q : x ≡ y = ground arith in
        rw same (
          λ h. ground (arith, (strcmp_zero s t c f).0 h),
          λ h. (strcmp_zero s t c f).1 (ground arith),
        ))
  | inr other ↦ rw other (λ h. absurd (ground arith), λ h. absurd (ground arith))
]

-- `strncmp` with the length of the first string returns 0 exactly if it is a prefix.
pub strncmp_length :
    (s t : Bytes)
    → AreChars s
    → AreChars t
    → length s ≡ length t
    → (strncmp s t (length t) ≡ 0) ↔ (s ≡ t)
unfolding strncmp
strncmp_length [] [] a b h = (λ e. refl, λ e. refl)
strncmp_length [] (y ∷ t) a (b, c, d) h = absurd (omega arith)
strncmp_length (x ∷ s) [] (b, c, d) a h = absurd (omega arith)
strncmp_length (x ∷ s) (y ∷ t) (a, b, c) (d, e, f) h = elim (Bool-cases (x == y)) [
  | inl same ↦
      (let q : x ≡ y = ground arith in
        rw same (
          λ k. ground (arith, (strncmp_length s t c f (omega arith)).0 k),
          λ k. (strncmp_length s t c f (omega arith)).1 (ground arith),
        ))
  | inr other ↦ rw other (λ k. absurd (ground arith), λ k. absurd (ground arith))
]

-- `strlcpy` into a buffer that is not empty leaves the longest prefix that fits beside the NUL, and
-- returns the length of the source.
pub strlcpy-take :
    (src : Bytes) (size : ℕ)
    → 0 < size
    → ((strlcpy src size).0 ≡ take (min (size - 1) (length src)) src)
      × ((strlcpy src size).1 ≡ length src)
unfolding strlcpy
strlcpy-take src size h = (ground (arith, strlen-length src), ground (arith, strlen-length src))

pub take_length : (s : Bytes) (n : ℕ) → length s ≤ n → take n s ≡ s
take_length [] zero h = refl
take_length [] (suc n) h = refl
take_length (c ∷ s) zero h = absurd (omega arith)
take_length (c ∷ s) (suc n) h = ap (λ t. c ∷ t) (take_length s n (omega arith))

pub take-append : (s t : Bytes) → take (length s) (s ++ t) ≡ s
take-append [] [] = refl
take-append [] (c ∷ t) = refl
take-append (c ∷ s) t = ap (λ u. c ∷ u) (take-append s t)

-- No byte of `s` is `c`.
abbrev pub Lacks : ℕ → Bytes → Type 0
Lacks c [] = Unit {0}
Lacks c (x ∷ s) = (x ≢ c) × Lacks c s

strrchr_from-Lacks :
    (t : Bytes) (c j : ℕ) (hit : Option ℕ) → Lacks c t → strrchr_from t c j hit ≡ hit
unfolding strrchr_from
strrchr_from-Lacks [] c j hit h = refl
strrchr_from-Lacks (x ∷ t) c j hit (n, h) =
    let q : (x == c) ≡ false = ground arith in
    rw (q, strrchr_from) (strrchr_from-Lacks t c (j + 1) hit h)

pub strrchr-Lacks : (t : Bytes) (c : ℕ) → Lacks c t → strrchr t c ≡ none
unfolding strrchr
strrchr-Lacks t c h = strrchr_from-Lacks t c 0 none h

strrchr_from-append :
    (s t : Bytes) (c i : ℕ) (hit : Option ℕ)
    → Lacks c t
    → strrchr_from (s ++ c ∷ t) c i hit ≡ some (i + length s)
unfolding strrchr_from
strrchr_from-append [] t c i hit h = ground (arith, strrchr_from-Lacks t c (i + 1) (some i) h)
strrchr_from-append (x ∷ s) t c i hit h =
    strrchr_from-append s t c (i + 1) _ h ∙ ap some (omega arith)

-- `strrchr` finds the last occurrence.
pub strrchr-append : (s t : Bytes) (c : ℕ) → Lacks c t → strrchr (s ++ c ∷ t) c ≡ some (length s)
unfolding strrchr
strrchr-append s t c h = strrchr_from-append s t c 0 none h ∙ ap some (omega arith)

-- `strncpy` writes exactly `n` bytes: the first `strnlen s n` of the source, and NULs after them.
pub strncpy-take :
    (s : Bytes) (n : ℕ) → strncpy s n ≡ take (strnlen s n) s ++ replicate (n - strnlen s n) 0
unfolding strncpy strnlen
strncpy-take [] zero = refl
strncpy-take (c ∷ s) zero = refl
strncpy-take [] (suc n) =
    let e : suc n ≡ suc n - 0 = omega arith in nuls n ∙ ap (λ k. replicate k 0) e
  where
    nuls : (n : ℕ) → 0 ∷ strncpy [] n ≡ replicate (suc n) 0
    nuls zero = refl
    nuls (suc n) = ap (λ t. 0 ∷ t) (nuls n)
strncpy-take (c ∷ s) (suc n) =
    let e : n - strnlen s n ≡ suc n - suc (strnlen s n) = omega arith in
    ap (λ t. c ∷ t) (strncpy-take s n ∙ ap (λ k. take (strnlen s n) s ++ replicate k 0) e)

-- The string with every capital letter made small.
abbrev pub lower_all : Bytes → Bytes
lower_all [] = []
lower_all (c ∷ s) = lower c ∷ lower_all s

-- `strcasecmp` compares as `strcmp` does once capital letters are made small.
pub strcasecmp-strcmp : (s t : Bytes) → strcasecmp s t ≡ strcmp (lower_all s) (lower_all t)
unfolding strcasecmp strcmp
strcasecmp-strcmp [] [] = refl
strcasecmp-strcmp [] (y ∷ t) = refl
strcasecmp-strcmp (x ∷ s) [] = refl
strcasecmp-strcmp (x ∷ s) (y ∷ t) = ground (arith, strcasecmp-strcmp s t)
