-- ===== src/Pmm/Bits.antt =====
-- Counting the set bits of the frame bitmap, and what one write does to the count.
use sifar_os.Common.{
  ℕ, zero, suc, ◌+◌, ◌<◌, ◌≤◌, ◌≡◌, refl, ap, Bool, true, false, List, [], ◌∷◌, arith, get_or, set,
  length, replicate, if◌then◌else◌, ◌==◌,
}

-- How many of the first `n` bits are set.
unfoldable pub count_set : ℕ → List Bool → ℕ
count_set zero xs = 0
count_set (suc n) [] = 0
count_set (suc n) (x ∷ xs) = (if x then 1 else 0) + count_set n xs

pub count_set-le : (n : ℕ) (xs : List Bool) → count_set n xs ≤ n
unfolding count_set
count_set-le zero xs = omega arith
count_set-le (suc n) [] = omega arith
count_set-le (suc n) (x ∷ xs) = ground (arith, count_set-le n xs)

pub count_set-set-true :
    (n i : ℕ) (xs : List Bool)
    → i < n
    → i < length xs
    → get_or xs i true ≡ false
    → count_set n (set xs i true) ≡ count_set n xs + 1
unfolding count_set
count_set-set-true zero i xs h l e = absurd (omega arith)
count_set-set-true (suc n) i [] h l e = absurd (omega arith)
count_set-set-true (suc n) zero (x ∷ xs) h l e = ground arith
count_set-set-true (suc n) (suc i) (x ∷ xs) h l e =
    omega (arith, count_set-set-true n i xs (omega arith) (omega arith) e)

pub count_set-set-false :
    (n i : ℕ) (xs : List Bool)
    → i < n
    → i < length xs
    → get_or xs i true ≡ true
    → count_set n (set xs i false) + 1 ≡ count_set n xs
unfolding count_set
count_set-set-false zero i xs h l e = absurd (omega arith)
count_set-set-false (suc n) i [] h l e = absurd (omega arith)
count_set-set-false (suc n) zero (x ∷ xs) h l e = ground arith
count_set-set-false (suc n) (suc i) (x ∷ xs) h l e =
    omega (arith, count_set-set-false n i xs (omega arith) (omega arith) e)

pub count_set-replicate : (n m : ℕ) → n ≤ m → count_set n (replicate m true) ≡ n
unfolding count_set
count_set-replicate zero m h = refl
count_set-replicate (suc n) zero h = absurd (omega arith)
count_set-replicate (suc n) (suc m) h = omega (arith, count_set-replicate n m (omega arith))

pub get_or-set :
    (xs : List Bool) (i j : ℕ) (v : Bool)
    → i < length xs
    → get_or (set xs i v) j true ≡ (if i == j then v else get_or xs j true)
get_or-set [] i j v h = absurd (omega arith)
get_or-set (x ∷ xs) zero zero v h = refl
get_or-set (x ∷ xs) zero (suc j) v h = ground arith
get_or-set (x ∷ xs) (suc i) zero v h = ground arith
get_or-set (x ∷ xs) (suc i) (suc j) v h = ground (arith, get_or-set xs i j v)

pub set-set :
    (xs : List Bool) (i : ℕ) (v : Bool)
    → get_or xs i true ≡ v
    → set (set xs i (if v then false else true)) i v ≡ xs
set-set [] i v h = refl
set-set (x ∷ xs) zero v h = ground arith
set-set (x ∷ xs) (suc i) v h = ap (λ ys. x ∷ ys) (set-set xs i v h)

pub get_or-replicate : (n i : ℕ) → get_or (replicate n true) i true ≡ true
get_or-replicate zero i = refl
get_or-replicate (suc n) zero = refl
get_or-replicate (suc n) (suc i) = get_or-replicate n i

-- A clear bit is within the array.
pub clear-in : (xs : List Bool) (i : ℕ) → get_or xs i true ≡ false → i < length xs
clear-in [] i h = absurd (cc)
clear-in (x ∷ xs) zero h = omega arith
clear-in (x ∷ xs) (suc i) h = omega (arith, clear-in xs i h)
