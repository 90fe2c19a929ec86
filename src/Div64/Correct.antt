-- ===== src/Div64/Correct.antt =====
-- Long division computes the quotient and the remainder.
use native.Mathlib.Nat.{pow-suc, div-add-mod, div-div-eq-div-mul}
use mathlib.Core.Bool.{xor}
use sifar_os.Common.{
  ℕ, zero, suc, ◌+◌, ◌-◌, ◌*◌, ◌/◌, ◌%◌, ◌^◌, ◌<◌, ◌≤◌, ◌≡◌, ◌≢◌, arith, ap, leb, Bool-cases, inl,
  inr, false, ◌==◌, if◌then◌else◌,
}
use sifar_os.Div64.{
  DivState, word64, div_round, div_loop, udivmoddi4, is_negative, neg64, magnitude, divdi3, moddi3,
}

mod-double : (n p : ℕ) → n % (p * 2) ≡ (n / p % 2) * p + n % p
mod-double n p = omega (
  arith,
  div-add-mod n p,
  div-add-mod n (p * 2),
  ap (λ (t : ℕ). p * t) (div-add-mod (n / p) 2),
  ap (λ (t : ℕ). p * 2 * t) (div-div-eq-div-mul n p 2),
)

half-div : (n p : ℕ) → n / (p * 2) ≡ n / p / 2
half-div n p = omega (arith, div-div-eq-div-mul n p 2)

-- After the rounds above `bit` the carried values are the division of the high bits.
record Inv (num den p : ℕ) (s : DivState) : Type 0 where
  split : s.quotient * den + s.remainder * p + num % p ≡ num
  small : s.remainder < den
  high : s.remainder ≤ num / p

-- The shift loses no bit, since the remainder is at most what the bits above make up.
no_overflow :
    (num p r : ℕ)
    → num < 2 ^ 64
    → r ≤ num / (p * 2)
    → (r * 2) % word64 + num / p % 2 ≡ r * 2 + num / p % 2
no_overflow num p r w h = omega (arith, half-div num p)

round_take :
    (num den p q r : ℕ)
    → q * den + r * (p * 2) + num % (p * 2) ≡ num
    → den ≤ r * 2 + num / p % 2
    → (q + p) * den + (r * 2 + num / p % 2 - den) * p + num % p ≡ num
round_take num den p q r e h =
    let b = num / p % 2 in
    let d = r * 2 + b - den in
    let f : d + den ≡ r * 2 + b = omega arith in
    omega (arith, mod-double num p, ap (λ (t : ℕ). t * p) f)

round_skip :
    (num den p q r : ℕ)
    → q * den + r * (p * 2) + num % (p * 2) ≡ num
    → q * den + (r * 2 + num / p % 2) * p + num % p ≡ num
round_skip num den p q r e = omega (arith, mod-double num p)

round-Inv :
    (num den bit : ℕ) (s : DivState)
    → num < 2 ^ 64
    → Inv num den (2 ^ bit * 2) s
    → Inv num den (2 ^ bit) (div_round num den bit s)
unfolding div_round
round-Inv num den bit s w v =
    rw (no_overflow num p r w v.high) (elim (Bool-cases (leb den (r * 2 + num / p % 2))) [
      | inl take ↦ rw take (record {
        split = round_take num den p q r v.split (ground arith);
        small = ground arith;
        high = ground (arith, half-div num p);
      })
      | inr skip ↦ rw skip (record {
        split = round_skip num den p q r v.split;
        small = ground arith;
        high = ground (arith, half-div num p);
      })
    ])
  where
    p : ℕ
    p = 2 ^ bit

    q : ℕ
    q = s.quotient

    r : ℕ
    r = s.remainder

loop-Inv :
    (num den n : ℕ) (s : DivState)
    → num < 2 ^ 64
    → Inv num den (2 ^ n) s
    → Inv num den 1 (div_loop num den n s)
unfolding div_loop
loop-Inv num den zero s w v = v
loop-Inv num den (suc bit) s w v =
    loop-Inv num den bit (div_round num den bit s) w (round-Inv num den bit s w (rw pow-suc at v))

div_unique : (num den q r : ℕ) → q * den + r ≡ num → r < den → (q ≡ num / den) × (r ≡ num % den)
div_unique num den q r e h = grind arith

start-Inv :
    (num den : ℕ)
    → num < 2 ^ 64
    → den ≢ 0
    → Inv num den (2 ^ 64) (record { quotient = 0; remainder = 0 })
start-Inv num den w d = record { split = omega arith; small = omega arith; high = omega arith }

loop_exact :
    (num den : ℕ) (s : DivState)
    → Inv num den 1 s
    → (s.quotient ≡ num / den) × (s.remainder ≡ num % den)
loop_exact num den s v = div_unique num den s.quotient s.remainder (omega (arith, v.split)) v.small

-- For 64-bit operands and a divisor that is not 0 the routine returns the quotient and the
-- remainder, also for divisors of 2 ^ 63 and above, where the shift could lose a bit.
pub udivmoddi4_lem :
    (num den : ℕ)
    → num < 2 ^ 64
    → den ≢ 0
    → ((udivmoddi4 num den).quotient ≡ num / den) × ((udivmoddi4 num den).remainder ≡ num % den)
unfolding udivmoddi4
udivmoddi4_lem num den w d =
    let nz : (den == 0) ≡ false = ground arith in
    rw nz (loop_exact num den _ (loop-Inv num den 64 _ w (start-Inv num den w d)))

-- The two's complement reading of a 64-bit pattern, as a sign and a magnitude.
magnitude-ne_zero : (x : ℕ) → x < 2 ^ 64 → x ≢ 0 → magnitude x ≢ 0
unfolding magnitude is_negative neg64
magnitude-ne_zero x w h = ground arith

magnitude-le : (x : ℕ) → x < 2 ^ 64 → magnitude x ≤ 2 ^ 63
unfolding magnitude is_negative neg64
magnitude-le x w = ground arith

-- Signed division divides the magnitudes (truncating toward 0), and the result carries the sign
-- that the operands' signs give: `2 ^ 64 - q` is the pattern of `-q`, and 0 has one pattern.
pub divdi3_lem :
    (num den : ℕ)
    → num < 2 ^ 64
    → den < 2 ^ 64
    → den ≢ 0
    → divdi3 num den ≡ (
        if xor (is_negative num) (is_negative den)
        then neg64 (magnitude num / magnitude den)
        else magnitude num / magnitude den)
unfolding divdi3
divdi3_lem num den wn wd d = ground (
  arith,
  magnitude-le num wn,
  magnitude-ne_zero den wd d,
  udivmoddi4_lem (magnitude num) (magnitude den),
)

-- The signed remainder has the magnitude of the remainder of the magnitudes and the sign of the
-- dividend, as C requires of `%`.
pub moddi3_lem :
    (num den : ℕ)
    → num < 2 ^ 64
    → den < 2 ^ 64
    → den ≢ 0
    → moddi3 num den ≡ (
        if is_negative num
        then neg64 (magnitude num % magnitude den)
        else magnitude num % magnitude den)
unfolding moddi3
moddi3_lem num den wn wd d = ground (
  arith,
  magnitude-le num wn,
  magnitude-ne_zero den wd d,
  udivmoddi4_lem (magnitude num) (magnitude den),
)
