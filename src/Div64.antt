-- ===== src/Div64.antt =====
-- kernel/lib/div64.c: unsigned long division by shift and subtract.
pub mod Correct
mod Tests
use mathlib.Core.Bool.{xor}
use sifar_os.Common.{ℕ, zero, suc, ◌+◌, ◌-◌, ◌*◌, ◌/◌, ◌%◌, ◌^◌, Bool, if◌then◌else◌, leb, ◌==◌}

abbrev pub word64 : ℕ
word64 = 2 ^ 64

-- The quotient and the remainder that the loop carries.
pub record DivState : Type 0 where
  pub quotient : ℕ
  pub remainder : ℕ

-- One round: `remainder = (remainder << 1) | ((num >> bit) & 1)`, which drops what the shift
-- pushes out of 64 bits, then the conditional subtraction. The bit of the quotient that `|=`
-- sets is still clear, so setting it adds it.
pub div_round : ℕ → ℕ → ℕ → DivState → DivState
div_round num den bit s =
    let shifted = (s.remainder * 2) % word64 + num / 2 ^ bit % 2 in
    if leb den shifted
    then record { quotient = s.quotient + 2 ^ bit; remainder = shifted - den }
    else record { quotient = s.quotient; remainder = shifted }

-- `for (bit = 63; bit >= 0; bit--)`, by the number of rounds left: bits `n - 1` down to 0.
pub div_loop : ℕ → ℕ → ℕ → DivState → DivState
div_loop num den zero s = s
div_loop num den (suc bit) s = div_loop num den bit (div_round num den bit s)

-- The result, and what is stored through `rem`.
pub udivmoddi4 : ℕ → ℕ → DivState
udivmoddi4 num den =
    if den == 0
    then record { quotient = word64 - 1; remainder = 0 }
    else div_loop num den 64 (record { quotient = 0; remainder = 0 })

pub udivdi3 : ℕ → ℕ → ℕ
udivdi3 num den = (udivmoddi4 num den).quotient

pub umoddi3 : ℕ → ℕ → ℕ
umoddi3 num den = (udivmoddi4 num den).remainder

-- An `int64_t` is its bit pattern below 2 ^ 64.
pub is_negative : ℕ → Bool
is_negative x = leb (2 ^ 63) x

-- `-x` on a pattern.
pub neg64 : ℕ → ℕ
neg64 x = (word64 - x) % word64

-- What `if (x < 0) x = -x` leaves, read as a `uint64_t`.
pub magnitude : ℕ → ℕ
magnitude x = if is_negative x then neg64 x else x

-- `negative` is toggled once for each negative operand.
pub divdi3 : ℕ → ℕ → ℕ
divdi3 num den =
    let q = (udivmoddi4 (magnitude num) (magnitude den)).quotient in
    if xor (is_negative num) (is_negative den) then neg64 q else q

pub moddi3 : ℕ → ℕ → ℕ
moddi3 num den =
    let r = (udivmoddi4 (magnitude num) (magnitude den)).remainder in
    if is_negative num then neg64 r else r
