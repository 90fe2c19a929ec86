-- ===== src/Div64/Tests.antt =====
-- Runs of the division routines, and the theorems at concrete operands.
use sifar_os.Common.{◌+◌, ◌-◌, ◌^◌, ◌≡◌, refl, arith}
use sifar_os.Div64.{udivmoddi4}
use sifar_os.Div64.Correct.{udivmoddi4_lem}

-- A divisor above 2 ^ 63.
udivmoddi4_lem_example :
    ((udivmoddi4 (2 ^ 64 - 1) (2 ^ 63 + 1)).quotient ≡ 1)
    × ((udivmoddi4 (2 ^ 64 - 1) (2 ^ 63 + 1)).remainder ≡ 2 ^ 63 - 2)
udivmoddi4_lem_example = udivmoddi4_lem (2 ^ 64 - 1) (2 ^ 63 + 1) (omega arith) (omega arith)

divide_by_zero : udivmoddi4 7 0 ≡ record { quotient = 2 ^ 64 - 1; remainder = 0 }
unfolding udivmoddi4
divide_by_zero = refl
