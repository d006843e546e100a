-- ===== src/Prelude/Float.antt =====
-- Go's float64 for numbers that are not negative, as a multiple of 2^-128: exact for those between
-- 2^-75 and 2^64, which are all that the code makes.
pub mod Bounds
use kubergrunt.Prelude.Tests.{ltb, if◌then◌else◌}
use Prim.Native.Nat.{ℕ, zero, suc, ◌+◌, ◌-◌, ◌*◌, ◌/◌, ◌%◌}

-- 1.0
abbrev pub one : ℕ
one = 0x100000000000000000000000000000000

-- The quotient to the nearest whole number, and to the even one of two.
unfoldable pub nearest : ℕ → ℕ → ℕ
nearest num den =
    let q = num / den in
    let r = num % den in
    if ltb (2 * r) den then q else (if ltb den (2 * r) then q + 1 else q + q % 2)

-- The quotient to the nearest number of 53 bits at a step or a double of it. A quotient below 2^192
-- is reached within 139 doublings.
unfoldable pub rounded_at : ℕ → ℕ → ℕ → ℕ → ℕ
rounded_at zero step num den = step * nearest num (step * den)
rounded_at (suc doublings) step num den =
    let coarser = rounded_at doublings (step * 2) num den in
    if ltb num (step * den * 0x20000000000000) then step * nearest num (step * den) else coarser

abbrev pub rounded : ℕ → ℕ → ℕ
rounded = rounded_at 139 1

-- float64(n), x / y, x + y, int(math.Ceil(x)), int(math.Trunc(x))
unfoldable pub float64 : ℕ → ℕ
float64 n = rounded (n * one) 1

unfoldable pub fdiv : ℕ → ℕ → ℕ
fdiv x y = rounded (x * one) y

unfoldable pub fadd : ℕ → ℕ → ℕ
fadd x y = rounded (x + y) 1

unfoldable pub ceil : ℕ → ℕ
ceil x = (x + (one - 1)) / one

unfoldable pub trunc : ℕ → ℕ
trunc x = x / one
