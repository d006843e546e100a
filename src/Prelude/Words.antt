-- ===== src/Prelude/Words.antt =====
-- Go's int64, as the bit pattern of its two's complement: a number below 2^64.
use Prim.Native.Nat.{ℕ, ◌+◌, ◌*◌, ◌%◌}
use mathlib.Core.Bool.{Bool}
use kubergrunt.Prelude.Tests.{ltb}

abbrev pub int64_mod : ℕ
int64_mod = 0x10000000000000000

abbrev pub int64_sign : ℕ
int64_sign = 0x8000000000000000

-- `a * b`, which wraps.
abbrev pub mul64 : ℕ → ℕ → ℕ
mul64 a b = (a * b) % int64_mod

-- `a < b` on signed values: the sign bit is flipped, and the patterns are compared.
abbrev pub slt64 : ℕ → ℕ → Bool
slt64 a b = ltb ((a + int64_sign) % int64_mod) ((b + int64_sign) % int64_mod)
