-- ===== src/Common/Words.antt =====
-- Machine words as native numbers. An `int` or `int32_t` is its 32-bit pattern.
use Prim.Native.Nat.{ℕ, ◌+◌, ◌-◌, ◌*◌, ◌%◌, ◌^◌}
use mathlib.Core.Bool.{Bool}
use wild_cat.Common.Tests.{ltb, if◌then◌else◌}

abbrev pub w32 : ℕ → ℕ
w32 n = n % 2 ^ 32

abbrev pub w64 : ℕ → ℕ
w64 n = n % 2 ^ 64

abbrev pub add32 : ℕ → ℕ → ℕ
add32 a b = (a + b) % 2 ^ 32

-- a - b, on words below 2 ^ 32
abbrev pub sub32 : ℕ → ℕ → ℕ
sub32 a b = (a + 2 ^ 32 - b) % 2 ^ 32

abbrev pub mul32 : ℕ → ℕ → ℕ
mul32 a b = (a * b) % 2 ^ 32

abbrev pub add64 : ℕ → ℕ → ℕ
add64 a b = (a + b) % 2 ^ 64

abbrev pub sub64 : ℕ → ℕ → ℕ
sub64 a b = (a + 2 ^ 64 - b) % 2 ^ 64

abbrev pub mul64 : ℕ → ℕ → ℕ
mul64 a b = (a * b) % 2 ^ 64

-- the conversion of an `int` to a 64-bit unsigned type, which extends the sign
abbrev pub sext : ℕ → ℕ
sext v = if ltb v (2 ^ 31) then v else v + (2 ^ 64 - 2 ^ 32)

-- a < b, on two `int`s
abbrev pub lt_int : ℕ → ℕ → Bool
lt_int a b = ltb ((a + 2 ^ 31) % 2 ^ 32) ((b + 2 ^ 31) % 2 ^ 32)
