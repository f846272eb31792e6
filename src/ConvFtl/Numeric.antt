-- ===== src/ConvFtl/Numeric.antt =====
-- conv_ftl.c: `isqrt_u64`, the integer square root by Newton's method.
pub mod Sqrt
use wild_cat.Common.{
  ℕ, zero, suc, ◌+◌, ◌/◌, ◌%◌, ◌^◌, Bool, true, false, Option, none, some, ltb, leb, ◌==◌,
  if◌then◌else◌, ◌>>=◌, add64, w32,
}

-- The loop `while (y < x)`, on fuel. A division by zero is `none`.
pub newton : ℕ → ℕ → ℕ → ℕ → Option ℕ
newton zero n x y = none
newton (suc fuel) n x y = elim (ltb y x) [
  | false ↦ some x
  | true ↦ elim (y == 0) [ true ↦ none | false ↦ newton fuel n y (add64 y (n / y) / 2) ]
]

-- Each round lowers `x`, so `n + 1` rounds are enough.
unfoldable pub isqrt_u64 : ℕ → Option ℕ
unfolding newton
isqrt_u64 n =
    if leb n 1 then some (w32 n) else (newton (n + 1) n n (add64 n 1 / 2) >>= λ x. some (w32 x))
