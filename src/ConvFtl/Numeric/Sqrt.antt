-- ===== src/ConvFtl/Numeric/Sqrt.antt =====
-- The result of `isqrt_u64`.
use native.Mathlib.Nat.{mul-le-mul, mod-eq_of_lt, mul-div-le, lt-mul-div-succ}
use wild_cat.Common.{
  ℕ, zero, suc, ◌+◌, ◌-◌, ◌*◌, ◌/◌, ◌^◌, ◌≤◌, ◌<◌, ◌≡◌, refl, some, arith, false, ltb, leb, ◌==◌,
  add64, w32, inl, inr, Bool-cases,
}
use wild_cat.ConvFtl.Numeric.{newton, isqrt_u64}

-- `r` is the floor of the square root of `n`
abbrev pub IsSqrt : ℕ → ℕ → Type 0
IsSqrt n r = (r * r ≤ n) × (n < (r + 1) * (r + 1))

am_gm_from : (a d : ℕ) → 4 * (a * (a + d)) ≤ (a + (a + d)) * (a + (a + d))
am_gm_from a d = omega arith

am_gm : (a b : ℕ) → 4 * (a * b) ≤ (a + b) * (a + b)
am_gm a b = elim (Bool-cases (leb a b)) [
  | inl le ↦ let d = b - a in let e : a + d ≡ b = ground arith in rw (← e) (am_gm_from a d)
  | inr gt ↦
      let d = a - b in let e : b + d ≡ a = ground arith in rw (← e) (omega (arith, am_gm_from b d))
]

-- Newton's step from any positive `x` does not pass below the root.
newton_above : (n x : ℕ) → 1 ≤ x → n < ((x + n / x) / 2 + 1) * ((x + n / x) / 2 + 1)
newton_above n x low =
    let q = n / x in
    let s = (x + q) / 2 + 1 in
    let below : n < x * (q + 1) = lt-mul-div-succ n low in
    let half : x + (q + 1) ≤ 2 * s = omega arith in
    let squared : (x + (q + 1)) * (x + (q + 1)) ≤ (2 * s) * (2 * s) = mul-le-mul half half in
    omega (arith, below, squared, am_gm x (q + 1))

corner : (y q : ℕ) → 1 ≤ y → 1 ≤ q → y + q ≤ y * q + 1
corner (suc y) (suc q) hy hq = omega arith
corner zero q hy hq = absurd (omega arith)
corner (suc y) zero hy hq = absurd (omega arith)

step_bound : (n y : ℕ) → 1 ≤ y → y ≤ n → y + n / y ≤ n + 1
step_bound n y low high =
    let q_low : 1 ≤ n / y = grind (arith, lt-mul-div-succ n low) in
    omega (arith, mul-div-le n y, corner y (n / y) low q_low)

newton_exits : (n x : ℕ) → 1 ≤ x → x ≤ (x + n / x) / 2 → x * x ≤ n
newton_exits n x low h =
    let q = n / x in
    let le : x ≤ q = omega arith in
    let sq : x * x ≤ x * q = mul-le-mul {n₁ = x} {m₁ = x} {n₂ = x} {m₂ = q} (omega arith) le in
    omega (arith, sq, mul-div-le n x)

-- The loop returns the root, from any `x` at or above it.
newton-IsSqrt :
    (fuel n x y : ℕ)
    → 2 ≤ n
    → n < 2 ^ 64 - 1
    → 1 ≤ x
    → x ≤ n
    → x < fuel
    → y ≡ (x + n / x) / 2
    → n < (x + 1) * (x + 1)
    → (r : ℕ) × (newton fuel n x y ≡ some r) × IsSqrt n r
unfolding newton
newton-IsSqrt zero n x y two small low high f e above = absurd (omega arith)
newton-IsSqrt (suc fuel) n x y two small low high f e above = elim (Bool-cases (ltb y x)) [
  | inr stop ↦
      let exits : x ≤ (x + n / x) / 2 = ground arith in
      rw (stop, newton) (x, refl, (newton_exits n x low exits, above))
  | inl more ↦
      let less : y < x = ground arith in
      let q_two : (x ≡ 1) → n / x ≡ n = λ one. rw one (omega arith) in
      let y_low : 1 ≤ y = ground (arith, q_two) in
      let not_zero : (y == 0) ≡ false = ground arith in
      let bound = step_bound n y y_low (omega arith) in
      let exact : add64 y (n / y) ≡ y + n / y = mod-eq_of_lt (omega arith) in
      rw (more, not_zero, newton)
        (newton-IsSqrt fuel n y (add64 y (n / y) / 2) two small y_low (omega arith) (omega arith)
          (rw exact refl) (rw e (newton_above n x low)))
]

root_small : (n r : ℕ) → n < 2 ^ 64 → r * r ≤ n → r < 2 ^ 32
root_small n r small sq = elim (Bool-cases (ltb r (2 ^ 32))) [
  | inl lt ↦ ground arith
  | inr ge ↦
      let big : 2 ^ 32 ≤ r = ground arith in
      let product : 2 ^ 32 * 2 ^ 32 ≤ r * r = mul-le-mul big big in absurd (omega (arith, product))
]

-- For every 64-bit number but the greatest, `isqrt_u64` ends with the floor of the square root: no
-- division by zero, no wrap-around, and enough fuel.
pub isqrt_u64-IsSqrt : (n : ℕ) → n < 2 ^ 64 - 1 → (r : ℕ) × (isqrt_u64 n ≡ some r) × IsSqrt n r
unfolding isqrt_u64
isqrt_u64-IsSqrt n small = elim (Bool-cases (leb n 1)) [
  | inl tiny ↦ let one : n ≤ 1 = ground arith in rw tiny (w32 n, refl, (grind arith, grind arith))
  | inr larger ↦
      let two : 2 ≤ n = ground arith in
      let exact : add64 n 1 ≡ n + 1 = mod-eq_of_lt (omega arith) in
      let self : n / n ≡ 1 = grind arith in
      let (r, e, is) =
        newton-IsSqrt (n + 1) n n (add64 n 1 / 2) two small (omega arith) (omega arith)
          (omega arith) (rw (exact, self) refl) (omega arith) in
      let fits : w32 r ≡ r = mod-eq_of_lt (root_small n r (omega arith) is.0) in
      rw (larger, e, fits) (r, refl, is)
]
