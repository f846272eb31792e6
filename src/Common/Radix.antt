-- ===== src/Common/Radix.antt =====
-- Numbers written with two digits, the lower one below `n`.
use native.Mathlib.Nat.{
  mul-le-mul_right, mod-eq_of_lt, mul-add-div_right, mul-add-mod_self_right, div-eq_of_lt,
}
use Prim.Native.Nat.{ℕ, ◌+◌, ◌*◌, ◌/◌, ◌%◌, ◌≤◌, ◌<◌}
use mathlib.Core.Path.{◌≡◌, sym, ap, ◌∙◌}
use native.Mathlib.Omega.{arith}

pub low_digit : (a b n : ℕ) → b < n → (a * n + b) % n ≡ b
low_digit a b n h = rw mul-add-mod_self_right (mod-eq_of_lt h)

pub high_digit : (a b n : ℕ) → b < n → (a * n + b) / n ≡ a
high_digit a b n h =
    let pos : 0 < n = omega arith in rw (mul-add-div_right pos a b, div-eq_of_lt h) (omega arith)

pub digits_eq : (a b c d n : ℕ) → b < n → d < n → a * n + b ≡ c * n + d → (a ≡ c) × (b ≡ d)
digits_eq a b c d n hb hd e = (
  sym (high_digit a b n hb) ∙ ap (λ k. k / n) e ∙ high_digit c d n hd,
  sym (low_digit a b n hb) ∙ ap (λ k. k % n) e ∙ low_digit c d n hd,
)

pub digits-lt : (a b m n : ℕ) → a < m → b < n → a * n + b < m * n
digits-lt a b m n ha hb =
    let row : (a + 1) * n ≤ m * n = mul-le-mul_right n (omega arith) in omega (arith, row)
