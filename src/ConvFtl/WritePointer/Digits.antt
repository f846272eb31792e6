-- ===== src/ConvFtl/WritePointer/Digits.antt =====
-- The arithmetic of a write pointer's page and of the carries to its other coordinates.
use native.Mathlib.Nat.{div-add-mod, mod-lt}
use wild_cat.Common.{
  ℕ, ◌+◌, ◌-◌, ◌*◌, ◌/◌, ◌%◌, ◌^◌, ◌≤◌, ◌<◌, ◌≡◌, ◌≢◌, sym, ap, ◌∙◌, true, arith, ltb, ◌==◌, add32,
  ◌⊎◌, inl, inr, Bool-cases,
}
use wild_cat.Common.Radix.{low_digit, high_digit}

-- the next page is in the same word line, or this one was its last
pub inside_wordline :
    (pg ops : ℕ)
    → 0 < ops
    → (((pg + 1) % ops ≡ pg % ops + 1) × ((pg + 1) / ops ≡ pg / ops))
      ⊎ (((pg + 1) % ops ≡ 0)
          × (pg % ops + 1 ≡ ops)
          × (ops ≤ pg + 1)
          × (pg + 1 ≡ (pg / ops + 1) * ops)
          × ((pg + 1 - ops) % ops ≡ 0)
          × ((pg + 1 - ops) / ops ≡ pg / ops))
inside_wordline pg ops pos =
    let q = pg / ops in
    let r = pg % ops in
    let split : pg ≡ q * ops + r = omega (arith, div-add-mod pg ops) in
    elim (Bool-cases (ltb (r + 1) ops)) [
      | inl lt ↦
          let lt' : r + 1 < ops = ground arith in
          let e : pg + 1 ≡ q * ops + (r + 1) = omega arith in
          inl (
            ap (λ x. x % ops) e ∙ low_digit q (r + 1) ops lt',
            ap (λ x. x / ops) e ∙ high_digit q (r + 1) ops lt',
          )
      | inr ge ↦
          let last : r + 1 ≡ ops = ground (arith, mod-lt pg {m = ops} pos) in
          let e : pg + 1 ≡ (q + 1) * ops + 0 = omega arith in
          let e' : pg + 1 - ops ≡ q * ops + 0 = omega arith in
          inr (
            ap (λ x. x % ops) e ∙ low_digit (q + 1) 0 ops pos,
            last,
            omega arith,
            omega arith,
            ap (λ x. x % ops) e' ∙ low_digit q 0 ops pos,
            ap (λ x. x / ops) e' ∙ high_digit q 0 ops pos,
          )
    ]

pub no_wrap : (a : ℕ) → a < 2 ^ 31 → add32 a 1 ≡ a + 1
no_wrap a small = omega arith

pub zero_apart : (n : ℕ) → 0 ≢ n + 1
zero_apart n = λ e. omega arith

pub multiple : (a n : ℕ) → 0 < n → (a * n) % n ≡ 0
multiple a n pos =
    let e : a * n ≡ a * n + 0 = omega arith in ap (λ x. x % n) e ∙ low_digit a 0 n pos

-- the last digits are full, and one more makes them zero
pub carry_ch :
    (a l n o c r : ℕ)
    → n ≡ c + 1
    → r + 1 ≡ o
    → ((a + (l + 1)) * n + 0) * o + 0 ≡ ((a + l) * n + c) * o + r + 1
carry_ch a l n o c r hn ho = rw (hn, sym ho) (omega arith)

pub carry_lun :
    (q luns l n o c r : ℕ)
    → luns ≡ l + 1
    → n ≡ c + 1
    → r + 1 ≡ o
    → ((q + 1) * luns * n) * o ≡ ((q * luns + l) * n + c) * o + r + 1
carry_lun q luns l n o c r hl hn ho = rw (hl, hn, sym ho) (omega arith)

pub plus_zero : (a : ℕ) → a ≡ a + 0
plus_zero a = omega arith

pub ==→≡ : (a b : ℕ) → (a == b) ≡ true → a ≡ b
==→≡ a b h = ground (arith, h)

pub zero_digits : (n : ℕ) → 0 < n → (0 / n ≡ 0) × (0 % n ≡ 0)
zero_digits n pos =
    let e : 0 ≡ 0 * n + 0 = omega arith in
    (ap (λ x. x / n) e ∙ high_digit 0 0 n pos, ap (λ x. x % n) e ∙ low_digit 0 0 n pos)
