-- ===== src/Ssd/Buffer/Account.antt =====
-- ssd.c: the accounts of the write buffer.
use wild_cat.Common.{
  false, ℕ, ◌+◌, ◌-◌, ◌^◌, ◌≤◌, ◌<◌, ◌≡◌, refl, true, some, arith, ltb, leb, w32, ◌⊎◌, inl, inr,
  Bool-cases,
}
use wild_cat.Ssd.Buffer.{Buffer, buffer_allocate, buffer_release}

-- what is left is not more than the whole, and sizes fit the result's type
pub record IsBalanced (buf : Buffer) : Type 0 where
  pub left : buf.remaining ≤ buf.size
  pub fits : buf.size < 2 ^ 32

-- what an allocation of `n` bytes gives: everything, which a release gives back, or nothing
pub record Allocated (buf : Buffer) (n got : ℕ) (buf' : Buffer) : Type 0 where
  pub balanced : IsBalanced buf'
  pub accounted : buf'.remaining + got ≡ buf.remaining
  pub restored : (buffer_release buf' got).remaining ≡ buf.remaining
  pub all_or_nothing : ((n ≤ buf.remaining) × (got ≡ n)) ⊎ ((buf.remaining < n) × (got ≡ 0))

-- An allocation that is not larger than a balanced buffer succeeds: it takes all the bytes where they
-- are left and none otherwise, the buffer stays balanced, and a release of the bytes taken restores
-- it.
pub buffer_allocate-Allocated :
    (buf : Buffer) (n : ℕ)
    → IsBalanced buf
    → n ≤ buf.size
    → (got : ℕ) × (buf' : Buffer) × (buffer_allocate buf n ≡ some (got, buf'))
      × Allocated buf n got buf'
unfolding buffer_allocate buffer_release
buffer_allocate-Allocated buf n b le =
    let size_ok : leb n buf.size ≡ true = ground (arith, le) in
    let left = b.left in
    let fits = b.fits in
    elim (Bool-cases (ltb buf.remaining n)) [
      | inl short ↦ (
        0,
        buf,
        rw (size_ok, short) refl,
        record {
          balanced = b;
          accounted = omega arith;
          restored = omega arith;
          all_or_nothing = inr (ground (arith, short), refl);
        },
      )
      | inr enough ↦
          let n_le : n ≤ buf.remaining = ground (arith, enough) in
          let same : w32 n ≡ n = omega arith in
          (
            n,
            record buf { remaining = buf.remaining - n },
            rw (size_ok, enough, same) refl,
            record {
              balanced = record { left = omega arith; fits = fits };
              accounted = omega arith;
              restored = omega arith;
              all_or_nothing = inl (n_le, refl);
            },
          )
    ]

-- a request for bytes that are left takes all of them
pub buffer_allocate-enough :
    (buf : Buffer) (n : ℕ)
    → n ≤ buf.remaining
    → buf.remaining ≤ buf.size
    → n < 2 ^ 32
    → buffer_allocate buf n ≡ some (n, record buf { remaining = buf.remaining - n })
unfolding buffer_allocate
buffer_allocate-enough buf n room balanced word =
    let fits : leb n buf.size ≡ true = ground (arith, room, balanced) in
    let left : ltb buf.remaining n ≡ false = ground (arith, room) in
    let whole : w32 n ≡ n = ground (arith, word) in rw (buffer_allocate, fits, left, whole) refl
