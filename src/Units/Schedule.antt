-- ===== src/Units/Schedule.antt =====
-- The time of a command on the I/O units.
use native.Mathlib.Nat.{mul-le-mul_left}
use wild_cat.Common.{
  update_here, ℕ, zero, suc, ◌+◌, ◌-◌, ◌*◌, ◌^◌, ◌≤◌, ◌<◌, ◌≡◌, refl, ◌∙◌, ap, true, false, Option,
  some, ◌⊎◌, inl, inr, Bool-cases, ◌==◌, max, min, update, add64, arith,
}
use wild_cat.Units.{
  UnitConfig, UnitTimes, io_unit_size, first_unit, units_of, next_unit, done_at, unit_rounds,
  schedule_io_units, schedule_flush,
}

-- `n` units of `size` bytes are as many as it takes for `length` bytes, and at least one.
pub record Covers (size length n : ℕ) : Type 0 where
  pub some_unit : 1 ≤ n
  pub enough : length ≤ n * size
  pub needed : ((n - 1) * size < length) ⊎ (n ≡ 1)

one_unit_le : (size length : ℕ) → Covers size length 1 → length ≤ size
one_unit_le size length c = let e = c.enough in omega (arith, e)

units_lt : (size length n : ℕ) → Covers size length (suc (suc n)) → size < length
units_lt size length n c = elim c.needed [
  | inl more ↦ grind (arith, more)
  | inr one ↦ absurd (omega (arith, one))
]

rest-Covers :
    (size length n : ℕ) → Covers size length (suc (suc n)) → Covers size (length - size) (suc n)
rest-Covers size length n c =
    let longer = units_lt size length n c in
    let enough = c.enough in
    record {
      some_unit = omega arith;
      enough = grind (arith, enough);
      needed = elim c.needed [
        | inl more ↦ inl (grind (arith, more, longer))
        | inr one ↦ absurd (omega (arith, one))
      ];
    }

one_more : (n l : ℕ) → suc (suc n) * l ≡ l + suc n * l
one_more n l = grind arith

pub flush-le : (n : ℕ) (stat : ℕ → ℕ) (u : ℕ) → u < n → stat u ≤ schedule_flush n stat
unfolding schedule_flush
flush-le zero stat u lt = elim lt [ ]
flush-le (suc n) stat u lt = elim (Bool-cases (u == n)) [
  | inl same ↦ let e : u ≡ n = ground (arith, same) in rw e (omega arith)
  | inr other ↦ let rest = flush-le n stat u (ground (arith, lt, other)) in omega (arith, rest)
]

module _ (c : UnitConfig) (times : UnitTimes) (units : 0 < c.nr_io_units) where
  -- the outcome of the rounds: the time, and a unit that is busy at least until then
  abbrev Ends : Option (ℕ × (ℕ → ℕ)) → ℕ → Type 0
  Ends r time =
      (stat : ℕ → ℕ) × (unit : ℕ) × (r ≡ some (time, stat))
      × (unit < c.nr_io_units)
      × (time ≤ stat unit)

  unit_rounds-step :
      (fuel unit left length latest : ℕ) (stat : ℕ → ℕ)
      → (length - min length (io_unit_size c) == 0) ≡ false
      → length - min length (io_unit_size c) ≡ length - io_unit_size c
      → add64 latest times.latency ≡ latest + times.latency
      → unit_rounds (suc fuel) c times stat unit left length latest
        ≡ unit_rounds fuel c times
            (update stat unit (done_at times left (latest + times.latency)))
            (next_unit c unit)
            (left - 1)
            (length - io_unit_size c)
            (latest + times.latency)
  unfolding unit_rounds
  unit_rounds-step fuel unit left length latest stat more less time =
      rw (unit_rounds, more, less, time) refl

  unit_rounds-Ends :
      (fuel n unit left length latest : ℕ) (stat : ℕ → ℕ)
      → n ≤ fuel
      → unit < c.nr_io_units
      → Covers (io_unit_size c) length n
      → latest + n * times.latency + times.trailing < 2 ^ 64
      → Ends (unit_rounds fuel c times stat unit left length latest) (latest + n * times.latency)
  unfolding unit_rounds
  unit_rounds-Ends fuel zero unit left length latest stat le lt cov fits =
      absurd (let o = cov.some_unit in omega (arith, o))
  unit_rounds-Ends zero (suc n) unit left length latest stat le lt cov fits =
      absurd (omega (arith, le))
  unit_rounds-Ends (suc fuel) (suc zero) unit left length latest stat le lt cov fits =
      let short = one_unit_le (io_unit_size c) length cov in
      let rest : (length - min length (io_unit_size c) == 0) ≡ true = ground (arith, short) in
      let time : add64 latest times.latency ≡ latest + 1 * times.latency = omega (arith, fits) in
      let stat' = update stat unit (done_at times left (add64 latest times.latency)) in
      let late : latest + 1 * times.latency ≤ done_at times left (add64 latest times.latency) =
        ground (arith, fits) in
      (
        stat',
        unit,
        rw (unit_rounds, rest) (ap (λ x. some (x, stat')) time),
        lt,
        rw (update_here stat unit (done_at times left (add64 latest times.latency))) late,
      )
  unit_rounds-Ends (suc fuel) (suc (suc n)) unit left length latest stat le lt cov fits =
      let longer = units_lt (io_unit_size c) length n cov in
      let rest : (length - min length (io_unit_size c) == 0) ≡ false = ground (arith, longer) in
      let less : length - min length (io_unit_size c) ≡ length - io_unit_size c =
        omega (arith, longer) in
      let product = one_more n times.latency in
      let time : add64 latest times.latency ≡ latest + times.latency =
        omega (arith, fits, product) in
      let sum : latest + times.latency + suc n * times.latency
          ≡ latest + suc (suc n) * times.latency =
        omega (arith, product) in
      let stat' = update stat unit (done_at times left (latest + times.latency)) in
      let inside : next_unit c unit < c.nr_io_units = ground (arith, units) in
      let (stat'', last, e, last_in, busy) =
        unit_rounds-Ends fuel (suc n) (next_unit c unit) (left - 1) (length - io_unit_size c)
          (latest + times.latency) stat' (omega (arith, le)) inside
          (rest-Covers (io_unit_size c) length n cov) (omega (arith, fits, product)) in
      (
        stat'',
        last,
        unit_rounds-step fuel unit left length latest stat rest less time
            ∙ e
            ∙ ap (λ x. some (x, stat'')) sum,
        last_in,
        rw (← sum) busy,
      )

  rounds-le : (size length n : ℕ) → 0 < size → Covers size length n → n ≤ suc length
  rounds-le size length n pos cov = elim cov.needed [
    | inl more ↦
        let part : (n - 1) * 1 ≤ (n - 1) * size = mul-le-mul_left (n - 1) pos in
        omega (arith, more, part)
    | inr one ↦ omega (arith, one)
  ]

  -- Where no time wraps around, a command on `n` units ends, and is done after the delay and `n`
  -- latencies from its start, or from the time at which its first unit is free; a flush that
  -- follows is not done before it.
  pub schedule_io_units-Ends :
      (stat : ℕ → ℕ) (lba length start n : ℕ)
      → 0 < io_unit_size c
      → Covers (io_unit_size c) length n
      → max start (stat (first_unit c lba)) + times.delay + n * times.latency + times.trailing
        < 2 ^ 64
      → (stat' : ℕ → ℕ) × (schedule_io_units c times stat lba length start
          ≡ some (max start (stat (first_unit c lba)) + times.delay + n * times.latency, stat'))
        × (max start (stat (first_unit c lba)) + times.delay + n * times.latency
            ≤ schedule_flush c.nr_io_units stat')
  unfolding schedule_io_units
  schedule_io_units-Ends stat lba length start n pos cov fits =
      let unit = first_unit c lba in
      let begin = max start (stat unit) + times.delay in
      let inside : unit < c.nr_io_units = omega (arith, units) in
      let time : add64 (max start (stat unit)) times.delay ≡ begin = omega (arith, fits) in
      let (stat', last, e, last_in, busy) =
        unit_rounds-Ends (suc length) n unit (min c.nr_io_units (units_of c length)) length begin
          stat (rounds-le (io_unit_size c) length n pos cov) inside cov fits in
      (
        stat',
        ap
              (λ b.
                unit_rounds (suc length) c times stat unit (min c.nr_io_units (units_of c length))
                  length b)
              time
            ∙ e,
        (let below = flush-le c.nr_io_units stat' last last_in in omega (arith, below, busy)),
      )
