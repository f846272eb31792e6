-- ===== src/ConvFtl/Wear/Extremes.antt =====
-- conv_ftl.c: the extremes of the erase counts.
use wild_cat.Common.{
  ℕ, zero, suc, ◌-◌, ◌≤◌, ◌<◌, ◌≡◌, arith, ltb, ◌==◌, false, ◌⊎◌, inl, inr, Bool-cases,
}
use wild_cat.ConvFtl.State.{Line, LineMgmt}
use wild_cat.ConvFtl.Wear.{uint_max, EraseStats, count_erases, erase_stats_of, collect_erase_stats}

-- the extremes bound every erase count, and are erase counts
pub record AreExtremes (lines : ℕ → Line) (n : ℕ) (s : EraseStats) : Type 0 where
  pub below : (i : ℕ) → i < n → (lines i).erase_cnt ≤ s.ec_max
  pub above : (i : ℕ) → i < n → s.ec_min ≤ (lines i).erase_cnt
  pub max_at : (i : ℕ) × (i < n) × ((lines i).erase_cnt ≡ s.ec_max)
  pub min_at : (i : ℕ) × (i < n) × ((lines i).erase_cnt ≡ s.ec_min)

last_or_before : (i n : ℕ) → i < suc n → (i ≡ n) ⊎ (i < n)
last_or_before i n lt = elim (Bool-cases (i == n)) [
  | inl e ↦ inl (ground arith)
  | inr e ↦ inr (ground arith)
]

first-AreExtremes :
    (lines : ℕ → Line)
    → (lines 0).erase_cnt ≤ uint_max
    → AreExtremes lines 1 (erase_stats_of 1 lines)
unfolding erase_stats_of count_erases
first-AreExtremes lines fits = record {
  below = λ i lt. let e : i ≡ 0 = omega arith in rw e (ground (arith, fits));
  above = λ i lt. let e : i ≡ 0 = omega arith in rw e (ground (arith, fits));
  max_at = (0, omega arith, ground (arith, fits));
  min_at = (0, omega arith, ground (arith, fits));
}

next-AreExtremes :
    (lines : ℕ → Line) (n : ℕ)
    → AreExtremes lines n (erase_stats_of n lines)
    → AreExtremes lines (suc n) (count_erases (erase_stats_of n lines) (lines n).erase_cnt)
unfolding count_erases
next-AreExtremes lines n h =
    let (a, a_lt, a_max) = h.max_at in
    let (b, b_lt, b_min) = h.min_at in
    record {
      below = λ i lt. elim (last_or_before i n lt) [
        | inl e ↦ rw e (ground arith)
        | inr before ↦ let u = h.below i before in ground arith
      ];
      above = λ i lt. elim (last_or_before i n lt) [
        | inl e ↦ rw e (ground arith)
        | inr before ↦ let u = h.above i before in ground arith
      ];
      max_at = elim (Bool-cases (ltb (erase_stats_of n lines).ec_max (lines n).erase_cnt)) [
        | inl more ↦ (n, omega arith, ground (arith, more))
        | inr more ↦ (a, omega arith, ground (arith, more))
      ];
      min_at = elim (Bool-cases (ltb (lines n).erase_cnt (erase_stats_of n lines).ec_min)) [
        | inl more ↦ (n, omega arith, ground (arith, more))
        | inr more ↦ (b, omega arith, ground (arith, more))
      ];
    }

erase_stats-AreExtremes :
    (lines : ℕ → Line) (n : ℕ)
    → (lines 0).erase_cnt ≤ uint_max
    → AreExtremes lines (suc n) (erase_stats_of (suc n) lines)
unfolding erase_stats_of
erase_stats-AreExtremes lines zero fits = first-AreExtremes lines fits
erase_stats-AreExtremes lines (suc n) fits =
    next-AreExtremes lines (suc n) (erase_stats-AreExtremes lines n fits)

erase_stats_pos :
    (lines : ℕ → Line) (n m : ℕ)
    → n ≡ suc m
    → (lines 0).erase_cnt ≤ uint_max
    → AreExtremes lines n (erase_stats_of n lines)
erase_stats_pos lines n m e fits = rw e (erase_stats-AreExtremes lines m fits)

-- Of a device with lines, the largest and the smallest erase count that `collect_erase_stats`
-- reports are reached by a line and bound those of all lines.
pub collect_erase_stats-AreExtremes :
    (lm : LineMgmt)
    → 0 < lm.tt_lines
    → (lm.lines 0).erase_cnt ≤ uint_max
    → AreExtremes lm.lines lm.tt_lines (collect_erase_stats lm)
unfolding collect_erase_stats
collect_erase_stats-AreExtremes lm some_lines fits =
    let test : (lm.tt_lines == 0) ≡ false = ground (arith, some_lines) in
    let e : lm.tt_lines ≡ suc (lm.tt_lines - 1) = omega arith in
    rw test (erase_stats_pos lm.lines lm.tt_lines (lm.tt_lines - 1) e fits)
