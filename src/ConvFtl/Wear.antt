-- ===== src/ConvFtl/Wear.antt =====
-- conv_ftl.c: the statistics of erase counts, and the wear gap that is tracked over the collections.
pub mod Extremes
use wild_cat.Common.{ℕ, zero, suc, ◌-◌, ◌^◌, true, ltb, ◌==◌, if◌then◌else◌, sub32, add64}
use wild_cat.Common.Int.{pos, ◌+ℤ◌, ◌-ℤ◌}
use wild_cat.ConvFtl.State.{Line, LineMgmt, WearGapStats}

abbrev pub uint_max : ℕ
uint_max = 2 ^ 32 - 1

-- what `collect_erase_stats` gives to its callers but `conv_flush`, which has a loop of its own
pub record EraseStats : Type 0 where
  pub ec_max : ℕ
  pub ec_min : ℕ
  pub ec_sum : ℕ

pub count_erases : EraseStats → ℕ → EraseStats
count_erases s ec = record {
  ec_max = if ltb s.ec_max ec then ec else s.ec_max;
  ec_min = if ltb ec s.ec_min then ec else s.ec_min;
  ec_sum = add64 s.ec_sum ec;
}

-- the loop over the lines `0 .. n - 1`
pub erase_stats_of : ℕ → (ℕ → Line) → EraseStats
unfolding count_erases
erase_stats_of zero lines = record { ec_max = 0; ec_min = uint_max; ec_sum = 0 }
erase_stats_of (suc n) lines = count_erases (erase_stats_of n lines) (lines n).erase_cnt

unfoldable pub collect_erase_stats : LineMgmt → EraseStats
unfolding erase_stats_of
collect_erase_stats lm =
    let s = erase_stats_of lm.tt_lines lm.lines in
    if lm.tt_lines == 0 then record s { ec_min = 0 } else s

unfoldable pub update_wear_gap : WearGapStats → LineMgmt → WearGapStats
update_wear_gap wgs lm =
    let s = collect_erase_stats lm in
    let cur_range = sub32 s.ec_max s.ec_min in
    if wgs.initialized
    then record wgs {
      accum_diff = wgs.accum_diff +ℤ (pos cur_range -ℤ pos wgs.prev_range);
      samples = add64 wgs.samples 1;
      prev_range = cur_range;
    }
    else record wgs { prev_range = cur_range; initialized = true }
