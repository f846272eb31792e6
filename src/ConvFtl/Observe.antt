-- ===== src/ConvFtl/Observe.antt =====
-- conv_ftl.c: `rl_get_state`, the state that the agent sees, as six levels in one index.
pub mod Range
use wild_cat.Common.{
  ℕ, zero, suc, ◌+◌, ◌-◌, ◌*◌, ◌/◌, ◌^◌, ◌&&◌, not, Option, none, some, ltb, leb, ◌==◌,
  if◌then◌else◌, w32, add32, sub32, mul32, add64, sext, lt_int,
}
use wild_cat.Ssd.Params.{SsdParams}
use wild_cat.ConvFtl.State.{Line, LineMgmt, RlConfig}
use wild_cat.ConvFtl.Score.{compute_victim_score}
use wild_cat.ConvFtl.Wear.{uint_max}

-- the variables of the scan of `rl_get_state`
pub record Scan : Type 0 where
  pub greedy_best : Option ℕ
  pub greedy_min_vpc : ℕ
  pub cb_best : Option ℕ
  pub cb_max : ℕ
  pub cat_best : Option ℕ
  pub cat_max : ℕ
  pub v_ec_max : ℕ
  pub v_ec_min : ℕ
  pub v_ec_sum : ℕ
  pub v_count : ℕ

abbrev pub no_scan : Scan
no_scan = record {
  greedy_best = none;
  greedy_min_vpc = uint_max;
  cb_best = none;
  cb_max = 0;
  cat_best = none;
  cat_max = 0;
  v_ec_max = 0;
  v_ec_min = uint_max;
  v_ec_sum = 0;
  v_count = 0;
}

-- one round of the scan, at the line `x`
observe : (ℕ → Line) → ℕ → Scan → ℕ → Scan
observe lines now s x =
    let c = lines x in
    let cb = compute_victim_score c now 1 0 in
    let cat = compute_victim_score c now 1 2 in
    let cb_score = cb.num / cb.den in
    let cat_score = cat.num / cat.den in
    let fewer = ltb c.vpc s.greedy_min_vpc in
    let cb_more = ltb s.cb_max cb_score in
    let cat_more = ltb s.cat_max cat_score in
    record {
      greedy_best = if fewer then some x else s.greedy_best;
      greedy_min_vpc = if fewer then c.vpc else s.greedy_min_vpc;
      cb_best = if cb_more then some x else s.cb_best;
      cb_max = if cb_more then cb_score else s.cb_max;
      cat_best = if cat_more then some x else s.cat_best;
      cat_max = if cat_more then cat_score else s.cat_max;
      v_ec_max = if ltb s.v_ec_max c.erase_cnt then c.erase_cnt else s.v_ec_max;
      v_ec_min = if ltb c.erase_cnt s.v_ec_min then c.erase_cnt else s.v_ec_min;
      v_ec_sum = add64 s.v_ec_sum c.erase_cnt;
      v_count = add32 s.v_count 1;
    }

pub scan_queue : ℕ → ℕ → (ℕ → ℕ) → (ℕ → Line) → ℕ → Scan → Scan
unfolding observe
scan_queue zero i d lines now s = s
scan_queue (suc n) i d lines now s = scan_queue n (i + 1) d lines now (observe lines now s (d i))

-- the gap between the valid pages of two lines, in percent of a line: `s1_gap` and `s2_gap`
pub vpc_gap : SsdParams → (ℕ → Line) → Option ℕ → Option ℕ → ℕ
vpc_gap spp lines none other = 0
vpc_gap spp lines (some a) none = 0
vpc_gap spp lines (some a) (some b) =
    let va = (lines a).vpc in
    let vb = (lines b).vpc in
    if not (a == b) && lt_int va vb
    then w32 (sext (mul32 (sub32 vb va) 100) / spp.pgs_per_line)
    else 0

-- the four classes of a gap, and of the hot write ratio
pub gap_level : ℕ → ℕ
gap_level gap = if ltb gap 3 then 0 else if ltb gap 8 then 1 else if ltb gap 18 then 2 else 3

pub hot_level : ℕ → ℕ
hot_level pct = if ltb pct 10 then 0 else if ltb pct 30 then 1 else if ltb pct 55 then 2 else 3

pub trend_level : ℕ → ℕ
trend_level diff = if lt_int diff (2 ^ 32 - 8) then 0 else if lt_int 8 diff then 2 else 1

pub victim_level : ℕ → ℕ → ℕ
victim_level last mean =
    if leb last mean then 0 else if leb last (add32 mean (mean / 2)) then 1 else 2

pub wear_level : ℕ → ℕ
wear_level rel = if ltb rel 5 then 0 else if ltb rel 20 then 1 else 2

pub hot_pct : RlConfig → ℕ
hot_pct r = if ltb 0 r.window_total then mul32 r.window_hot 100 / r.window_total else 0

-- the index that `rl_get_state` returns for the six levels
pub state_index : ℕ → ℕ → ℕ → ℕ → ℕ → ℕ → ℕ
state_index s1 s2 s3 s4 s5 s6 = w32 (s1 * 432 + s2 * 108 + s3 * 27 + s4 * 9 + s5 * 3 + s6)

pub rl_get_state : SsdParams → LineMgmt → RlConfig → ℕ → ℕ
unfolding scan_queue vpc_gap gap_level hot_level trend_level victim_level wear_level hot_pct
    state_index
rl_get_state spp lm r now =
    let q = lm.victim_line_pq in
    let s = scan_queue (q.size - 1) 1 q.d lm.lines now no_scan in
    let mean = if ltb 0 s.v_count then w32 (s.v_ec_sum / s.v_count) else 0 in
    let rel =
      if ltb 0 s.v_count && ltb 0 mean
      then mul32 (sub32 s.v_ec_max s.v_ec_min) 100 / add32 mean 1
      else 0 in
    state_index (gap_level (vpc_gap spp lm.lines s.greedy_best s.cb_best))
      (gap_level (vpc_gap spp lm.lines s.cb_best s.cat_best)) (hot_level (hot_pct r))
      (trend_level (sub32 (hot_pct r) r.prev_hot_pct)) (victim_level r.last_victim_ec mean)
      (wear_level rel)
