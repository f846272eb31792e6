-- ===== src/ConvFtl/Observe/Range.antt =====
-- conv_ftl.c: the state of the agent is a row of its table.
use wild_cat.Common.{
  ℕ, ◌/◌, ◌%◌, ◌<◌, ◌≡◌, arith, ltb, if◌then◌else◌, w32, add32, sub32, mul32, ◌-◌, ◌&&◌,
}
use wild_cat.Ssd.Params.{SsdParams}
use wild_cat.ConvFtl.State.{LineMgmt, RlConfig}
use wild_cat.ConvFtl.Observe.{
  scan_queue, no_scan, vpc_gap, hot_pct, gap_level, hot_level, trend_level, victim_level,
  wear_level, state_index, rl_get_state,
}
use wild_cat.ConvFtl.Rl.{num_states}

gap_level-lt : (gap : ℕ) → gap_level gap < 4
unfolding gap_level
gap_level-lt gap = ground arith

hot_level-lt : (pct : ℕ) → hot_level pct < 4
unfolding hot_level
hot_level-lt pct = ground arith

trend_level-lt : (diff : ℕ) → trend_level diff < 3
unfolding trend_level
trend_level-lt diff = ground arith

victim_level-lt : (last mean : ℕ) → victim_level last mean < 3
unfolding victim_level
victim_level-lt last mean = ground arith

wear_level-lt : (rel : ℕ) → wear_level rel < 3
unfolding wear_level
wear_level-lt rel = ground arith

-- Six levels in their ranges have an index in the table, and can be read back from it.
pub state_index_digits :
    (s1 s2 s3 s4 s5 s6 : ℕ)
    → s1 < 4
    → s2 < 4
    → s3 < 4
    → s4 < 3
    → s5 < 3
    → s6 < 3
    → let i = state_index s1 s2 s3 s4 s5 s6 in
      (i < num_states)
      × (i / 432 ≡ s1)
      × ((i / 108) % 4 ≡ s2)
      × ((i / 27) % 4 ≡ s3)
      × ((i / 9) % 3 ≡ s4)
      × ((i / 3) % 3 ≡ s5)
      × (i % 3 ≡ s6)
unfolding state_index
state_index_digits s1 s2 s3 s4 s5 s6 h1 h2 h3 h4 h5 h6 =
    (omega arith, omega arith, omega arith, omega arith, omega arith, omega arith, omega arith)

-- The state that `rl_get_state` returns is a row of the agent's table, whatever the lines hold.
pub rl_get_state-lt :
    (spp : SsdParams) (lm : LineMgmt) (r : RlConfig) (now : ℕ)
    → rl_get_state spp lm r now < num_states
unfolding rl_get_state
rl_get_state-lt spp lm r now =
    let q = lm.victim_line_pq in
    let s = scan_queue (q.size - 1) 1 q.d lm.lines now no_scan in
    let mean = if ltb 0 s.v_count then w32 (s.v_ec_sum / s.v_count) else 0 in
    let rel =
      if ltb 0 s.v_count && ltb 0 mean
      then mul32 (sub32 s.v_ec_max s.v_ec_min) 100 / add32 mean 1
      else 0 in
    (state_index_digits _ _ _ _ _ _ (gap_level-lt (vpc_gap spp lm.lines s.greedy_best s.cb_best))
      (gap_level-lt (vpc_gap spp lm.lines s.cb_best s.cat_best)) (hot_level-lt (hot_pct r))
      (trend_level-lt (sub32 (hot_pct r) r.prev_hot_pct)) (victim_level-lt r.last_victim_ec mean)
      (wear_level-lt rel)).0
