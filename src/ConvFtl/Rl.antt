-- ===== src/ConvFtl/Rl.antt =====
-- conv_ftl.c: the Q-learning agent that chooses the exponents of the score. An `int64_t` is an
-- integer here.
pub mod Choice
pub mod Rate
use wild_cat.Common.{
  ℕ, zero, suc, ◌-◌, ◌/◌, ◌%◌, ◌^◌, ltb, leb, if◌then◌else◌, update, w32, add32, sub32, mul32,
  add64, sub64,
}
use wild_cat.Common.Int.{ℤ, pos, negsuc, ◌+ℤ◌, ◌-ℤ◌, ◌*ℤ◌, tdiv, ltb_ℤ}
use wild_cat.World.{World, drawn, draw}
use wild_cat.ConvFtl.State.{LineMgmt, RlConfig, ConvFtl}
use wild_cat.ConvFtl.Wear.{collect_erase_stats}

abbrev pub num_a2 : ℕ
num_a2 = 5

abbrev pub num_actions : ℕ
num_actions = 20

abbrev pub num_states : ℕ
num_states = 1728

-- the integers that words of 32 and 64 bits stand for
abbrev pub signed32 : ℕ → ℤ
signed32 w = if ltb w (2 ^ 31) then pos w else negsuc (2 ^ 32 - w - 1)

abbrev pub signed64 : ℕ → ℤ
signed64 w = if ltb w (2 ^ 63) then pos w else negsuc (2 ^ 64 - w - 1)

pub rl_decode_action : RlConfig → ℕ → RlConfig
rl_decode_action r action = record r {
  cur_action = action;
  alpha_level = action / num_a2;
  delta_level = action % num_a2;
}

-- The loop over the actions `1 .. n`: the best action and its value.
unfoldable pub best_action : (ℕ → ℤ) → ℕ → ℕ × ℤ
best_action q zero = (0, q 0)
best_action q (suc n) =
    let (a, best) = best_action q n in
    if ltb_ℤ best (q (suc n)) then (suc n, q (suc n)) else (a, best)

-- the action, with the random numbers that it took
pub rl_select_action : RlConfig → ℕ → World → ℕ × World
unfolding best_action
rl_select_action r state w =
    if ltb (drawn w % 1000) r.epsilon
    then (drawn (draw w) % num_actions, draw (draw w))
    else ((best_action (r.q_table state) (num_actions - 1)).0, draw w)

pub clamp_wear : ℤ → ℤ
clamp_wear e =
    if ltb_ℤ (pos 2000) e then pos 2000 else if ltb_ℤ e (negsuc 1999) then negsuc 1999 else e

-- the `wear_penalty` of `rl_update`
pub wear_penalty : RlConfig → LineMgmt → ℤ
unfolding clamp_wear
wear_penalty r lm =
    let s = collect_erase_stats lm in
    let mean = if ltb 0 lm.tt_lines then w32 (s.ec_sum / lm.tt_lines) else 1 in
    let cur_range = sub32 s.ec_max s.ec_min in
    let prev_range =
      if leb r.prev_erase_min r.prev_erase_max then r.prev_erase_max - r.prev_erase_min else 0 in
    let wear_delta = signed32 (sub32 cur_range prev_range) in
    let delta_term = tdiv (wear_delta *ℤ pos 1000) (add32 mean 1) in
    let level_term = tdiv (pos cur_range *ℤ pos 1000) (add32 mean 1) in
    clamp_wear (delta_term +ℤ tdiv level_term 4)

unfoldable pub waf_penalty : ℕ → ℕ → ℤ
waf_penalty copied ppl = if ltb 0 ppl then tdiv (signed64 copied *ℤ pos 1000) ppl else pos 0

unfoldable pub reward_of : ℤ → ℤ → ℤ
reward_of waf wear = pos 0 -ℤ waf -ℤ tdiv (pos 500 *ℤ wear) 1000

-- the new value of an entry, from the reward, the old value and the best value of the next state
pub q_value : ℤ → ℤ → ℤ → ℤ
q_value reward old_q max_q_next =
    old_q +ℤ tdiv (pos 100 *ℤ (reward +ℤ tdiv (pos 950 *ℤ max_q_next) 1000 -ℤ old_q)) 1000

pub decay_epsilon : ℕ → ℕ
decay_epsilon epsilon = let e = mul32 epsilon 999 / 1000 in if ltb e 50 then 50 else e

unfoldable pub rl_update : ConvFtl → ℕ → RlConfig
unfolding best_action
rl_update ftl new_state =
    let r = ftl.rl in
    let s = collect_erase_stats ftl.lm in
    let waf =
      waf_penalty (sub64 ftl.gc_copied_pages r.prev_copied_pages) (w32 ftl.ssd.sp.pgs_per_line) in
    let reward = reward_of waf (wear_penalty r ftl.lm) in
    let max_q_next = (best_action (r.q_table new_state) (num_actions - 1)).1 in
    let old_q = r.q_table r.cur_state r.cur_action in
    record r {
      q_table =
          update r.q_table r.cur_state
            (update (r.q_table r.cur_state) r.cur_action (q_value reward old_q max_q_next));
      epsilon = decay_epsilon r.epsilon;
      total_episodes = add64 r.total_episodes 1;
      total_reward = r.total_reward +ℤ reward;
      prev_copied_pages = ftl.gc_copied_pages;
      prev_erase_max = s.ec_max;
      prev_erase_min = s.ec_min;
    }

unfoldable pub init_rl : RlConfig
init_rl = record {
  q_table = λ _ _. pos 0;
  cur_state = 0;
  cur_action = 0;
  alpha_level = 1;
  delta_level = 2;
  epsilon = 300;
  prev_copied_pages = 0;
  prev_erase_max = 0;
  prev_erase_min = 0;
  window_hot = 0;
  window_total = 0;
  prev_hot_pct = 0;
  last_victim_ec = 0;
  total_episodes = 0;
  total_reward = pos 0;
}
