-- ===== src/Examples/Agent.antt =====
-- The theorems on the agent and on the wear statistics.
use wild_cat.Common.{ℕ, ◌+◌, ◌*◌, ◌%◌, ◌-◌, ◌<◌, ◌≡◌, refl, false, arith, ltb, if◌then◌else◌}
use wild_cat.Common.Int.{ℤ, pos, negsuc}
use wild_cat.World.{World, drawn}
use wild_cat.ConvFtl.State.{LineMgmt, RlConfig}
use wild_cat.ConvFtl.Lines.{init_lines}
use wild_cat.ConvFtl.Rl.{
  init_rl, best_action, rl_select_action, rl_decode_action, num_actions, num_a2,
}
use wild_cat.ConvFtl.Rl.Choice.{IsBest, rl_select_action_lem}
use wild_cat.ConvFtl.Wear.{collect_erase_stats}
use wild_cat.ConvFtl.Wear.Extremes.{AreExtremes, collect_erase_stats-AreExtremes}
use wild_cat.Examples.Device.{small}

-- values that grow to the action 7
values : ℕ → ℤ
values a = if ltb 7 a then negsuc 4 else pos a

best_is_7 : best_action values 19 ≡ (7, pos 7)
unfolding best_action values
best_is_7 = refl

-- the clocks stand, and the first random number makes the agent exploit
abbrev world : World
world = record { clock = λ n. n; clock_reads = 0; random = λ n. 900 + n; random_reads = 0 }

abbrev agent : RlConfig
agent = record init_rl { q_table = λ _. values }

rl_select_action_lem_example :
    let a = (rl_select_action agent 5 world).0 in
    (a < num_actions)
    × (ltb (drawn world % 1000) agent.epsilon ≡ false
        → IsBest (agent.q_table 5) (num_actions - 1) a)
    × ((rl_decode_action agent a).alpha_level < 4)
    × ((rl_decode_action agent a).delta_level < 5)
    × ((rl_decode_action agent a).alpha_level * num_a2 + (rl_decode_action agent a).delta_level ≡ a)
rl_select_action_lem_example = rl_select_action_lem agent 5 world

-- four lines, of which the line 2 was erased nine times
worn : LineMgmt
worn = record (init_lines small) {
  lines = λ i. record {
    id = i;
    ipc = 0;
    vpc = 0;
    pos = 0;
    last_modified_time = 0;
    erase_cnt = if ltb i 2 then 4 else if ltb i 3 then 9 else 1;
  };
  tt_lines = 4;
}

collect_erase_stats-AreExtremes_example :
    AreExtremes worn.lines worn.tt_lines (collect_erase_stats worn)
unfolding worn
collect_erase_stats-AreExtremes_example =
    collect_erase_stats-AreExtremes worn (omega arith) (omega arith)

erase_max : (collect_erase_stats worn).ec_max ≡ 9
unfolding collect_erase_stats worn
erase_max = refl
