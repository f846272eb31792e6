-- ===== src/ConvFtl/Score.antt =====
-- conv_ftl.c: ages, hot degrees, and the score by which victims are compared.
use wild_cat.Common.{
  ℕ, ◌-◌, ◌*◌, ◌/◌, Bool, none, some, ltb, leb, ◌==◌, if◌then◌else◌, add32, add64, mul64, sext,
}
use wild_cat.ConvFtl.Numeric.{isqrt_u64}
use wild_cat.ConvFtl.State.{Line, PageMeta, ConvFtl}

-- 100 ms, 5 s and 60 s, in ns
abbrev pub th_very_hot : ℕ
th_very_hot = 100 * 1000000

abbrev pub th_hot : ℕ
th_hot = 5 * 1000000000

abbrev pub th_warm : ℕ
th_warm = 60 * 1000000000

unfoldable pub get_age_weight : ℕ → ℕ
get_age_weight age_ns =
    if ltb age_ns th_very_hot
    then 1
    else if ltb age_ns th_hot
    then 5
    else if ltb age_ns th_warm
    then 20
    else 100

unfoldable pub elapsed_since : ℕ → ℕ → ℕ
elapsed_since now past = if ltb past now then now - past else 0

unfoldable pub calc_hot_degree : PageMeta → ℕ → ℕ
unfolding get_age_weight elapsed_since
calc_hot_degree pm now =
    if pm.update_cnt == 0
    then 0
    else mul64 pm.update_cnt 1000 / get_age_weight (elapsed_since now pm.last_write_time)

unfoldable pub page_is_hot : ConvFtl → ℕ → ℕ → Bool
page_is_hot ftl lpn now =
    leb ftl.avg_hot_degree (mul64 (calc_hot_degree (ftl.page_meta lpn) now) 16)

-- `isqrt_u64` where it ends, which is below 2 ^ 64 - 1; its callers here stay at most at 2 ^ 32
unfoldable pub isqrt : ℕ → ℕ
isqrt n = elim (isqrt_u64 n) [ none ↦ 0 | some r ↦ r ]

unfoldable pub apply_alpha : ℕ → ℕ → ℕ
apply_alpha aw level =
    if level == 0
    then isqrt aw
    else if level == 1
    then aw
    else if level == 2
    then mul64 aw (isqrt aw)
    else mul64 aw aw

unfoldable pub apply_delta : ℕ → ℕ → ℕ
apply_delta ec1 level =
    if level == 0
    then 1
    else if level == 1
    then isqrt ec1
    else if level == 2
    then ec1
    else if level == 3
    then mul64 ec1 (isqrt ec1)
    else mul64 ec1 ec1

-- a score, as a fraction
pub record Score : Type 0 where
  pub num : ℕ
  pub den : ℕ

unfoldable pub compute_victim_score : Line → ℕ → ℕ → ℕ → Score
compute_victim_score c now alpha_level delta_level =
    let aw = get_age_weight (elapsed_since now c.last_modified_time) in
    let den = mul64 (sext (add32 c.vpc 1)) (apply_delta (add64 c.erase_cnt 1) delta_level) in
    record {
      num = mul64 (apply_alpha aw alpha_level) (sext c.ipc);
      den = if den == 0 then 1 else den;
    }
