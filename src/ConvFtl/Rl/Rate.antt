-- ===== src/ConvFtl/Rl/Rate.antt =====
-- conv_ftl.c: the numbers of the agent stay in range.
use wild_cat.Common.{ℕ, ◌*◌, ◌≤◌, ◌<◌, ◌≡◌, refl, arith, max, ◌⊎◌, inl, inr}
use wild_cat.Common.Int.{
  ℤ, pos, negsuc, pos_part, neg_part, ◌+ℤ◌, ◌-ℤ◌, ◌*ℤ◌, tdiv, +ℤ_parts, -ℤ_parts,
}
use wild_cat.ConvFtl.State.{RlConfig, LineMgmt}
use wild_cat.ConvFtl.Rl.{q_value, decay_epsilon, clamp_wear, wear_penalty}

-- the absolute value is at most `b`
abbrev pub Within : ℕ → ℤ → Type 0
Within b z = (pos_part z ≤ b) × (neg_part z ≤ b)

-- `decay_epsilon` keeps the exploration rate at 50 or above, never raises a larger rate, and makes a
-- rate above 50 smaller.
pub decay_epsilon_lem :
    (e : ℕ)
    → e ≤ 1000
    → (50 ≤ decay_epsilon e) × (decay_epsilon e ≤ max e 50) × (50 < e → decay_epsilon e < e)
unfolding decay_epsilon
decay_epsilon_lem e h = ground arith

-- The wear penalty lies between -2000 and 2000 whatever the erase counts are.
pub wear_penalty-Within : (r : RlConfig) (lm : LineMgmt) → Within 2000 (wear_penalty r lm)
unfolding wear_penalty clamp_wear
wear_penalty-Within r lm = ground arith

target-Within :
    (b r : ℕ) (reward m : ℤ)
    → 20 * r ≤ b
    → Within r reward
    → Within b m
    → Within b (reward +ℤ tdiv (pos 950 *ℤ m) 1000)
unfolding ◌+ℤ◌ ◌*ℤ◌ tdiv
target-Within b r reward (pos m) h hr hm = ground arith
target-Within b r reward (negsuc m) h hr hm = ground arith

tenth :
    (z : ℤ)
    → let t = tdiv (pos 100 *ℤ z) 1000 in
      (10 * pos_part t ≤ pos_part z) × (10 * neg_part t ≤ neg_part z)
unfolding ◌*ℤ◌ tdiv
tenth (pos z) = ground arith
tenth (negsuc z) = ground arith

one_sided : (z : ℤ) → (pos_part z ≡ 0) ⊎ (neg_part z ≡ 0)
one_sided (pos z) = inr refl
one_sided (negsuc z) = inl refl

nudge-Within :
    (b : ℕ) (old target : ℤ)
    → Within b old
    → Within b target
    → Within b (old +ℤ tdiv (pos 100 *ℤ (target -ℤ old)) 1000)
nudge-Within b old target ho ht =
    let d = target -ℤ old in
    let t = tdiv (pos 100 *ℤ d) 1000 in
    let td = tenth d in
    let pd = -ℤ_parts target old in
    let pn = +ℤ_parts old t in
    ground (arith, one_sided d, one_sided (old +ℤ t), one_sided old, one_sided target, td, pd, pn)

-- With rewards of at most `r`, an entry of at most `b` in absolute value, and a best next value of
-- at most `b`, where `b` is 20 times `r` or more, the new entry is again at most `b`: the table
-- stays bounded.
pub q_value-Within :
    (b r : ℕ) (reward old_q max_q_next : ℤ)
    → 20 * r ≤ b
    → Within r reward
    → Within b old_q
    → Within b max_q_next
    → Within b (q_value reward old_q max_q_next)
unfolding q_value
q_value-Within b r reward old_q max_q_next h hr ho hm =
    nudge-Within b old_q _ ho (target-Within b r reward max_q_next h hr hm)
