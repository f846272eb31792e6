-- ===== src/ConvFtl/Rl/Choice.antt =====
-- conv_ftl.c: the action that the agent chooses.
use wild_cat.Common.{
  ℕ, zero, suc, ◌+◌, ◌-◌, ◌*◌, ◌/◌, ◌%◌, ◌≤◌, ◌<◌, ◌≡◌, refl, true, false, arith, ltb, ◌==◌, inl,
  inr, ◌⊎◌, Bool-cases,
}
use wild_cat.Common.Int.{ℤ, ◌≤ℤ◌, ltb_ℤ}
use wild_cat.World.{World, drawn, draw}
use wild_cat.ConvFtl.State.{RlConfig}
use wild_cat.ConvFtl.Rl.{num_a2, num_actions, best_action, rl_decode_action, rl_select_action}

-- `a` is one of the actions `0 .. n`, with the largest value, and the first one of them
pub record IsBest (q : ℕ → ℤ) (n a : ℕ) : Type 0 where
  pub among : a ≤ n
  pub top : (i : ℕ) → i ≤ n → q i ≤ℤ q a
  pub earliest : (i : ℕ) → i < a → ltb_ℤ (q i) (q a) ≡ true

IsBest-zero : (q : ℕ → ℤ) → IsBest q 0 0
IsBest-zero q = record {
  among = omega arith;
  top = λ i le. let e : i ≡ 0 = omega arith in rw e (omega arith);
  earliest = λ i lt. ground arith;
}

module _ (q : ℕ → ℤ) (n a : ℕ) (b : IsBest q n a) where
  last_or_before : (i : ℕ) → i ≤ suc n → (i ≡ suc n) ⊎ (i ≤ n)
  last_or_before i le = elim (Bool-cases (i == suc n)) [
    | inl e ↦ inl (ground arith)
    | inr e ↦ inr (ground arith)
  ]

  better : ltb_ℤ (q a) (q (suc n)) ≡ true → IsBest q (suc n) (suc n)
  better more = record {
    among = omega arith;
    top = λ i le. elim (last_or_before i le) [
      | inl e ↦ rw e (omega arith)
      | inr before ↦ let t = b.top i before in ground arith
    ];
    earliest = λ i lt. let t = b.top i (omega arith) in ground arith;
  }

  no_better : ltb_ℤ (q a) (q (suc n)) ≡ false → IsBest q (suc n) a
  no_better more = record {
    among = let t = b.among in omega arith;
    top = λ i le. elim (last_or_before i le) [
      | inl e ↦ rw e (ground arith)
      | inr before ↦ b.top i before
    ];
    earliest = b.earliest;
  }

-- `best_action` finds the first action of largest value, and that value.
pub best_action-IsBest :
    (q : ℕ → ℤ) (n : ℕ)
    → IsBest q n (best_action q n).0 × ((best_action q n).1 ≡ q (best_action q n).0)
unfolding best_action
best_action-IsBest q zero = (IsBest-zero q, refl)
best_action-IsBest q (suc n) =
    let (b, e) = best_action-IsBest q n in
    let a = (best_action q n).0 in
    elim (Bool-cases (ltb_ℤ (q a) (q (suc n)))) [
      | inl more ↦ rw (e, more) (better q n a b more, refl)
      | inr more ↦ rw (e, more) (no_better q n a b more, refl)
    ]

true_apart : ¬ (true ≡ false)
true_apart = λ e. cc

levels_lem :
    (a : ℕ)
    → a < num_actions
    → (a / num_a2 < 4) × (a % num_a2 < 5) × (a / num_a2 * num_a2 + a % num_a2 ≡ a)
levels_lem a lt = (omega arith, omega arith, omega arith)

-- `rl_select_action` returns one of the 20 actions; where it does not explore, it is the best one
-- of the state's row. `rl_decode_action` splits the action into two levels in the range of their
-- tables, from which it can be read back.
pub rl_select_action_lem :
    (r : RlConfig) (state : ℕ) (w : World)
    → let a = (rl_select_action r state w).0 in
      (a < num_actions)
      × (ltb (drawn w % 1000) r.epsilon ≡ false → IsBest (r.q_table state) (num_actions - 1) a)
      × ((rl_decode_action r a).alpha_level < 4)
      × ((rl_decode_action r a).delta_level < 5)
      × ((rl_decode_action r a).alpha_level * num_a2 + (rl_decode_action r a).delta_level ≡ a)
unfolding rl_select_action rl_decode_action
rl_select_action_lem r state w =
    let (b, _) = best_action-IsBest (r.q_table state) (num_actions - 1) in
    elim (Bool-cases (ltb (drawn w % 1000) r.epsilon)) [
      | inl explores ↦
          let lt : drawn (draw w) % num_actions < num_actions = omega arith in
          let (alpha, delta, back) = levels_lem (drawn (draw w) % num_actions) lt in
          rw explores (lt, λ e. elim (true_apart e) [ ], alpha, delta, back)
      | inr exploits ↦
          let lt : (best_action (r.q_table state) (num_actions - 1)).0 < num_actions =
            let t = b.among in omega arith in
          let (alpha, delta, back) =
            levels_lem (best_action (r.q_table state) (num_actions - 1)).0 lt in
          rw exploits (lt, λ _. b, alpha, delta, back)
    ]
