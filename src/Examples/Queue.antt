-- ===== src/Examples/Queue.antt =====
-- The theorems on the victim queue, with the lines 5 and 6 in it.
use native.Mathlib.Nat.{mul-le-mul}
use wild_cat.Pqueue.{
  Heap, pqueue_peek, pqueue_insert, pqueue_pop, pqueue_remove, pqueue_change_priority,
}
use wild_cat.Common.{
  ℕ, ◌+◌, ◌*◌, ◌^◌, ◌⊎◌, inl, inr, ◌≤◌, ◌<◌, ◌≡◌, refl, true, some, [], arith, ◌==◌, if◌then◌else◌,
  ◌↔◌,
}
use wild_cat.Pqueue.{pqueue_is_valid}
use wild_cat.Pqueue.Check.{pqueue_is_valid-IsOrdered}
use wild_cat.Pqueue.Order.{IsOrdered, Holds, IsValid}
use wild_cat.Pqueue.Insert.{Inserted, insert-Inserted}
use wild_cat.Pqueue.Remove.{Removed, remove-Removed, Popped, pop-Popped}
use wild_cat.Pqueue.Reprioritize.{Reprioritized, change_priority-Reprioritized}
use wild_cat.ConvFtl.State.{Line, LineMgmt}
use wild_cat.ConvFtl.Lines.{line_ops, victim_heap}
use wild_cat.ConvFtl.Lines.Queue.{line_laws, stored_pri}
use wild_cat.ConvFtl.Score.{
  compute_victim_score, apply_alpha, apply_delta, get_age_weight, elapsed_since,
}
use wild_cat.ConvFtl.Victim.{select_victim_greedy, select_victim_scored, line_score}
use wild_cat.ConvFtl.Victim.Greedy.{InQueue, Chosen, select_victim_greedy-Chosen}
use wild_cat.ConvFtl.Victim.Scored.{IsComparable, ChosenByScore, select_victim_scored-Chosen}
use wild_cat.Examples.Device.{small}

-- the line 5 has 2 valid pages, the line 6 has 4
abbrev lm : LineMgmt
lm = record {
  lines = λ i. record {
    id = i;
    ipc = 3;
    vpc = if i == 5 then 2 else 4;
    pos = if i == 5 then 1 else if i == 6 then 2 else 0;
    last_modified_time = 0;
    erase_cnt = 0;
  };
  free_line_list = [];
  victim_line_pq = record { d = λ j. j + 4; size = 3; avail = 9; step = 9 };
  full_line_list = [];
  tt_lines = 8;
  free_line_cnt = 0;
  victim_line_cnt = 2;
  full_line_cnt = 0;
}

abbrev heap : Heap (ℕ → Line)
heap = victim_heap lm

queue-IsValid : IsValid line_ops heap
queue-IsValid = record {
  sized = omega arith;
  fits = omega arith;
  ordered = λ c two inside. let e : c ≡ 2 = omega arith in rw e (omega arith);
  known = λ j low inside. ground arith;
}

Holds-5 : Holds line_ops heap 5
Holds-5 = (omega arith, omega arith, refl)

insert-Inserted_example : Inserted line_ops line_laws heap 7 (pqueue_insert line_ops heap 7)
insert-Inserted_example =
    insert-Inserted line_ops line_laws heap 7 queue-IsValid (λ h. omega (arith, h.0)) (omega arith)

remove-Removed_example : Removed line_ops line_laws heap 5 (pqueue_remove line_ops heap 5)
remove-Removed_example = remove-Removed line_ops line_laws heap 5 queue-IsValid Holds-5

pop-Popped_example : Popped line_ops line_laws heap (pqueue_pop line_ops heap)
pop-Popped_example = pop-Popped line_ops line_laws heap queue-IsValid (λ e. omega (arith, e))

change_priority-Reprioritized_example :
    Reprioritized line_ops line_laws heap 5 7 (pqueue_change_priority line_ops heap 7 5)
change_priority-Reprioritized_example =
    change_priority-Reprioritized line_ops line_laws heap 5 7 queue-IsValid Holds-5
      (stored_pri lm.lines 5 7 (omega arith))

select_victim_greedy-Chosen_example : Chosen lm (select_victim_greedy small lm true)
select_victim_greedy-Chosen_example =
    select_victim_greedy-Chosen small lm queue-IsValid (λ e. omega (arith, e))

five_or_six : (x : ℕ) → InQueue lm x → (x ≡ 5) ⊎ (x ≡ 6)
five_or_six x (low, inside, self) = ground (arith, low, inside, self)

-- the scores are 15/3 and 15/5 or less
score_small :
    (x : ℕ)
    → (x ≡ 5) ⊎ (x ≡ 6)
    → let s = line_score lm 100 1 0 x in (0 < s.den) × (s.den < 2 ^ 20) × (s.num < 2 ^ 20)
unfolding compute_victim_score apply_alpha apply_delta get_age_weight elapsed_since
score_small x (inl e) = rw e (omega arith, omega arith, omega arith)
score_small x (inr e) = rw e (omega arith, omega arith, omega arith)

small_product : (a b : ℕ) → a < 2 ^ 20 → b < 2 ^ 20 → a * b < 2 ^ 64
small_product a b ha hb =
    let le : a * b ≤ 2 ^ 20 * 2 ^ 20 =
      mul-le-mul {n₂ = 2 ^ 20} {m₂ = 2 ^ 20} (omega (arith, ha)) (omega (arith, hb)) in
    omega (arith, le)

comparable :
    (x y : ℕ)
    → InQueue lm x
    → InQueue lm y
    → IsComparable (line_score lm 100 1 0 x) (line_score lm 100 1 0 y)
comparable x y hx hy =
    let (px, dx, nx) = score_small x (five_or_six x hx) in
    let (py, dy, ny) = score_small y (five_or_six y hy) in
    record {
      den_pos = px;
      den_pos' = py;
      fits = small_product _ _ nx dy;
      fits' = small_product _ _ ny dx;
    }

select_victim_scored-Chosen_example :
    ChosenByScore lm (line_score lm 100 1 0) (select_victim_scored lm 100 1 0)
select_victim_scored-Chosen_example =
    select_victim_scored-Chosen lm 100 1 0 queue-IsValid (λ e. omega (arith, e)) comparable

greedy_takes_5 : (select_victim_greedy small lm true).0 ≡ some 5
unfolding select_victim_greedy pqueue_peek
greedy_takes_5 = refl

pqueue_is_valid-IsOrdered_example : (pqueue_is_valid line_ops heap ≡ true) ↔ IsOrdered line_ops heap
pqueue_is_valid-IsOrdered_example = pqueue_is_valid-IsOrdered line_ops line_laws heap
