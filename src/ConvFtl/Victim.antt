-- ===== src/ConvFtl/Victim.antt =====
-- conv_ftl.c: the choice of the line that garbage collection empties.
pub mod Greedy
pub mod Scored
use wild_cat.Common.{
  ℕ, zero, suc, ◌+◌, ◌-◌, ◌/◌, Bool, true, ◌&&◌, not, Option, none, some, ltb, leb, if◌then◌else◌,
  update, sub32, mul64, sext,
}
use wild_cat.Pqueue.{pqueue_peek, pqueue_pop, pqueue_remove}
use wild_cat.Ssd.Params.{SsdParams}
use wild_cat.ConvFtl.State.{LineMgmt}
use wild_cat.ConvFtl.Score.{Score, compute_victim_score}
use wild_cat.ConvFtl.Lines.{line_ops, victim_heap, with_heap}

-- `v->pos = 0; lm->victim_line_cnt--;`
pub detach : LineMgmt → ℕ → LineMgmt
detach lm x = record lm {
  lines = update lm.lines x (record (lm.lines x) { pos = 0 });
  victim_line_cnt = sub32 lm.victim_line_cnt 1;
}

-- the victim, `none` for NULL
unfoldable pub select_victim_greedy : SsdParams → LineMgmt → Bool → Option ℕ × LineMgmt
unfolding detach
select_victim_greedy spp lm force = elim (pqueue_peek lm.victim_line_pq) [
  | none ↦ (none, lm)
  | some v ↦
      if not force && ltb (spp.pgs_per_line / 8) (sext (lm.lines v).vpc)
      then (none, lm)
      else (some v, detach (with_heap lm (pqueue_pop line_ops (victim_heap lm)).1) v)
]

-- the best line so far, with its score
pub record Best : Type 0 where
  pub line : Option ℕ
  pub score : Score

abbrev pub no_best : Best
no_best = record { line = none; score = record { num = 0; den = 1 } }

-- the test by which a line replaces the best one
pub beats : Score → Best → Bool
beats s best = elim best.line [
  | none ↦ true
  | some _ ↦ ltb (mul64 best.score.num s.den) (mul64 s.num best.score.den)
]

-- The loop of `select_victim_scored` over the `n` entries of the queue from `i` on. Entries are
-- never NULL.
pub best_scored : ℕ → ℕ → (ℕ → ℕ) → (ℕ → Score) → Best → Best
unfolding beats
best_scored zero i d score best = best
best_scored (suc n) i d score best =
    best_scored n (i + 1) d score
      (if beats (score (d i)) best then record { line = some (d i); score = score (d i) } else best)

abbrev pub line_score : LineMgmt → ℕ → ℕ → ℕ → ℕ → Score
line_score lm now alpha_level delta_level x =
    compute_victim_score (lm.lines x) now alpha_level delta_level

pub select_victim_scored : LineMgmt → ℕ → ℕ → ℕ → Option ℕ × LineMgmt
unfolding best_scored detach
select_victim_scored lm now alpha_level delta_level =
    let q = lm.victim_line_pq in
    if leb q.size 1
    then (none, lm)
    else elim (best_scored (q.size - 1) 1 q.d (line_score lm now alpha_level delta_level)
        no_best).line [
          | none ↦ (none, lm)
          | some best ↦
              (some best, detach (with_heap lm (pqueue_remove line_ops (victim_heap lm) best)) best)
        ]

unfoldable pub select_victim_cb : LineMgmt → ℕ → Option ℕ × LineMgmt
unfolding select_victim_scored
select_victim_cb lm now = select_victim_scored lm now 1 0

unfoldable pub select_victim_cat : LineMgmt → ℕ → Option ℕ × LineMgmt
unfolding select_victim_scored
select_victim_cat lm now = select_victim_scored lm now 1 2
