-- ===== src/ConvFtl/Victim/Scored.antt =====
-- The scored policies take a line that no other line of the queue beats. Scores are compared by
-- the products across, which must fit 64 bits.
use native.Mathlib.Nat.{le_of_mul-le-mul_right, mul-le-mul_right, mod-eq_of_lt}
use wild_cat.Common.{
  ℕ, zero, suc, ◌+◌, ◌-◌, ◌*◌, ◌^◌, ◌≤◌, ◌<◌, ◌≡◌, ◌≢◌, refl, ◌↔◌, false, Option, some, arith, ltb,
  leb, if◌then◌else◌, mul64, sub32, inl, inr, Bool-cases,
}
use wild_cat.Pqueue.{pqueue_remove}
use wild_cat.Pqueue.Remove.{remove-Removed}
use wild_cat.ConvFtl.State.{LineMgmt}
use wild_cat.ConvFtl.Lines.{line_ops, victim_heap}
use wild_cat.ConvFtl.Lines.Queue.{line_laws}
use wild_cat.ConvFtl.Victim.Greedy.{InQueue, QueueIsValid, detach-queue}
use wild_cat.ConvFtl.Score.{Score}
use wild_cat.ConvFtl.Victim.{
  detach, Best, no_best, beats, best_scored, line_score, select_victim_scored,
}

-- `s` is at most `t`
abbrev pub NotAbove : Score → Score → Type 0
NotAbove s t = s.num * t.den ≤ t.num * s.den

NotAbove-trans : (a b c : Score) → 0 < b.den → NotAbove a b → NotAbove b c → NotAbove a c
NotAbove-trans a b c pos h k =
    let h' : a.num * b.den * c.den ≤ b.num * a.den * c.den = mul-le-mul_right c.den h in
    let k' : b.num * c.den * a.den ≤ c.num * b.den * a.den = mul-le-mul_right a.den k in
    le_of_mul-le-mul_right {k = b.den} (omega (arith, h', k')) pos

-- the products of two scores fit 64 bits, and neither divides by zero
pub record IsComparable (s t : Score) : Type 0 where
  pub den_pos : 0 < s.den
  pub den_pos' : 0 < t.den
  pub fits : s.num * t.den < 2 ^ 64
  pub fits' : t.num * s.den < 2 ^ 64

-- the best of the entries seen so far: one of them, above which none lies
record Leads (d : ℕ → ℕ) (score : ℕ → Score) (i : ℕ) (b : Best) : Type 0 where
  entry : ℕ
  low : 1 ≤ entry
  seen : entry < i
  line : b.line ≡ some (d entry)
  num : b.score.num ≡ (score (d entry)).num
  den : b.score.den ≡ (score (d entry)).den
  top : (j : ℕ) → 1 ≤ j → j < i → NotAbove (score (d j)) (score (d entry))

abbrev replaced : Best → Score → ℕ → Best
replaced b s x = if beats s b then record { line = some x; score = s } else b

first-Leads :
    (d : ℕ → ℕ) (score : ℕ → Score) → Leads d score 2 (replaced no_best (score (d 1)) (d 1))
unfolding beats
first-Leads d score = record {
  entry = 1;
  low = omega arith;
  seen = omega arith;
  line = refl;
  num = refl;
  den = refl;
  top = λ j p q. let one : j ≡ 1 = omega arith in rw one (omega arith);
}

module _ (d : ℕ → ℕ) (score : ℕ → Score) (end : ℕ)
    (comparable : (j k : ℕ)
      → 1 ≤ j
      → j < end
      → 1 ≤ k
      → k < end
      → IsComparable (score (d j)) (score (d k))) where
  step-Leads :
      (i : ℕ) (b : Best)
      → 1 ≤ i
      → i < end
      → Leads d score i b
      → Leads d score (i + 1) (replaced b (score (d i)) (d i))
  unfolding beats
  step-Leads i b low inside l =
      let s = score (d i) in
      let t = score (d l.entry) in
      let c = comparable i l.entry low inside l.low (omega arith) in
      let left : mul64 b.score.num s.den ≡ t.num * s.den = rw (l.num, mod-eq_of_lt c.fits') refl in
      let right : mul64 s.num b.score.den ≡ s.num * t.den = rw (l.den, mod-eq_of_lt c.fits) refl in
      elim (Bool-cases (ltb (mul64 b.score.num s.den) (mul64 s.num b.score.den))) [
        | inl more ↦
            let above : t.num * s.den < s.num * t.den = ground (arith, left, right) in
            rw (l.line, more, beats)
              record {
                entry = i;
                low = low;
                seen = omega arith;
                line = refl;
                num = refl;
                den = refl;
                top = λ j p q. elim (Bool-cases (ltb j i)) [
                  | inl before ↦
                      NotAbove-trans (score (d j)) t s c.den_pos' (l.top j p (ground arith))
                        (omega (arith, above))
                  | inr at ↦ let same : j ≡ i = ground arith in rw same (omega arith)
                ];
              }
        | inr no_more ↦
            let below : s.num * t.den ≤ t.num * s.den = ground (arith, left, right) in
            rw (l.line, no_more, beats)
              record {
                entry = l.entry;
                low = l.low;
                seen = omega (arith, l.seen);
                line = refl;
                num = l.num;
                den = l.den;
                top = λ j p q. elim (Bool-cases (ltb j i)) [
                  | inl before ↦ l.top j p (ground arith)
                  | inr at ↦ let same : j ≡ i = ground arith in rw same below
                ];
              }
      ]

  best_scored-Leads :
      (n i : ℕ) (b : Best)
      → i + n ≡ end
      → 1 ≤ i
      → Leads d score i b
      → Leads d score end (best_scored n i d score b)
  unfolding best_scored
  best_scored-Leads zero i b e low l = let same : i ≡ end = omega arith in rw (← same) l
  best_scored-Leads (suc n) i b e low l =
      best_scored-Leads n (i + 1) (replaced b (score (d i)) (d i)) (omega arith) (omega arith)
        (step-Leads i b low (omega arith) l)

  scan-Leads : 2 ≤ end → Leads d score end (best_scored (end - 1) 1 d score no_best)
  unfolding best_scored
  scan-Leads two =
      let rounds : end - 1 ≡ suc (end - 2) = omega arith in
      rw (rounds, best_scored)
        (best_scored-Leads (end - 2) 2 (replaced no_best (score (d 1)) (d 1)) (omega arith)
          (omega arith) (first-Leads d score))

-- what a scored selection gives
pub record ChosenByScore (lm : LineMgmt) (score : ℕ → Score) (out : Option ℕ × LineMgmt)
    : Type 0 where
  pub victim : ℕ
  pub returned : out.0 ≡ some victim
  pub was_queued : InQueue lm victim
  pub top : (y : ℕ) → InQueue lm y → NotAbove (score y) (score victim)
  pub queue : QueueIsValid out.1
  pub others : (y : ℕ) → InQueue out.1 y ↔ (InQueue lm y × (y ≢ victim))
  pub counted : out.1.victim_line_cnt ≡ sub32 lm.victim_line_cnt 1

-- From a valid queue that is not empty, whose scores can be compared in 64 bits,
-- `select_victim_scored` returns a line of the queue above whose score no other lies, and leaves a
-- valid queue of the other lines.
pub select_victim_scored-Chosen :
    (lm : LineMgmt) (now α δ : ℕ)
    → QueueIsValid lm
    → lm.victim_line_pq.size ≢ 1
    → ((x y : ℕ)
        → InQueue lm x
        → InQueue lm y
        → IsComparable (line_score lm now α δ x) (line_score lm now α δ y))
    → ChosenByScore lm (line_score lm now α δ) (select_victim_scored lm now α δ)
unfolding select_victim_scored
select_victim_scored-Chosen lm now α δ v ne comparable =
    let q = lm.victim_line_pq in
    let score = line_score lm now α δ in
    let held = λ (j : ℕ) (p : 1 ≤ j) (r : j < q.size).
      let known = v.known j p r in let it : InQueue lm (q.d j) = ground arith in it in
    let two : 2 ≤ q.size = omega (arith, v.sized) in
    let more : leb q.size 1 ≡ false = ground arith in
    let l =
      scan-Leads q.d score q.size
        (λ j k p r p' r'. comparable (q.d j) (q.d k) (held j p r) (held k p' r')) two in
    let best = q.d l.entry in
    let was = held l.entry l.low l.seen in
    let b = pqueue_remove line_ops (victim_heap lm) best in
    let (queue, others) =
      detach-queue lm b best (remove-Removed line_ops line_laws (victim_heap lm) best v was) in
    rw (more, l.line, select_victim_scored)
      record {
        victim = best;
        returned = refl;
        was_queued = was;
        top = λ y m. let at = l.top (lm.lines y).pos m.0 m.1 in rw m.2 at at;
        queue = queue;
        others = others;
        counted = unfold detach in refl;
      }
