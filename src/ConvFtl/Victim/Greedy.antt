-- ===== src/ConvFtl/Victim/Greedy.antt =====
-- The greedy policy takes a line with the fewest valid pages.
use wild_cat.Common.{
  ℕ, ◌≤◌, ◌≡◌, ◌≢◌, refl, ◌↔◌, true, false, Option, some, arith, ◌==◌, sub32, sext,
}
use wild_cat.Pqueue.{Heap, pqueue_peek, pqueue_pop}
use wild_cat.Pqueue.Order.{Holds, IsValid}
use wild_cat.Pqueue.Remove.{Removed, pop-Popped, forget-IsValid, forget-Holds}
use wild_cat.Ssd.Params.{SsdParams}
use wild_cat.ConvFtl.State.{Line, LineMgmt}
use wild_cat.ConvFtl.Lines.{line_ops, victim_heap, with_heap}
use wild_cat.ConvFtl.Lines.Queue.{line_laws}
use wild_cat.ConvFtl.Victim.{detach, select_victim_greedy}

abbrev pub vpc_of : LineMgmt → ℕ → ℕ
vpc_of lm x = sext (lm.lines x).vpc

abbrev pub InQueue : LineMgmt → ℕ → Type 0
InQueue lm x = Holds line_ops (victim_heap lm) x

abbrev pub QueueIsValid : LineMgmt → Type 0
QueueIsValid lm = IsValid line_ops (victim_heap lm)

-- what a forced selection gives
pub record Chosen (lm : LineMgmt) (out : Option ℕ × LineMgmt) : Type 0 where
  pub victim : ℕ
  pub returned : out.0 ≡ some victim
  pub was_queued : InQueue lm victim
  pub fewest : (y : ℕ) → InQueue lm y → vpc_of lm victim ≤ vpc_of lm y
  pub queue : QueueIsValid out.1
  pub others : (y : ℕ) → InQueue out.1 y ↔ (InQueue lm y × (y ≢ victim))
  pub counted : out.1.victim_line_cnt ≡ sub32 lm.victim_line_cnt 1

-- The queue without a node, once the node's position is reset.
pub detach-queue :
    (lm : LineMgmt) (b : Heap (ℕ → Line)) (x : ℕ)
    → Removed line_ops line_laws (victim_heap lm) x b
    → let after = detach (with_heap lm b) x in
      QueueIsValid after × ((y : ℕ) → InQueue after y ↔ (InQueue lm y × (y ≢ x)))
unfolding detach
detach-queue lm b x r =
    let out : ¬ Holds line_ops b x = λ m. ((r.members x).0 m).1 refl in
    (
      forget-IsValid line_ops line_laws b x r.valid out,
      λ y. (
        λ m. (r.members y).0 ((forget-Holds line_ops line_laws b x r.valid out y).0 m),
        λ m. (forget-Holds line_ops line_laws b x r.valid out y).1 ((r.members y).1 m),
      ),
    )

-- A forced greedy selection from a queue that is not empty returns a line of the queue with the
-- fewest valid pages, and leaves a valid queue of the other lines.
pub select_victim_greedy-Chosen :
    (spp : SsdParams) (lm : LineMgmt)
    → QueueIsValid lm
    → lm.victim_line_pq.size ≢ 1
    → Chosen lm (select_victim_greedy spp lm true)
unfolding select_victim_greedy pqueue_peek
select_victim_greedy-Chosen spp lm v ne =
    let p = pop-Popped line_ops line_laws (victim_heap lm) v ne in
    let root = lm.victim_line_pq.d 1 in
    let not_empty : (lm.victim_line_pq.size == 1) ≡ false = ground arith in
    let rest : Removed line_ops line_laws (victim_heap lm) root
        (pqueue_pop line_ops (victim_heap lm)).1 =
      rw p.is_root at p.rest in
    let (queue, others) = detach-queue lm (pqueue_pop line_ops (victim_heap lm)).1 root rest in
    rw (not_empty, select_victim_greedy)
      record {
        victim = root;
        returned = refl;
        was_queued = rw p.is_root at p.was_held;
        fewest = λ y m. let least = p.least y m in rw p.is_root at least;
        queue = queue;
        others = others;
        counted = unfold detach in refl;
      }
