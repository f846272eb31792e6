-- ===== src/Pqueue/Reprioritize.antt =====
-- `pqueue_change_priority` of pqueue/pqueue.c.
use wild_cat.Common.{
  ℕ, ◌/◌, ◌≤◌, ◌<◌, ◌≡◌, ◌≢◌, ◌∙◌, ◌↔◌, inl, inr, arith, ◌==◌, if◌then◌else◌, Bool-cases,
}
use wild_cat.Pqueue.{NodeOps, Heap, place, pqueue_change_priority}
use wild_cat.Pqueue.Order.{
  NodeLaws, pri, pos, KnowsPos, Holds, IsValid, OrderedAbove, OrderedBelow, Sifted,
}
use wild_cat.Pqueue.Up.{bubble_up-Sifted}
use wild_cat.Pqueue.Down.{percolate_down-Sifted}

module _ {S : Type 0} (ops : NodeOps S) (laws : NodeLaws ops) where
  -- `b` is a valid queue of the nodes of `a`, in which the priority of `x` is `p`.
  pub record Reprioritized (a : Heap S) (x p : ℕ) (b : Heap S) : Type 0 where
    pub valid : IsValid ops b
    pub members : (y : ℕ) → Holds ops b y ↔ Holds ops a y
    pub new_pri : pri ops b x ≡ p
    pub other_pri : (y : ℕ) → x ≢ y → pri ops b y ≡ pri ops a y
    pub same_size : b.q.size ≡ a.q.size

  -- the queue with the new priority written, and the node `x` at its index `i`
  abbrev repriced : Heap S → ℕ → ℕ → Heap S
  repriced h x p = record h { nodes = ops.setpri h.nodes x p }

  module _ (h : Heap S) (x p : ℕ) (v : IsValid ops h) (held : Holds ops h x)
      (stored : ops.getpri (ops.setpri h.nodes x p) x ≡ p) where
    abbrev index : ℕ
    index = ops.getpos (ops.setpri h.nodes x p) x

    abbrev settled : Heap S
    settled = place ops (repriced h x p) index (h.q.d index)

    index_lem : index ≡ pos ops h x
    index_lem = laws.getpos-setpri h.nodes x p x

    at_index : h.q.d index ≡ x
    at_index = rw index_lem held.2

    settled_pos : (y : ℕ) → pos ops settled y ≡ pos ops h y
    settled_pos y = ground (
      arith,
      laws.getpos-setpos (ops.setpri h.nodes x p) (h.q.d index) index y,
      laws.getpos-setpri h.nodes x p y,
      index_lem,
      at_index,
    )

    settled_at : (j : ℕ) → settled.q.d j ≡ h.q.d j
    settled_at j = ground arith

    settled-pri_self : pri ops settled x ≡ p
    settled-pri_self = laws.getpri-setpos (ops.setpri h.nodes x p) (h.q.d index) index x ∙ stored

    settled-pri : (y : ℕ) → x ≢ y → pri ops settled y ≡ pri ops h y
    settled-pri y ne =
        laws.getpri-setpos (ops.setpri h.nodes x p) (h.q.d index) index y
        ∙ laws.getpri-setpri h.nodes x p y ne

    settled-KnowsPos : KnowsPos ops settled
    settled-KnowsPos j low inside = ground (arith, settled_at j, settled_pos (h.q.d j), v.known j)

    settled-Holds : (y : ℕ) → Holds ops settled y ↔ Holds ops h y
    settled-Holds y = (
      λ m. ground (arith, settled_pos y, settled_at (pos ops h y)),
      λ m. ground (arith, settled_pos y, settled_at (pos ops h y)),
    )

    -- the priority at the index `j`
    settled-pri_at :
        (j : ℕ)
        → 1 ≤ j
        → j < h.q.size
        → pri ops settled (settled.q.d j) ≡ (if index == j then p else pri ops h (h.q.d j))
    settled-pri_at j low inside = ground (
      arith,
      settled_at j,
      settled-pri (h.q.d j),
      settled-pri_self,
      index_lem,
      v.known j,
      at_index,
    )

    settled-OrderedBelow : p < pri ops h x → OrderedBelow ops settled index
    settled-OrderedBelow less = record {
      edges = λ c low inside ne.
          ground (arith, settled-pri_at c, settled-pri_at (c / 2), v.ordered c, at_index);
      bridged = λ c low inside e two.
          ground
            (arith, settled-pri_at c, settled-pri_at (index / 2), v.ordered c, v.ordered index);
    }

    settled-OrderedAbove : pri ops h x ≤ p → OrderedAbove ops settled index
    settled-OrderedAbove more = record {
      edges = λ c low inside ne.
          ground (arith, settled-pri_at c, settled-pri_at (c / 2), v.ordered c, at_index);
      bridged = λ c low inside e two.
          ground
            (arith, settled-pri_at c, settled-pri_at (index / 2), v.ordered c, v.ordered index);
    }

    Sifted-Reprioritized : {b : Heap S} → Sifted ops settled b → Reprioritized h x p b
    Sifted-Reprioritized sift =
        let s = sift.same in
        record {
          valid = record {
            sized = omega (arith, s.same_size, v.sized);
            fits = omega (arith, s.same_size, s.same_avail, v.fits);
            ordered = sift.ordered;
            known = s.known;
          };
          members = λ y. (
            λ m. (settled-Holds y).0 ((s.members y).0 m),
            λ m. (s.members y).1 ((settled-Holds y).1 m),
          );
          new_pri = s.same_pri x ∙ settled-pri_self;
          other_pri = λ y ne. s.same_pri y ∙ settled-pri y ne;
          same_size = s.same_size;
        }

  -- `pqueue_change_priority` of a node of a valid queue, to a priority that its field can hold, gives
  -- a valid queue of the same nodes in which this node has the new priority and the others have theirs.
  pub change_priority-Reprioritized :
      (h : Heap S) (x p : ℕ)
      → IsValid ops h
      → Holds ops h x
      → ops.getpri (ops.setpri h.nodes x p) x ≡ p
      → Reprioritized h x p (pqueue_change_priority ops h p x)
  unfolding pqueue_change_priority
  change_priority-Reprioritized h x p v held stored =
      let i = ops.getpos (ops.setpri h.nodes x p) x in
      let cmp = laws.cmp (pri ops h x) p in
      let at = index_lem h x p v held stored in
      let low : 1 ≤ i = omega arith in
      let inside : i < h.q.size = omega arith in
      elim (Bool-cases (ops.cmppri (pri ops h x) p)) [
        | inl rise ↦ rw rise (
            Sifted-Reprioritized h x p v held stored (
              bubble_up-Sifted ops laws (repriced h x p) i low inside
                (settled-KnowsPos h x p v held stored)
                (settled-OrderedBelow h x p v held stored (ground (arith, cmp)))))
        | inr sink ↦ rw sink (
            Sifted-Reprioritized h x p v held stored (
              percolate_down-Sifted ops laws (repriced h x p) i low
                (settled-KnowsPos h x p v held stored)
                (settled-OrderedAbove h x p v held stored (ground (arith, cmp)))))
      ]
