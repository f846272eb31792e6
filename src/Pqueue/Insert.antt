-- ===== src/Pqueue/Insert.antt =====
-- `pqueue_insert` of pqueue/pqueue.c.
use wild_cat.Common.{ℕ, ◌+◌, ◌/◌, ◌<◌, ◌≡◌, ◌⊎◌, ◌↔◌, arith, update}
use wild_cat.Pqueue.{NodeOps, Heap, place, pqueue_insert}
use wild_cat.Pqueue.Order.{NodeLaws, pri, KnowsPos, Holds, IsValid, OrderedBelow}
use wild_cat.Pqueue.Up.{bubble_up-Sifted}

module _ {S : Type 0} (ops : NodeOps S) (laws : NodeLaws ops) where
  -- `b` is a valid queue of the nodes of `a` and of `x`, with the same priorities.
  pub record Inserted (a : Heap S) (x : ℕ) (b : Heap S) : Type 0 where
    pub valid : IsValid ops b
    pub members : (y : ℕ) → Holds ops b y ↔ (Holds ops a y ⊎ (y ≡ x))
    pub same_pri : (y : ℕ) → pri ops b y ≡ pri ops a y
    pub grown : b.q.size ≡ a.q.size + 1

  -- the queue with `x` written past the end
  abbrev appended : Heap S → ℕ → Heap S
  appended h x = record h { q = record (h.q) { d = update h.q.d h.q.size x; size = h.q.size + 1 } }

  -- that queue, once the new node knows its position
  abbrev grown_at_end : Heap S → ℕ → Heap S
  grown_at_end h x = place ops (appended h x) h.q.size ((appended h x).q.d h.q.size)

  module _ (h : Heap S) (x : ℕ) (v : IsValid ops h) (new : ¬ Holds ops h x) where
    grown-KnowsPos : KnowsPos ops (grown_at_end h x)
    grown-KnowsPos j p q = ground (
      arith,
      laws.getpos-setpos h.nodes x h.q.size (h.q.d j),
      v.known j,
      laws.getpos-setpos h.nodes x h.q.size x,
    )

    grown-Holds : (y : ℕ) → Holds ops (grown_at_end h x) y ↔ (Holds ops h y ⊎ (y ≡ x))
    grown-Holds y = (
      λ held. ground (arith, laws.getpos-setpos h.nodes x h.q.size y),
      λ held. ground (arith, laws.getpos-setpos h.nodes x h.q.size y, v.sized),
    )

    grown-OrderedBelow : OrderedBelow ops (grown_at_end h x) h.q.size
    grown-OrderedBelow = record {
      edges = λ c p q ne. ground (
        arith,
        laws.getpri-setpos h.nodes x h.q.size (h.q.d c),
        laws.getpri-setpos h.nodes x h.q.size (h.q.d (c / 2)),
        v.ordered c,
      );
      bridged = λ c p q e two. absurd (omega arith);
    }

  -- `pqueue_insert` of a node that is not in a valid queue, where the array has room, gives a valid
  -- queue of the old nodes and the new one, with the same priorities.
  pub insert-Inserted :
      (h : Heap S) (x : ℕ)
      → IsValid ops h
      → ¬ Holds ops h x
      → h.q.size < h.q.avail
      → Inserted h x (pqueue_insert ops h x)
  unfolding pqueue_insert
  insert-Inserted h x v new room =
      let sift =
        bubble_up-Sifted ops laws (appended h x) h.q.size v.sized (omega arith)
          (grown-KnowsPos h x v new) (grown-OrderedBelow h x v new) in
      let s = sift.same in
      let held = grown-Holds h x v new in
      record {
        valid = record {
          sized = omega (arith, s.same_size);
          fits = omega (arith, s.same_size, s.same_avail);
          ordered = sift.ordered;
          known = s.known;
        };
        members = λ y. (λ m. (held y).0 ((s.members y).0 m), λ m. (s.members y).1 ((held y).1 m));
        same_pri = λ y. ground (arith, s.same_pri y, laws.getpri-setpos h.nodes x h.q.size y);
        grown = s.same_size;
      }
