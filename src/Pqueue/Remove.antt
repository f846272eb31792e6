-- ===== src/Pqueue/Remove.antt =====
-- `pqueue_remove` and `pqueue_pop` of pqueue/pqueue.c.
use wild_cat.Common.{
  ℕ, zero, suc, ◌+◌, ◌-◌, ◌/◌, ◌≤◌, ◌<◌, ◌≡◌, ◌≢◌, refl, ◌∙◌, ◌↔◌, false, Option, some, inl, inr,
  arith, ◌==◌, Bool-cases, update,
}
use wild_cat.Pqueue.{NodeOps, Heap, place, pqueue_remove, pqueue_pop}
use wild_cat.Pqueue.Order.{
  NodeLaws, pri, pos, KnowsPos, Holds, IsValid, OrderedAbove, OrderedBelow, Sifted,
}
use wild_cat.Pqueue.Up.{bubble_up-Sifted}
use wild_cat.Pqueue.Down.{percolate_down-Sifted}

module _ {S : Type 0} (ops : NodeOps S) (laws : NodeLaws ops) where
  -- `b` is a valid queue of the nodes of `a` but `x`, with the same priorities.
  pub record Removed (a : Heap S) (x : ℕ) (b : Heap S) : Type 0 where
    pub valid : IsValid ops b
    pub members : (y : ℕ) → Holds ops b y ↔ (Holds ops a y × (y ≢ x))
    pub same_pri : (y : ℕ) → pri ops b y ≡ pri ops a y
    pub shrunk : b.q.size + 1 ≡ a.q.size

  -- the queue with its last node written over the entry `i`
  abbrev overwritten : Heap S → ℕ → Heap S
  overwritten h i = record h {
    q = record (h.q) { d = update h.q.d i (h.q.d (h.q.size - 1)); size = h.q.size - 1 };
  }

  -- that queue, once the moved node knows its position
  abbrev filled : Heap S → ℕ → Heap S
  filled h i = place ops (overwritten h i) i ((overwritten h i).q.d i)

  module _ (h : Heap S) (x i : ℕ) (v : IsValid ops h) (low : 1 ≤ i) (inside : i < h.q.size)
      (at : h.q.d i ≡ x) where
    filled-KnowsPos : KnowsPos ops (filled h i)
    filled-KnowsPos j p q =
        let last = h.q.d (h.q.size - 1) in
        ground (
          arith,
          laws.getpos-setpos h.nodes last i (h.q.d j),
          laws.getpos-setpos h.nodes last i last,
          v.known j,
          v.known (h.q.size - 1),
        )

    filled-Holds : (y : ℕ) → Holds ops (filled h i) y ↔ (Holds ops h y × (y ≢ x))
    filled-Holds y =
        let last = h.q.d (h.q.size - 1) in
        (
          λ held.
              ground
                (arith, laws.getpos-setpos h.nodes last i y, v.known i, v.known (h.q.size - 1)),
          λ held.
              ground
                (arith, laws.getpos-setpos h.nodes last i y, v.known i, v.known (h.q.size - 1)),
        )

    pri-filled : (y : ℕ) → pri ops (filled h i) y ≡ pri ops h y
    pri-filled y = laws.getpri-setpos h.nodes ((overwritten h i).q.d i) i y

    filled-OrderedBelow :
        pri ops h (h.q.d (h.q.size - 1)) < pri ops h x → OrderedBelow ops (filled h i) i
    filled-OrderedBelow less =
        let last = h.q.d (h.q.size - 1) in
        record {
          edges = λ c p q ne. ground (
            arith,
            pri-filled (h.q.d c),
            pri-filled (h.q.d (c / 2)),
            pri-filled last,
            v.ordered c,
          );
          bridged = λ c p q e two.
              ground
                (arith, pri-filled (h.q.d c), pri-filled (h.q.d (i / 2)), v.ordered c, v.ordered i);
        }

    filled-OrderedAbove :
        (2 ≤ i → pri ops h x ≤ pri ops h (h.q.d (h.q.size - 1))) → OrderedAbove ops (filled h i) i
    filled-OrderedAbove above =
        let last = h.q.d (h.q.size - 1) in
        record {
          edges = λ c p q ne. ground (
            arith,
            pri-filled (h.q.d c),
            pri-filled (h.q.d (c / 2)),
            pri-filled last,
            v.ordered c,
          );
          bridged = λ c p q e two.
              ground
                (arith, pri-filled (h.q.d c), pri-filled (h.q.d (i / 2)), v.ordered c, v.ordered i);
        }

    Sifted-Removed : {b : Heap S} → Sifted ops (filled h i) b → Removed h x b
    Sifted-Removed sift =
        let s = sift.same in
        record {
          valid = record {
            sized = omega (arith, s.same_size);
            fits = omega (arith, s.same_size, s.same_avail, v.fits);
            ordered = sift.ordered;
            known = s.known;
          };
          members = λ y. (
            λ m. (filled-Holds y).0 ((s.members y).0 m),
            λ m. (s.members y).1 ((filled-Holds y).1 m),
          );
          same_pri = λ y. s.same_pri y ∙ pri-filled y;
          shrunk = omega (arith, s.same_size);
        }

  -- `pqueue_remove` of a node of a valid queue gives a valid queue of the other nodes, with the same
  -- priorities.
  pub remove-Removed :
      (h : Heap S) (x : ℕ) → IsValid ops h → Holds ops h x → Removed h x (pqueue_remove ops h x)
  unfolding pqueue_remove
  remove-Removed h x v held =
      let i = pos ops h x in
      let last = h.q.d (h.q.size - 1) in
      let h' = overwritten h i in
      let cmp = laws.cmp (pri ops h x) (pri ops h (h'.q.d i)) in
      let moved : h'.q.d i ≡ last = ground arith in
      elim (Bool-cases (ops.cmppri (pri ops h x) (pri ops h (h'.q.d i)))) [
        | inl rise ↦
            let less : pri ops h last < pri ops h x = ground (arith, cmp) in
            rw rise (
              Sifted-Removed h x i v held.0 held.1 held.2 (
                bubble_up-Sifted ops laws h' i held.0 (ground arith)
                  (filled-KnowsPos h x i v held.0 held.1 held.2)
                  (filled-OrderedBelow h x i v held.0 held.1 held.2 less)))
        | inr sink ↦ rw sink (
            Sifted-Removed h x i v held.0 held.1 held.2 (
              percolate_down-Sifted ops laws h' i held.0
                (filled-KnowsPos h x i v held.0 held.1 held.2)
                (filled-OrderedAbove h x i v held.0 held.1 held.2 (λ two. ground (arith, cmp)))))
      ]

  least_below :
      (f : ℕ) (h : Heap S) (j : ℕ)
      → IsValid ops h
      → j ≤ f
      → 1 ≤ j
      → j < h.q.size
      → pri ops h (h.q.d 1) ≤ pri ops h (h.q.d j)
  least_below zero h j v fuel low inside = absurd (omega arith)
  least_below (suc f) h j v fuel low inside = ground (arith, v.ordered j, least_below f h (j / 2) v)

  -- No node comes before the root.
  pub root_least :
      (h : Heap S) (y : ℕ) → IsValid ops h → Holds ops h y → pri ops h (h.q.d 1) ≤ pri ops h y
  root_least h y v held = ground (arith, least_below (pos ops h y) h (pos ops h y) v)

  -- what `pqueue_pop` returns: the root, and the rest
  pub record Popped (a : Heap S) (out : Option ℕ × Heap S) : Type 0 where
    pub head : ℕ
    pub returned : out.0 ≡ some head
    pub is_root : head ≡ a.q.d 1
    pub was_held : Holds ops a head
    pub least : (y : ℕ) → Holds ops a y → pri ops a head ≤ pri ops a y
    pub rest : Removed a head out.1

  -- `pqueue_pop` of a valid queue that is not empty returns a node of least priority, the root, and
  -- leaves a valid queue of the other nodes, with the same priorities.
  pub pop-Popped : (h : Heap S) → IsValid ops h → h.q.size ≢ 1 → Popped h (pqueue_pop ops h)
  unfolding pqueue_pop
  pop-Popped h v ne =
      let head = h.q.d 1 in
      let two : 2 ≤ h.q.size = omega arith in
      let not_empty : (h.q.size == 1) ≡ false = ground arith in
      let known : pos ops h head ≡ 1 = v.known 1 (omega arith) (omega arith) in
      let held : Holds ops h head = ground arith in
      rw not_empty record {
        head = head;
        returned = refl;
        is_root = refl;
        was_held = held;
        least = λ y m. root_least h y v m;
        rest = Sifted-Removed h head 1 v (omega arith) (omega arith) refl (
            percolate_down-Sifted ops laws (overwritten h 1) 1 (omega arith)
              (filled-KnowsPos h head 1 v (omega arith) (omega arith) refl)
              (filled-OrderedAbove h head 1 v (omega arith) (omega arith) refl
                (λ absurd_two. absurd (omega arith))));
      }

  -- A node outside the queue may lose its position.
  abbrev pub forgotten : Heap S → ℕ → Heap S
  forgotten h x = record h { nodes = ops.setpos h.nodes x 0 }

  module _ (h : Heap S) (x : ℕ) (v : IsValid ops h) (out : ¬ Holds ops h x) where
    apart : (j : ℕ) → 1 ≤ j → j < h.q.size → h.q.d j ≢ x
    apart j low inside e = out (ground (arith, v.known j))

    pub forget-IsValid : IsValid ops (forgotten h x)
    forget-IsValid = record {
      sized = v.sized;
      fits = v.fits;
      ordered = λ c two inside. ground (
        arith,
        v.ordered c,
        laws.getpri-setpos h.nodes x 0 (h.q.d c),
        laws.getpri-setpos h.nodes x 0 (h.q.d (c / 2)),
      );
      known = λ j low inside.
          ground (arith, laws.getpos-setpos h.nodes x 0 (h.q.d j), v.known j, apart j);
    }

    pub forget-Holds : (y : ℕ) → Holds ops (forgotten h x) y ↔ Holds ops h y
    forget-Holds y = (
      λ m. ground (arith, laws.getpos-setpos h.nodes x 0 y),
      λ m. ground (arith, laws.getpos-setpos h.nodes x 0 y, out),
    )
