-- ===== src/Pqueue/Down.antt =====
-- `percolate_down` of pqueue/pqueue.c restores the order below a node, and keeps the nodes.
use wild_cat.Common.{
  ℕ, zero, suc, ◌+◌, ◌*◌, ◌/◌, ◌≤◌, ◌<◌, ◌≡◌, ◌≢◌, refl, ◌∙◌, ◌⊎◌, ◌&&◌, inl, inr, arith, ltb,
  Bool-cases,
}
use wild_cat.Pqueue.{NodeOps, Heap, place, maxchild, percolate_down_loop, percolate_down}
use wild_cat.Pqueue.Order.{
  NodeLaws, pri, KnowsPos, Sifted, IsOrdered, OrderedAbove, Swapped, SameNodes-self,
  SameNodes-trans, swap-SameNodes, place-Swapped,
}

module _ {S : Type 0} (ops : NodeOps S) (laws : NodeLaws ops) where
  -- `maxchild` is 0 where `i` has no child, and else a child that comes before no other.
  record Chosen (h : Heap S) (i c : ℕ) : Type 0 where
    leaf : c ≡ 0 → h.q.size ≤ 2 * i
    child : c ≢ 0 → (c / 2 ≡ i) × (c < h.q.size) × (2 ≤ c)
    least :
        (k : ℕ)
        → c ≢ 0
        → k / 2 ≡ i
        → k < h.q.size
        → 2 ≤ k
        → pri ops h (h.q.d c) ≤ pri ops h (h.q.d k)

  maxchild-Chosen : (h : Heap S) (i : ℕ) → 1 ≤ i → Chosen h i (maxchild ops h i)
  unfolding maxchild
  maxchild-Chosen h i low =
      let cmp = laws.cmp (pri ops h (h.q.d (2 * i))) (pri ops h (h.q.d (2 * i + 1))) in
      record {
        leaf = λ e. ground (arith, cmp);
        child = λ ne. ground (arith, cmp);
        least = λ k ne e inside two.
            let which : (k ≡ 2 * i) ⊎ (k ≡ 2 * i + 1) = omega arith in ground (arith, cmp);
      }

  swap-OrderedAbove :
      (a b : Heap S) (i c : ℕ)
      → Swapped ops a b i c
      → OrderedAbove ops a i
      → c / 2 ≡ i
      → 2 ≤ c
      → c < a.q.size
      → pri ops a (a.q.d c) < pri ops a (a.q.d i)
      → ((k : ℕ) → k / 2 ≡ i → k < a.q.size → 2 ≤ k → pri ops a (a.q.d c) ≤ pri ops a (a.q.d k))
      → OrderedAbove ops b c
  swap-OrderedAbove a b i c sw o up two inside less least = record {
    edges = λ k p q ne. ground (
      arith,
      sw.same_size,
      sw.at k,
      sw.at (k / 2),
      sw.same_pri (b.q.d k),
      sw.same_pri (b.q.d (k / 2)),
      o.edges k,
      o.bridged c,
      least k,
    );
    bridged = λ k p q e two'. ground (
      arith,
      sw.same_size,
      sw.at k,
      sw.at (c / 2),
      sw.same_pri (b.q.d k),
      sw.same_pri (b.q.d (c / 2)),
      o.edges k,
    );
  }

  settle-IsOrdered :
      (a : Heap S) (i : ℕ)
      → OrderedAbove ops a i
      → ((c : ℕ) → 2 ≤ c → c < a.q.size → c / 2 ≡ i → pri ops a (a.q.d i) ≤ pri ops a (a.q.d c))
      → IsOrdered ops a
  settle-IsOrdered a i o h c p q = ground (arith, o.edges c, h c)

  percolate_down_loop-Sifted :
      (f : ℕ) (h : Heap S) (i m p : ℕ)
      → pri ops h m ≡ p
      → h.q.size ≤ f + i
      → 1 ≤ i
      → KnowsPos ops (place ops h i m)
      → OrderedAbove ops (place ops h i m) i
      → let (h', i') = percolate_down_loop ops f h i p in
        Sifted ops (place ops h i m) (place ops h' i' m)
  unfolding percolate_down_loop
  percolate_down_loop-Sifted zero h i m p e fuel low known o = record {
    same = SameNodes-self ops (place ops h i m) known;
    ordered = settle-IsOrdered (place ops h i m) i o (λ c two inside up. absurd (omega arith));
  }
  percolate_down_loop-Sifted (suc f) h i m p e fuel low known o =
      let c = maxchild ops h i in
      let chosen = maxchild-Chosen h i low in
      let below = h.q.d c in
      let v = place ops h i m in
      let h₁ = place ops h i below in
      let cmp = laws.cmp p (pri ops h below) in
      let pri_v = λ (x : ℕ). laws.getpri-setpos h.nodes m i x in
      elim (Bool-cases (ltb 0 c && ops.cmppri p (pri ops h below))) [
        | inl sink ↦
            let some_child : c ≢ 0 = ground arith in
            let less : pri ops h below < p = ground (arith, cmp) in
            let at = chosen.child some_child in
            let sw =
              place-Swapped ops laws h i c m known low (omega arith) (omega arith) at.1
                (omega arith) in
            let kept =
              swap-SameNodes ops v (place ops h₁ c m) i c sw known low (omega arith) (omega arith)
                at.1 in
            let rest =
              percolate_down_loop-Sifted f h₁ c m p (laws.getpri-setpos h.nodes below i m ∙ e)
                (omega arith) (omega arith) kept.known
                (swap-OrderedAbove v (place ops h₁ c m) i c sw o at.0 at.2 at.1
                  (ground (arith, pri_v m, pri_v below))
                  (λ k up inside two.
                    ground (arith, pri_v below, pri_v (h.q.d k), chosen.least k))) in
            rw (sink, percolate_down_loop)
              (record { same = SameNodes-trans ops kept rest.same; ordered = rest.ordered })
        | inr stay ↦
            rw (stay, percolate_down_loop)
              (record {
                same = SameNodes-self ops v known;
                ordered = settle-IsOrdered v i o (λ k two inside up.
                    ground (arith, cmp, pri_v m, pri_v (h.q.d k), chosen.leaf, chosen.least k));
              })
      ]

  -- `h` holds the moving node at `i`, but for that node's own position.
  pub percolate_down-Sifted :
      (h : Heap S) (i : ℕ)
      → 1 ≤ i
      → KnowsPos ops (place ops h i (h.q.d i))
      → OrderedAbove ops (place ops h i (h.q.d i)) i
      → Sifted ops (place ops h i (h.q.d i)) (percolate_down ops h i)
  unfolding percolate_down
  percolate_down-Sifted h i low known o =
      percolate_down_loop-Sifted h.q.size h i (h.q.d i) (pri ops h (h.q.d i)) refl (omega arith) low
        known o
