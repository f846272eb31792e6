-- ===== src/Pqueue/Up.antt =====
-- `bubble_up` of pqueue/pqueue.c restores the order above a node, and keeps the nodes.
use wild_cat.Common.{
  ℕ, zero, suc, ◌/◌, ◌≤◌, ◌<◌, ◌≡◌, refl, ◌∙◌, ◌&&◌, inl, inr, arith, ltb, Bool-cases,
}
use wild_cat.Pqueue.{NodeOps, Heap, place, bubble_up_loop, bubble_up}
use wild_cat.Pqueue.Order.{
  NodeLaws, pri, KnowsPos, Sifted, IsOrdered, OrderedBelow, Swapped, SameNodes-self,
  SameNodes-trans, swap-SameNodes, place-Swapped,
}

module _ {S : Type 0} (ops : NodeOps S) (laws : NodeLaws ops) where
  swap-OrderedBelow :
      (a b : Heap S) (i : ℕ)
      → Swapped ops a b i (i / 2)
      → OrderedBelow ops a i
      → 2 ≤ i
      → i < a.q.size
      → pri ops a (a.q.d i) < pri ops a (a.q.d (i / 2))
      → OrderedBelow ops b (i / 2)
  swap-OrderedBelow a b i sw o two inside less = record {
    edges = λ c p q ne. ground (
      arith,
      sw.same_size,
      sw.at c,
      sw.at (c / 2),
      sw.same_pri (b.q.d c),
      sw.same_pri (b.q.d (c / 2)),
      o.edges c,
      o.bridged c,
      o.edges (i / 2),
    );
    bridged = λ c p q e two'. ground (
      arith,
      sw.same_size,
      sw.at c,
      sw.at (i / 2 / 2),
      sw.same_pri (b.q.d c),
      sw.same_pri (b.q.d (i / 2 / 2)),
      o.edges c,
      o.bridged c,
      o.edges (i / 2),
    );
  }

  settle-IsOrdered :
      (a : Heap S) (i : ℕ)
      → OrderedBelow ops a i
      → (2 ≤ i → pri ops a (a.q.d (i / 2)) ≤ pri ops a (a.q.d i))
      → IsOrdered ops a
  settle-IsOrdered a i o h c p q = ground (arith, o.edges c, h)

  bubble_up_loop-Sifted :
      (f : ℕ) (h : Heap S) (i m p : ℕ)
      → pri ops h m ≡ p
      → i ≤ f
      → 1 ≤ i
      → i < h.q.size
      → KnowsPos ops (place ops h i m)
      → OrderedBelow ops (place ops h i m) i
      → let (h', i') = bubble_up_loop ops f h i p in
        Sifted ops (place ops h i m) (place ops h' i' m)
  unfolding bubble_up_loop
  bubble_up_loop-Sifted zero h i m p e fuel low inside known o = absurd (omega arith)
  bubble_up_loop-Sifted (suc f) h i m p e fuel low inside known o =
      let above = h.q.d (i / 2) in
      let v = place ops h i m in
      let h₁ = place ops h i above in
      let cmp = laws.cmp (pri ops h above) p in
      elim (Bool-cases (ltb 1 i && ops.cmppri (pri ops h above) p)) [
        | inl rise ↦
            let two : 2 ≤ i = ground arith in
            let less : p < pri ops h above = ground (arith, cmp) in
            let sw =
              place-Swapped ops laws h i (i / 2) m known low inside (omega arith) (omega arith)
                (omega arith) in
            let kept =
              swap-SameNodes ops v (place ops h₁ (i / 2) m) i (i / 2) sw known low inside
                (omega arith) (omega arith) in
            let rest =
              bubble_up_loop-Sifted f h₁ (i / 2) m p (laws.getpri-setpos h.nodes above i m ∙ e)
                (omega arith) (omega arith) (omega arith) kept.known
                (swap-OrderedBelow v (place ops h₁ (i / 2) m) i sw o two inside (
                  ground (
                    arith,
                    laws.getpri-setpos h.nodes m i m,
                    laws.getpri-setpos h.nodes m i above,
                  ))) in
            rw (rise, bubble_up_loop)
              (record { same = SameNodes-trans ops kept rest.same; ordered = rest.ordered })
        | inr stay ↦
            rw (stay, bubble_up_loop)
              (record {
                same = SameNodes-self ops v known;
                ordered = settle-IsOrdered v i o (λ two. ground (
                  arith,
                  cmp,
                  laws.getpri-setpos h.nodes m i m,
                  laws.getpri-setpos h.nodes m i above,
                ));
              })
      ]

  -- `h` holds the moving node at `i`, but for that node's own position.
  pub bubble_up-Sifted :
      (h : Heap S) (i : ℕ)
      → 1 ≤ i
      → i < h.q.size
      → KnowsPos ops (place ops h i (h.q.d i))
      → OrderedBelow ops (place ops h i (h.q.d i)) i
      → Sifted ops (place ops h i (h.q.d i)) (bubble_up ops h i)
  unfolding bubble_up
  bubble_up-Sifted h i low inside known o =
      bubble_up_loop-Sifted i h i (h.q.d i) (pri ops h (h.q.d i)) refl (omega arith) low inside
        known o
