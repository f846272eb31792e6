-- ===== src/Pqueue/Check.antt =====
-- `pqueue_is_valid` of pqueue/pqueue.c.
use wild_cat.Common.{
  ℕ, zero, suc, ◌+◌, ◌-◌, ◌*◌, ◌/◌, ◌≤◌, ◌<◌, ◌≡◌, refl, ◌↔◌, true, ◌==◌, arith, ◌⊎◌, inl, inr,
  Bool-cases,
}
use wild_cat.Pqueue.{NodeOps, Heap, subtree_is_valid, pqueue_is_valid}
use wild_cat.Pqueue.Order.{NodeLaws, pri, IsOrdered}

left_or_right : (c : ℕ) → (c ≡ 2 * (c / 2)) ⊎ (c ≡ 2 * (c / 2) + 1)
left_or_right c = elim (Bool-cases (c == 2 * (c / 2))) [
  | inl e ↦ inl (ground arith)
  | inr e ↦ inr (ground arith)
]

module _ {S : Type 0} (ops : NodeOps S) (laws : NodeLaws ops) where
  -- the two tests at a node
  record Checked (f : ℕ) (h : Heap S) (i : ℕ) : Type 0 where
    left :
        2 * i < h.q.size
        → (pri ops h (h.q.d i) ≤ pri ops h (h.q.d (2 * i)))
          × (subtree_is_valid ops f h (2 * i) ≡ true)
    right :
        2 * i + 1 < h.q.size
        → (pri ops h (h.q.d i) ≤ pri ops h (h.q.d (2 * i + 1)))
          × (subtree_is_valid ops f h (2 * i + 1) ≡ true)

  checked : (f : ℕ) (h : Heap S) (i : ℕ) → subtree_is_valid ops (suc f) h i ≡ true → Checked f h i
  unfolding subtree_is_valid
  checked f h i ok =
      let l = laws.cmp (pri ops h (h.q.d i)) (pri ops h (h.q.d (2 * i))) in
      let r = laws.cmp (pri ops h (h.q.d i)) (pri ops h (h.q.d (2 * i + 1))) in
      record {
        left = λ lt. (ground (arith, l, r, ok, lt), ground (arith, l, r, ok, lt));
        right = λ lt. (ground (arith, l, r, ok, lt), ground (arith, l, r, ok, lt));
      }

  from_order :
      (f : ℕ) (h : Heap S) (i : ℕ) → 1 ≤ i → IsOrdered ops h → subtree_is_valid ops f h i ≡ true
  unfolding subtree_is_valid
  from_order zero h i low o = refl
  from_order (suc f) h i low o =
      let l = laws.cmp (pri ops h (h.q.d i)) (pri ops h (h.q.d (2 * i))) in
      let r = laws.cmp (pri ops h (h.q.d i)) (pri ops h (h.q.d (2 * i + 1))) in
      let at_left = o (2 * i) (omega arith) in
      let at_right = o (2 * i + 1) (omega arith) in
      let half_left : 2 * i / 2 ≡ i = omega arith in
      let half_right : (2 * i + 1) / 2 ≡ i = omega arith in
      let sub_left = from_order f h (2 * i) (omega arith) o in
      let sub_right = from_order f h (2 * i + 1) (omega arith) o in
      rw (sub_left, sub_right)
        (ground (arith, l, r, rw half_left at at_left, rw half_right at at_right))

  module _ (h : Heap S) (ok : subtree_is_valid ops h.q.size h 1 ≡ true) where
    -- the tests at the parent of `c`, for some fuel
    step :
        (f c : ℕ)
        → 2 ≤ c
        → 1 ≤ f
        → c < h.q.size
        → subtree_is_valid ops f h (c / 2) ≡ true
        → (pri ops h (h.q.d (c / 2)) ≤ pri ops h (h.q.d c))
          × (subtree_is_valid ops (f - 1) h c ≡ true)
    step f c two some_fuel inside at =
        let e : f ≡ suc (f - 1) = omega arith in
        let t = checked (f - 1) h (c / 2) (rw e at at) in
        elim (left_or_right c) [
          | inl l ↦ let (le, sub) = t.left (omega arith) in (rw (← l) at le, rw (← l) at sub)
          | inr r ↦ let (le, sub) = t.right (omega arith) in (rw (← r) at le, rw (← r) at sub)
        ]

    -- the walk from the root reaches `c` with fuel left
    reach :
        (k c : ℕ)
        → c ≤ k
        → 1 ≤ c
        → c < h.q.size
        → (f : ℕ) × (h.q.size + 1 ≤ f + c) × (subtree_is_valid ops f h c ≡ true)
    reach zero c le low inside = absurd (omega arith)
    reach (suc k) c le low inside = elim (Bool-cases (c == 1)) [
      | inl e ↦ let one : c ≡ 1 = ground (arith, e) in (h.q.size, omega (arith, one), rw one ok)
      | inr e ↦
          let two : 2 ≤ c = ground (arith, e) in
          let (f, left, at) = reach k (c / 2) (omega arith) (omega arith) (omega arith) in
          let (_, sub) = step f c two (omega arith) inside at in (f - 1, omega arith, sub)
    ]

    to_order : IsOrdered ops h
    to_order c two inside =
        let (f, left, at) = reach (c / 2) (c / 2) (omega arith) (omega arith) (omega arith) in
        (step f c two (omega arith) inside at).0

  -- `pqueue_is_valid` accepts a queue exactly where no node comes before its parent.
  pub pqueue_is_valid-IsOrdered : (h : Heap S) → (pqueue_is_valid ops h ≡ true) ↔ IsOrdered ops h
  unfolding pqueue_is_valid
  pqueue_is_valid-IsOrdered h = (λ ok. to_order h ok, λ o. from_order h.q.size h 1 (omega arith) o)
