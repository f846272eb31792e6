-- ===== src/Pqueue/Order.antt =====
-- What a valid queue is, and what the exchange of two nodes does to it.
use wild_cat.Common.{ℕ, ◌/◌, ◌≤◌, ◌<◌, ◌≡◌, ◌≢◌, refl, ◌↔◌, arith, ltb, ◌==◌, if◌then◌else◌}
use wild_cat.Pqueue.{NodeOps, Heap, place}

-- What the queue relies on in its callbacks: the least priority comes first, and the accessors
-- read and write a field of one node.
pub record NodeLaws {S : Type 0} (ops : NodeOps S) : Type 0 where
  pub cmp : (a b : ℕ) → NodeOps.cmppri ops a b ≡ ltb b a
  pub getpri-setpos : (s : S) (x v y : ℕ) → ops.getpri (ops.setpos s x v) y ≡ ops.getpri s y
  pub getpos-setpos :
      (s : S) (x v y : ℕ) → ops.getpos (ops.setpos s x v) y ≡ (if x == y then v else ops.getpos s y)
  pub getpos-setpri : (s : S) (x v y : ℕ) → ops.getpos (ops.setpri s x v) y ≡ ops.getpos s y
  pub getpri-setpri : (s : S) (x v y : ℕ) → x ≢ y → ops.getpri (ops.setpri s x v) y ≡ ops.getpri s y

module _ {S : Type 0} (ops : NodeOps S) where
  abbrev pub pri : Heap S → ℕ → ℕ
  pri h x = ops.getpri h.nodes x

  abbrev pub pos : Heap S → ℕ → ℕ
  pos h x = ops.getpos h.nodes x

  -- every node of the array knows its index
  abbrev pub KnowsPos : Heap S → Type 0
  KnowsPos h = (j : ℕ) → 1 ≤ j → j < h.q.size → pos h (h.q.d j) ≡ j

  -- the node stands in the array
  abbrev pub Holds : Heap S → ℕ → Type 0
  Holds h x = (1 ≤ pos h x) × (pos h x < h.q.size) × (h.q.d (pos h x) ≡ x)

  -- no node comes before its parent
  abbrev pub IsOrdered : Heap S → Type 0
  IsOrdered h = (c : ℕ) → 2 ≤ c → c < h.q.size → pri h (h.q.d (c / 2)) ≤ pri h (h.q.d c)

  pub record IsValid (h : Heap S) : Type 0 where
    pub sized : 1 ≤ h.q.size
    pub fits : h.q.size ≤ h.q.avail
    pub ordered : IsOrdered h
    pub known : KnowsPos h

  -- order but for the edge above `i`
  pub record OrderedBelow (h : Heap S) (i : ℕ) : Type 0 where
    pub edges : (c : ℕ) → 2 ≤ c → c < h.q.size → c ≢ i → pri h (h.q.d (c / 2)) ≤ pri h (h.q.d c)
    pub bridged :
        (c : ℕ) → 2 ≤ c → c < h.q.size → c / 2 ≡ i → 2 ≤ i → pri h (h.q.d (i / 2)) ≤ pri h (h.q.d c)

  -- order but for the edges below `i`
  pub record OrderedAbove (h : Heap S) (i : ℕ) : Type 0 where
    pub edges : (c : ℕ) → 2 ≤ c → c < h.q.size → c / 2 ≢ i → pri h (h.q.d (c / 2)) ≤ pri h (h.q.d c)
    pub bridged :
        (c : ℕ) → 2 ≤ c → c < h.q.size → c / 2 ≡ i → 2 ≤ i → pri h (h.q.d (i / 2)) ≤ pri h (h.q.d c)

  -- `b` is `a` with the nodes at `i` and `j` exchanged
  pub record Swapped (a b : Heap S) (i j : ℕ) : Type 0 where
    pub at : (k : ℕ) → b.q.d k ≡ (if j == k then a.q.d i else if i == k then a.q.d j else a.q.d k)
    pub moved :
        (x : ℕ) → pos b x ≡ (if a.q.d j == x then i else if a.q.d i == x then j else pos a x)
    pub same_pri : (x : ℕ) → pri b x ≡ pri a x
    pub same_size : b.q.size ≡ a.q.size
    pub same_avail : b.q.avail ≡ a.q.avail

  -- the nodes and their priorities are the same in both
  pub record SameNodes (a b : Heap S) : Type 0 where
    pub known : KnowsPos b
    pub members : (x : ℕ) → Holds b x ↔ Holds a x
    pub same_pri : (x : ℕ) → pri b x ≡ pri a x
    pub same_size : b.q.size ≡ a.q.size
    pub same_avail : b.q.avail ≡ a.q.avail

  -- what a sift leaves behind: the same nodes, in order
  pub record Sifted (a b : Heap S) : Type 0 where
    pub same : SameNodes a b
    pub ordered : IsOrdered b

  pub SameNodes-self : (a : Heap S) → KnowsPos a → SameNodes a a
  SameNodes-self a k = record {
    known = k;
    members = λ x. (λ h. h, λ h. h);
    same_pri = λ x. refl;
    same_size = refl;
    same_avail = refl;
  }

  pub SameNodes-trans : {a b c : Heap S} → SameNodes a b → SameNodes b c → SameNodes a c
  SameNodes-trans s t = record {
    known = t.known;
    members =
        λ x. (λ h. (s.members x).0 ((t.members x).0 h), λ h. (t.members x).1 ((s.members x).1 h));
    same_pri = λ x. omega (arith, s.same_pri x, t.same_pri x);
    same_size = omega (arith, s.same_size, t.same_size);
    same_avail = omega (arith, s.same_avail, t.same_avail);
  }

  module _ (a b : Heap S) (i j : ℕ) (sw : Swapped a b i j) (known : KnowsPos a) (hi : 1 ≤ i)
      (hi' : i < a.q.size) (hj : 1 ≤ j) (hj' : j < a.q.size) where
    swap-KnowsPos : KnowsPos b
    swap-KnowsPos k p q =
        ground (arith, sw.at k, sw.moved (b.q.d k), sw.same_size, known k, known i, known j)

    swap-Holds : (x : ℕ) → Holds a x → Holds b x
    swap-Holds x h = ground (arith, sw.moved x, sw.at (pos b x), sw.same_size, known i, known j)

    swap-Holds_back : (x : ℕ) → Holds b x → Holds a x
    swap-Holds_back x h =
        ground (arith, sw.moved x, sw.at (pos b x), sw.same_size, known i, known j)

    pub swap-SameNodes : SameNodes a b
    swap-SameNodes = record {
      known = swap-KnowsPos;
      members = λ x. (swap-Holds_back x, swap-Holds x);
      same_pri = sw.same_pri;
      same_size = sw.same_size;
      same_avail = sw.same_avail;
    }

  module _ (laws : NodeLaws ops) where
    -- Putting another node of the array at `i`, and the moving node in its place, exchanges the two.
    pub place-Swapped :
        (h : Heap S) (i j m : ℕ)
        → KnowsPos (place ops h i m)
        → 1 ≤ i
        → i < h.q.size
        → 1 ≤ j
        → j < h.q.size
        → i ≢ j
        → Swapped (place ops h i m) (place ops (place ops h i (h.q.d j)) j m) i j
    place-Swapped h i j m known hi hi' hj hj' ne =
        let distinct : h.q.d j ≢ m = ground (
          arith,
          known i,
          known j,
          laws.getpos-setpos h.nodes m i m,
          laws.getpos-setpos h.nodes m i (h.q.d j),
        ) in
        record {
          at = λ k. ground arith;
          moved = λ x. ground (
            arith,
            laws.getpos-setpos h.nodes m i x,
            laws.getpos-setpos h.nodes (h.q.d j) i x,
            laws.getpos-setpos (ops.setpos h.nodes (h.q.d j) i) m j x,
          );
          same_pri = λ x. ground (
            arith,
            laws.getpri-setpos h.nodes m i x,
            laws.getpri-setpos h.nodes (h.q.d j) i x,
            laws.getpri-setpos (ops.setpos h.nodes (h.q.d j) i) m j x,
          );
          same_size = refl;
          same_avail = refl;
        }
