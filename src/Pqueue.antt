-- ===== src/Pqueue.antt =====
-- pqueue/pqueue.c: the binary heap in an array, over nodes that keep their own position.
-- A node is a handle (a number) into a store `S`; the callbacks are the record `NodeOps`.
pub mod Order
pub mod Up
pub mod Down
pub mod Insert
pub mod Remove
pub mod Reprioritize
pub mod Check
use wild_cat.Common.{
  ℕ, zero, suc, ◌+◌, ◌-◌, ◌*◌, ◌/◌, Bool, true, false, ◌&&◌, Option, none, some, ltb, leb, ◌==◌,
  if◌then◌else◌, update,
}

-- the callbacks that `pqueue_init` is given
pub record NodeOps (S : Type 0) : Type 0 where
  pub cmppri : ℕ → ℕ → Bool
  pub getpri : S → ℕ → ℕ
  pub setpri : S → ℕ → ℕ → S
  pub getpos : S → ℕ → ℕ
  pub setpos : S → ℕ → ℕ → S

-- `pqueue_t`; `d` is the array of node pointers, whose entry 0 is not used
pub record Pqueue : Type 0 where
  pub d : ℕ → ℕ
  pub size : ℕ
  pub avail : ℕ
  pub step : ℕ

-- a queue with the store that its nodes live in
pub record Heap (S : Type 0) : Type 0 where
  pub q : Pqueue
  pub nodes : S

-- `pqueue_init`, where both allocations succeed
unfoldable pub pqueue_init : ℕ → Pqueue
pqueue_init n = record { d = λ _. 0; size = 1; avail = n + 1; step = n + 1 }

unfoldable pqueue_size : Pqueue → ℕ
pqueue_size q = q.size - 1

-- `pqueue_peek`; `none` is NULL
unfoldable pub pqueue_peek : Pqueue → Option ℕ
pqueue_peek q = if q.size == 1 then none else some (q.d 1)

module _ {S : Type 0} (ops : NodeOps S) where
  open ops use {cmppri, getpri, setpri, getpos, setpos}

  -- `q->d[i] = x; q->setpos(x, i);`
  abbrev pub place : Heap S → ℕ → ℕ → Heap S
  place h i x = record { q = record (h.q) { d = update h.q.d i x }; nodes = setpos h.nodes x i }

  -- the loop of `bubble_up`: the queue and the last `i`
  pub bubble_up_loop : ℕ → Heap S → ℕ → ℕ → Heap S × ℕ
  bubble_up_loop zero h i moving_pri = (h, i)
  bubble_up_loop (suc f) h i moving_pri =
      elim (ltb 1 i && cmppri (getpri h.nodes (h.q.d (i / 2))) moving_pri) [
        | true ↦ bubble_up_loop f (place h i (h.q.d (i / 2))) (i / 2) moving_pri
        | false ↦ (h, i)
      ]

  pub bubble_up : Heap S → ℕ → Heap S
  unfolding bubble_up_loop
  bubble_up h i =
      let (h', i') = bubble_up_loop i h i (getpri h.nodes (h.q.d i)) in place h' i' (h.q.d i)

  pub maxchild : Heap S → ℕ → ℕ
  maxchild h i =
      let left = 2 * i in
      if leb h.q.size left
      then 0
      else if ltb (left + 1) h.q.size
          && cmppri (getpri h.nodes (h.q.d left)) (getpri h.nodes (h.q.d (left + 1)))
      then left + 1
      else left

  -- the loop of `percolate_down`: the queue and the last `i`
  pub percolate_down_loop : ℕ → Heap S → ℕ → ℕ → Heap S × ℕ
  unfolding maxchild
  percolate_down_loop zero h i moving_pri = (h, i)
  percolate_down_loop (suc f) h i moving_pri =
      let child = maxchild h i in
      elim (ltb 0 child && cmppri moving_pri (getpri h.nodes (h.q.d child))) [
        | true ↦ percolate_down_loop f (place h i (h.q.d child)) child moving_pri
        | false ↦ (h, i)
      ]

  pub percolate_down : Heap S → ℕ → Heap S
  unfolding percolate_down_loop
  percolate_down h i =
      let (h', i') = percolate_down_loop h.q.size h i (getpri h.nodes (h.q.d i)) in
      place h' i' (h.q.d i)

  -- A full queue is only reported: the write goes past the array.
  pub pqueue_insert : Heap S → ℕ → Heap S
  pqueue_insert h x =
      let i = h.q.size in
      bubble_up (record h { q = record (h.q) { d = update h.q.d i x; size = i + 1 } }) i

  pub pqueue_change_priority : Heap S → ℕ → ℕ → Heap S
  pqueue_change_priority h new_pri x =
      let old_pri = getpri h.nodes x in
      let h' = record h { nodes = setpri h.nodes x new_pri } in
      let posn = getpos h'.nodes x in
      if cmppri old_pri new_pri then bubble_up h' posn else percolate_down h' posn

  pub pqueue_remove : Heap S → ℕ → Heap S
  pqueue_remove h x =
      let posn = getpos h.nodes x in
      let last = h.q.d (h.q.size - 1) in
      let h' = record h { q = record (h.q) { d = update h.q.d posn last; size = h.q.size - 1 } } in
      if cmppri (getpri h.nodes x) (getpri h.nodes (h'.q.d posn))
      then bubble_up h' posn
      else percolate_down h' posn

  -- the popped node, `none` for NULL
  pub pqueue_pop : Heap S → Option ℕ × Heap S
  pqueue_pop h =
      if h.q.size == 1
      then (none, h)
      else let last = h.q.d (h.q.size - 1) in
        let h' = record h { q = record (h.q) { d = update h.q.d 1 last; size = h.q.size - 1 } } in
        (some (h.q.d 1), percolate_down h' 1)

  -- The recursion of `subtree_is_valid` on fuel; the depth of a heap is below its size.
  pub subtree_is_valid : ℕ → Heap S → ℕ → Bool
  subtree_is_valid zero h i = true
  subtree_is_valid (suc f) h i =
      let pri = λ (k : ℕ). getpri h.nodes (h.q.d k) in
      let l = subtree_is_valid f h (2 * i) in
      let r = subtree_is_valid f h (2 * i + 1) in
      let right_ok =
        if ltb (2 * i + 1) h.q.size
        then (if cmppri (pri i) (pri (2 * i + 1)) then false else r)
        else true in
      if ltb (2 * i) h.q.size
      then (if cmppri (pri i) (pri (2 * i)) then false else if l then right_ok else false)
      else right_ok

  pub pqueue_is_valid : Heap S → Bool
  unfolding subtree_is_valid
  pqueue_is_valid h = subtree_is_valid h.q.size h 1
