-- ===== src/WorkQueue/Service/Doorbell.antt =====
-- The doorbell of a submission queue.
use native.Mathlib.Nat.{mod-eq_of_lt, add-mod_right}
use mathlib.Core.Path.{subst}
use wild_cat.Common.Radix.{low_digit}
use wild_cat.Common.{
  ◌*◌, refl, true, inl, inr, Bool-cases, ℕ, zero, suc, ◌+◌, ◌-◌, ◌%◌, ◌<◌, ◌≡◌, Option, some, ◌==◌,
  ltb, arith,
}
use wild_cat.WorkQueue.Service.{SqStat, count_io, dispatch, num_proc, nvmev_proc_io_sq}

landed :
    (queue_size new_db old_db : ℕ)
    → new_db < queue_size
    → old_db < queue_size
    → (old_db + (0 + num_proc queue_size new_db old_db)) % queue_size ≡ new_db
landed queue_size new_db old_db new old = elim (Bool-cases (ltb new_db old_db)) [
  | inl wraps ↦
      let sum : old_db + (0 + (new_db + queue_size - old_db)) ≡ new_db + queue_size =
        ground (arith, wraps, old) in
      rw (wraps, sum, add-mod_right new_db queue_size) (mod-eq_of_lt new)
  | inr ahead ↦
      let sum : old_db + (0 + (new_db - old_db)) ≡ new_db = ground (arith, ahead) in
      rw (ahead, sum) (mod-eq_of_lt new)
]

few :
    (queue_size new_db old_db : ℕ)
    → new_db < queue_size
    → old_db < queue_size
    → num_proc queue_size new_db old_db < queue_size
few queue_size new_db old_db new old = ground (arith, new, old)

-- `s'` is what the handler makes of `s` at the `n` places from `i` on, one after the other, each
-- modulo the size of the queue.
unfoldable pub Handles : {S : Type 0} → (ℕ → S → Option (ℕ × S)) → ℕ → ℕ → ℕ → S → S → Type 0
Handles proc queue_size i zero s s' = s' ≡ s
Handles {S = S} proc queue_size i (suc n) s s' =
    (io_size : ℕ) × (t : S) × (proc (i % queue_size) s ≡ some (io_size, t))
    × Handles proc queue_size (suc i) n t s'

ring_end : (size a e : ℕ) → (suc e == size) ≡ true → suc a * size + 0 ≡ suc (a * size + e)
ring_end size a e last = let at : size ≡ suc e = ground (arith, last) in omega (arith, at)

module _ {S : Type 0} (proc : ℕ → S → Option (ℕ × S)) (queue_size : ℕ)
    (all : (e : ℕ) (s : S) → (r : ℕ × S) × (proc e s ≡ some r)) where
  -- where every entry is handled, all are, in the lap `a` of the queue
  dispatch-Handles :
      (n a e k : ℕ) (stat : SqStat) (s : S)
      → e < queue_size
      → let r = dispatch proc queue_size n e (k, stat, s) in
        (r.0 ≡ k + n) × Handles proc queue_size (a * queue_size + e) n s r.2
  unfolding dispatch Handles
  dispatch-Handles zero a e k stat s lt = (omega arith, refl)
  dispatch-Handles (suc n) a e k stat s lt =
      let ((io_size, s'), h) = all e s in
      let place : (a * queue_size + e) % queue_size ≡ e = low_digit a e queue_size lt in
      elim (Bool-cases (suc e == queue_size)) [
        | inl last ↦
            let (count, rest) =
              dispatch-Handles n (suc a) 0 (suc k) (count_io stat io_size) s' (omega (arith, lt)) in
            let at : suc a * queue_size + 0 ≡ suc (a * queue_size + e) =
              ring_end queue_size a e last in
            rw (dispatch, h, last)
              (
                omega (arith, count),
                (
                  io_size,
                  s',
                  rw place h,
                  subst
                      (λ i.
                        Handles proc queue_size i n s'
                          (dispatch proc queue_size n 0 (suc k, count_io stat io_size, s')).2)
                      at rest,
                ),
              )
        | inr more ↦
            let (count, rest) =
              dispatch-Handles n a (suc e) (suc k) (count_io stat io_size) s'
                (ground (arith, more, lt)) in
            let at : a * queue_size + suc e ≡ suc (a * queue_size + e) = omega arith in
            rw (dispatch, h, more)
              (
                omega (arith, count),
                (
                  io_size,
                  s',
                  rw place h,
                  subst
                      (λ i.
                        Handles proc queue_size i n s'
                          (dispatch proc queue_size n (suc e) (suc k, count_io stat io_size, s')).2)
                      at rest,
                ),
              )
      ]

  -- For doorbells below the size of a queue, and a handler that handles every entry,
  -- nvmev_proc_io_sq returns the doorbell that the host has written. It handles fewer entries than the
  -- queue has, those from the old doorbell on, one after the other modulo the size of the queue.
  pub nvmev_proc_io_sq-reaches :
      (stat : SqStat) (s : S) (new_db old_db : ℕ)
      → new_db < queue_size
      → old_db < queue_size
      → let n = num_proc queue_size new_db old_db in
        let r = nvmev_proc_io_sq proc queue_size stat s new_db old_db in
        (r.0 ≡ new_db) × (n < queue_size) × Handles proc queue_size old_db n s r.2
  unfolding nvmev_proc_io_sq
  nvmev_proc_io_sq-reaches stat s new_db old_db new old =
      let (count, handled) =
        dispatch-Handles (num_proc queue_size new_db old_db) 0 old_db 0 stat s old in
      let at : 0 * queue_size + old_db ≡ old_db = omega arith in
      (
        rw count (landed queue_size new_db old_db new old),
        few queue_size new_db old_db new old,
        subst
            (λ i.
              Handles proc queue_size i (num_proc queue_size new_db old_db) s
                (dispatch proc queue_size (num_proc queue_size new_db old_db) old_db
                  (0, stat, s)).2)
            at handled,
      )
