-- ===== src/WorkQueue/Service/Completions.antt =====
-- The doorbell of a completion queue.
use wild_cat.Common.{
  ◌%◌, ℕ, zero, suc, ◌+◌, ◌-◌, ◌≤◌, ◌<◌, ◌≡◌, refl, inl, inr, Bool-cases, Option, some, ◌==◌, ltb,
  leb, if◌then◌else◌, arith, true, false, sub32, ap, ◌>>=◌,
}
use wild_cat.WorkQueue.Service.{
  has_entry, SqStat, CompletionQueue, num_proc, taken_by_host, take_completions, nvmev_proc_io_cq,
}

-- the completions of `n` entries from `e` on, which go on at 0 behind the last one, taken in turn
unfoldable pub take_each : CompletionQueue → ℕ → ℕ → (ℕ → Option SqStat) → ℕ → Option SqStat
take_each q zero e sqes = sqes
take_each q (suc n) e sqes =
    take_each q n (if suc e == q.queue_size then 0 else suc e) (taken_by_host sqes (q.cq e).sq_id)

has_entry_lem : (q : CompletionQueue) (i : ℕ) → i < q.queue_size → has_entry q i ≡ true
has_entry_lem q i lt = ground (arith, lt)

-- behind the last entry there is one more in the last page, if that is not full
has_entry_end :
    (q : CompletionQueue) (i : ℕ) → i ≡ q.queue_size → 0 < q.queue_size % 256 → has_entry q i ≡ true
has_entry_end q i at part = ground (arith, at, part)

module _ (q : CompletionQueue) (new_db : ℕ) (new : new_db < q.queue_size) where
  -- the doorbell is ahead
  take_ahead :
      (n fuel i : ℕ) (sqes : ℕ → Option SqStat)
      → i + n ≡ new_db
      → n ≤ fuel
      → take_completions fuel q new_db i sqes ≡ some (take_each q n i sqes)
  unfolding take_completions take_each
  take_ahead zero zero i sqes at enough =
      let here : (i == new_db) ≡ true = ground (arith, at) in rw (take_completions, here) refl
  take_ahead zero (suc fuel) i sqes at enough =
      let here : (i == new_db) ≡ true = ground (arith, at) in rw (take_completions, here) refl
  take_ahead (suc n) zero i sqes at enough = elim enough [ ]
  take_ahead (suc n) (suc fuel) i sqes at enough =
      let away : (i == new_db) ≡ false = ground (arith, at) in
      let inside : leb q.queue_size i ≡ false = ground (arith, at, new) in
      let more : (suc i == q.queue_size) ≡ false = ground (arith, at, new) in
      rw (take_completions, away, has_entry_lem q i (ground (arith, inside)), inside, more)
        (take_ahead n fuel (suc i) (taken_by_host sqes (q.cq i).sq_id) (omega (arith, at))
          (omega (arith, enough)))

  -- the doorbell is behind, and the end of the queue is passed
  take_around :
      (k n fuel i : ℕ) (sqes : ℕ → Option SqStat)
      → n ≡ k + new_db
      → i + suc k ≡ q.queue_size
      → new_db < i
      → 0 < q.queue_size % 256
      → n ≤ fuel
      → take_completions (suc (suc fuel)) q new_db i sqes ≡ some (take_each q (suc n) i sqes)
  unfolding take_completions take_each
  take_around zero n fuel i sqes count at behind part enough =
      let away : (i == new_db) ≡ false = ground (arith, behind) in
      let inside : leb q.queue_size i ≡ false = ground (arith, at) in
      let last : (suc i == q.queue_size) ≡ true = ground (arith, at) in
      let apart : (suc i == new_db) ≡ false = ground (arith, behind) in
      let at' : suc i ≡ q.queue_size = omega (arith, at) in
      let past : leb q.queue_size (suc i) ≡ true = ground (arith, at) in
      rw
        (
          take_completions,
          away,
          has_entry_lem q i (ground (arith, inside)),
          inside,
          last,
          apart,
          has_entry_end q (suc i) at' part,
          past,
        )
        (take_ahead n fuel 0 (taken_by_host sqes (q.cq i).sq_id) (omega (arith, count)) enough)
  take_around (suc k) zero fuel i sqes count at behind part enough = absurd (omega (arith, count))
  take_around (suc k) (suc n) zero i sqes count at behind part enough = elim enough [ ]
  take_around (suc k) (suc n) (suc fuel) i sqes count at behind part enough =
      let away : (i == new_db) ≡ false = ground (arith, behind) in
      let inside : leb q.queue_size i ≡ false = ground (arith, at) in
      let more : (suc i == q.queue_size) ≡ false = ground (arith, at) in
      rw (take_completions, away, has_entry_lem q i (ground (arith, inside)), inside, more)
        (take_around k n fuel (suc i) (taken_by_host sqes (q.cq i).sq_id) (omega (arith, count))
          (omega (arith, at)) (omega (arith, behind)) part (omega (arith, enough)))

  taken-tail :
      (sqes r : ℕ → Option SqStat) (old_db : ℕ)
      → take_completions (suc (suc q.queue_size)) q new_db old_db sqes ≡ some r
      → nvmev_proc_io_cq q sqes new_db old_db ≡ some (record q { cq_tail = sub32 new_db 1 }, r)
  unfolding nvmev_proc_io_cq
  taken-tail sqes r old_db e =
      ap (λ o. o >>= λ s. some (record q { cq_tail = sub32 new_db 1 }, s)) e

  -- For doorbells inside the queue, nvmev_proc_io_cq ends, takes the completions of the entries
  -- between the old and the new doorbell, each once and in turn, also where they pass the end of a
  -- queue whose last page is not full, and sets the tail to the new doorbell less one as a word of 32
  -- bits, which is 2^32 - 1 for the doorbell 0.
  pub nvmev_proc_io_cq-takes :
      (sqes : ℕ → Option SqStat) (old_db : ℕ)
      → old_db < q.queue_size
      → (new_db < old_db → 0 < q.queue_size % 256)
      → nvmev_proc_io_cq q sqes new_db old_db
        ≡ some (
          record q { cq_tail = sub32 new_db 1 },
          take_each q (num_proc q.queue_size new_db old_db) old_db sqes,
        )
  unfolding nvmev_proc_io_cq
  nvmev_proc_io_cq-takes sqes old_db old part = elim (Bool-cases (ltb new_db old_db)) [
    | inl wraps ↦
        let k = q.queue_size - suc old_db in
        let count : new_db + q.queue_size - old_db ≡ suc (k + new_db) =
          ground (arith, wraps, old) in
        let all =
          take_around k (k + new_db) q.queue_size old_db sqes refl (omega (arith, old))
            (ground (arith, wraps)) (part (ground (arith, wraps))) (ground (arith, wraps, old)) in
        rw (wraps, count) (taken-tail sqes _ old_db all)
    | inr ahead ↦
        let all =
          take_ahead (new_db - old_db) (suc (suc q.queue_size)) old_db sqes (ground (arith, ahead))
            (omega (arith, new)) in
        rw ahead (taken-tail sqes _ old_db all)
  ]
