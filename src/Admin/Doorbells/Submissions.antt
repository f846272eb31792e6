-- ===== src/Admin/Doorbells/Submissions.antt =====
-- The pass over the submission queues leaves no doorbell of theirs pending.
use mathlib.Core.Path.{subst}
use wild_cat.Common.{
  eq_of_test, update_here, ℕ, zero, suc, ◌+◌, ◌*◌, ◌≤◌, ◌<◌, ◌≡◌, refl, sym, ap, ◌∙◌, inl, inr,
  Bool, true, false, Bool-cases, Option-cases, ◌||◌, Option, none, some, ◌==◌, update, arith,
}
use wild_cat.WorkQueue.Service.{nvmev_proc_io_sq}
use wild_cat.WorkQueue.Service.Doorbell.{nvmev_proc_io_sq-reaches}
use wild_cat.Admin.State.{SubmissionQueue, Controller}
use wild_cat.Admin.Doorbells.{see_doorbell, sq_doorbell, sq_doorbells}
use wild_cat.Admin.Doorbells.Kept.{
  size_of_sq, AreInside, Keeps, Keeps-refl, Keeps-trans, keep-AreInside, keep_quiet, seen_update,
  le-lt, sq_size_update, Quiets,
}

module _ {S : Type 0} (proc : ℕ → ℕ → S → Option (ℕ × S))
    (all : (qid e : ℕ) (s : S) → (r : ℕ × S) × (proc qid e s ≡ some r)) where
  -- a submission queue whose doorbell was rung
  rung_sq : (qid : ℕ) (c : Controller) (s : S) → SubmissionQueue → Controller
  rung_sq qid c s q =
      let i = qid * 2 in
      let r = nvmev_proc_io_sq (proc qid) q.queue_size q.stat s (c.dbs i) (c.old_dbs i) in
      record (see_doorbell c i r.0) { sqes = update c.sqes qid (some (record q { stat = r.1 })) }

  rung_sq-Keeps :
      (qid : ℕ) (c : Controller) (s : S) (q : SubmissionQueue)
      → AreInside c
      → c.sqes qid ≡ some q
      → Quiets c (rung_sq qid c s q) (qid * 2) (some q.queue_size)
  unfolding rung_sq
  rung_sq-Keeps qid c s q a e =
      let i = qid * 2 in
      let (new, old) = a.sqs qid q.queue_size (ap (λ o. size_of_sq o) e) in
      let r = nvmev_proc_io_sq (proc qid) q.queue_size q.stat s (c.dbs i) (c.old_dbs i) in
      let reached : r.0 ≡ c.dbs i =
        (nvmev_proc_io_sq-reaches (proc qid) q.queue_size (all qid) q.stat s (c.dbs i) (c.old_dbs i)
          new old).0 in
      (
        record {
          dbs = refl;
          seen = λ j.
              seen_update c.old_dbs i r.0 j (c.dbs j)
                (λ h. reached ∙ ap (λ k. c.dbs k) (eq_of_test i j h));
          sq_sizes = sq_size_update c.sqes qid q (record q { stat = r.1 }) e refl;
          cq_sizes = λ j. refl;
          nr_sq = refl;
          nr_cq = refl;
        },
        λ d h. update_here c.old_dbs i r.0 ∙ reached,
      )

  no_sq : (qid : ℕ) (c : Controller) (s : S) → c.sqes qid ≡ none → (sq_doorbell proc qid c s).1 ≡ c
  unfolding sq_doorbell
  no_sq qid c s e = simp (sq_doorbell, e) refl

  still_sq :
      (qid : ℕ) (c : Controller) (s : S) (q : SubmissionQueue)
      → c.sqes qid ≡ some q
      → (c.dbs (qid * 2) == c.old_dbs (qid * 2)) ≡ true
      → (sq_doorbell proc qid c s).1 ≡ c
  unfolding sq_doorbell
  still_sq qid c s q e h = simp (sq_doorbell, e, h) refl

  rung_sq-eq :
      (qid : ℕ) (c : Controller) (s : S) (q : SubmissionQueue)
      → c.sqes qid ≡ some q
      → (c.dbs (qid * 2) == c.old_dbs (qid * 2)) ≡ false
      → (sq_doorbell proc qid c s).1 ≡ rung_sq qid c s q
  unfolding sq_doorbell rung_sq
  rung_sq-eq qid c s q e h = simp (sq_doorbell, e, h) refl

  one_sq :
      (qid : ℕ) (c : Controller) (s : S)
      → AreInside c
      → Quiets c (sq_doorbell proc qid c s).1 (qid * 2) (size_of_sq (c.sqes qid))
  one_sq qid c s a = elim (Option-cases (c.sqes qid)) [
    | inl nothing ↦
        subst (λ (c' : Controller). Quiets c c' (qid * 2) (size_of_sq (c.sqes qid)))
          (sym (no_sq qid c s nothing))
          (
            Keeps-refl c,
            λ d h. let absent : none ≡ some d = ap (λ o. size_of_sq o) (sym nothing) ∙ h in cc,
          )
    | inr (q, e) ↦
        let there : some q.queue_size ≡ size_of_sq (c.sqes qid) = ap (λ o. size_of_sq o) (sym e) in
        elim (Bool-cases (c.dbs (qid * 2) == c.old_dbs (qid * 2))) [
          | inl still ↦
              subst (λ (c' : Controller). Quiets c c' (qid * 2) (size_of_sq (c.sqes qid)))
                (sym (still_sq qid c s q e still)) (Keeps-refl c, λ d h. sym (eq_of_test _ _ still))
          | inr rung ↦
              subst (λ (c' : Controller). Quiets c c' (qid * 2) (size_of_sq (c.sqes qid)))
                (sym (rung_sq-eq qid c s q e rung))
                (subst (λ o. Quiets c (rung_sq qid c s q) (qid * 2) o) there
                  (rung_sq-Keeps qid c s q a e))
        ]
  ]

  -- the pass over the submission queues from `qid` on, of which there are `n`
  pub all_sqs :
      (n qid : ℕ) (updated : Bool) (c : Controller) (s : S)
      → AreInside c
      → let c' = (sq_doorbells proc n qid (updated, c, s)).1 in
        Keeps c c'
        × ((k d : ℕ)
            → qid ≤ k
            → k < qid + n
            → size_of_sq (c.sqes k) ≡ some d
            → c'.old_dbs (k * 2) ≡ c'.dbs (k * 2))
  unfolding sq_doorbells
  all_sqs zero qid updated c s a = (Keeps-refl c, λ k d low high h. absurd (le-lt qid k low high))
  all_sqs (suc n) qid updated c s a =
      let r = sq_doorbell proc qid c s in
      let (keeps, quiet) = one_sq qid c s a in
      let (later, rest) =
        all_sqs n (suc qid) (updated || r.0) r.1 r.2 (keep-AreInside c r.1 keeps a) in
      let c' = (sq_doorbells proc n (suc qid) (updated || r.0, r.1, r.2)).1 in
      (
        Keeps-trans c r.1 c' keeps later,
        λ k d low high h. elim (Bool-cases (qid == k)) [
          | inl here ↦
              let e = eq_of_test qid k here in
              keep_quiet r.1 c' later (k * 2) (
                subst
                  (λ j.
                    (d : ℕ)
                    → size_of_sq (c.sqes j) ≡ some d
                    → r.1.old_dbs (j * 2) ≡ r.1.dbs (j * 2))
                  e quiet d h)
          | inr there ↦
              let above : suc qid ≤ k = ground (arith, low, there) in
              rest k d above (omega (arith, high)) (keeps.sq_sizes k ∙ h)
        ],
      )
