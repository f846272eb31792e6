-- ===== src/Admin/Doorbells/Takings.antt =====
-- The pass over the completion queues ends and leaves no doorbell of theirs pending.
use mathlib.Core.Path.{subst}
use wild_cat.Common.{
  eq_of_test, update_here, ℕ, zero, suc, ◌+◌, ◌*◌, ◌≤◌, ◌<◌, ◌≡◌, refl, sym, ap, ◌∙◌, inl, inr,
  Bool, true, false, Bool-cases, Option-cases, ◌||◌, sub32, Option, none, some, ◌==◌, update, arith,
}
use wild_cat.WorkQueue.Service.{num_proc}
use wild_cat.WorkQueue.Service.Completions.{take_each, nvmev_proc_io_cq-takes}
use wild_cat.Admin.State.{CreatedQueue, Controller}
use wild_cat.Admin.Doorbells.{see_doorbell, stats_of, with_stats, cq_doorbell, cq_doorbells}
use wild_cat.Admin.Doorbells.Kept.{
  size_of_cq, AreInside, Keeps, Keeps-refl, Keeps-trans, keep-AreInside, keep_quiet, seen_update,
  le-lt, cq_size_update, with_stat_size, Quiets,
}

-- a completion queue whose doorbell was rung
rung_cq : ℕ → Controller → CreatedQueue → Controller
rung_cq qid c q =
    let i = qid * 2 + 1 in
    let queue = record q.queue { cq_tail = sub32 (c.dbs i) 1 } in
    let stats =
      take_each q.queue (num_proc q.queue.queue_size (c.dbs i) (c.old_dbs i)) (c.old_dbs i)
        (stats_of c) in
    record (see_doorbell (with_stats c stats) i (c.dbs i)) {
      cqes = update c.cqes qid (some (record q { queue = queue }));
    }

rung_cq-Keeps :
    (qid : ℕ) (c : Controller) (q : CreatedQueue)
    → c.cqes qid ≡ some q
    → Quiets c (rung_cq qid c q) (qid * 2 + 1) (some q.queue.queue_size)
unfolding rung_cq
rung_cq-Keeps qid c q e =
    let i = qid * 2 + 1 in
    (
      record {
        dbs = refl;
        seen = λ j.
            seen_update c.old_dbs i (c.dbs i) j (c.dbs j)
              (λ h. ap (λ k. c.dbs k) (eq_of_test i j h));
        sq_sizes = λ j. with_stat_size (c.sqes j) _;
        cq_sizes = cq_size_update c.cqes qid q _ e refl;
        nr_sq = refl;
        nr_cq = refl;
      },
      λ d h. update_here c.old_dbs i (c.dbs i),
    )

-- the doorbell of a completion queue always ends
abbrev OneCq : ℕ → Controller → Option (Bool × Controller) → Type 0
OneCq qid c o =
    (r : Bool × Controller) × (o ≡ some r) × Quiets c r.1 (qid * 2 + 1) (size_of_cq (c.cqes qid))

rung_cq-eq :
    (qid : ℕ) (c : Controller) (q : CreatedQueue)
    → AreInside c
    → c.cqes qid ≡ some q
    → (c.dbs (qid * 2 + 1) == c.old_dbs (qid * 2 + 1)) ≡ false
    → cq_doorbell qid c ≡ some (true, rung_cq qid c q)
unfolding cq_doorbell rung_cq
rung_cq-eq qid c q a e h =
    let i = qid * 2 + 1 in
    let (new, old) = a.cqs qid q.queue.queue_size (ap (λ o. size_of_cq o) e) in
    let taken =
      nvmev_proc_io_cq-takes q.queue (c.dbs i) new (stats_of c) (c.old_dbs i) old
        (a.cq_ends qid q.queue.queue_size (ap (λ o. size_of_cq o) e)) in
    simp (cq_doorbell, e, h, taken) refl

one_cq : (qid : ℕ) (c : Controller) → AreInside c → OneCq qid c (cq_doorbell qid c)
unfolding cq_doorbell
one_cq qid c a = elim (Option-cases (c.cqes qid)) [
  | inl nothing ↦ (
    (false, c),
    simp (cq_doorbell, nothing) refl,
    (
      Keeps-refl c,
      λ d h. let absent : none ≡ some d = ap (λ o. size_of_cq o) (sym nothing) ∙ h in cc,
    ),
  )
  | inr (q, e) ↦
      let i = qid * 2 + 1 in
      let there : some q.queue.queue_size ≡ size_of_cq (c.cqes qid) =
        ap (λ o. size_of_cq o) (sym e) in
      elim (Bool-cases (c.dbs i == c.old_dbs i)) [
        | inl still ↦ (
          (false, c),
          simp (cq_doorbell, e, still) refl,
          (Keeps-refl c, λ d h. sym (eq_of_test _ _ still)),
        )
        | inr rung ↦ (
          (true, rung_cq qid c q),
          rung_cq-eq qid c q a e rung,
          subst (λ o. Quiets c (rung_cq qid c q) i o) there (rung_cq-Keeps qid c q e),
        )
      ]
]

-- the pass over the completion queues from `qid` on, of which there are `n`
pub all_cqs :
    (n qid : ℕ) (updated : Bool) (c : Controller)
    → AreInside c
    → (r : Bool × Controller) × (cq_doorbells n qid (updated, c) ≡ some r)
      × Keeps c r.1
      × ((k d : ℕ)
          → qid ≤ k
          → k < qid + n
          → size_of_cq (c.cqes k) ≡ some d
          → r.1.old_dbs (k * 2 + 1) ≡ r.1.dbs (k * 2 + 1))
unfolding cq_doorbells
all_cqs zero qid updated c a =
    ((updated, c), refl, Keeps-refl c, λ k d low high h. absurd (le-lt qid k low high))
all_cqs (suc n) qid updated c a =
    let (r, e, (keeps, quiet)) = one_cq qid c a in
    let (r', e', later, rest) =
      all_cqs n (suc qid) (updated || r.0) r.1 (keep-AreInside c r.1 keeps a) in
    (
      r',
      rw (cq_doorbells, e) e',
      Keeps-trans c r.1 r'.1 keeps later,
      λ k d low high h. elim (Bool-cases (qid == k)) [
        | inl here ↦
            let at = eq_of_test qid k here in
            keep_quiet r.1 r'.1 later (k * 2 + 1) (
              subst
                (λ j.
                  (d : ℕ)
                  → size_of_cq (c.cqes j) ≡ some d
                  → r.1.old_dbs (j * 2 + 1) ≡ r.1.dbs (j * 2 + 1))
                at quiet d h)
        | inr there ↦
            let above : suc qid ≤ k = ground (arith, low, there) in
            rest k d above (omega (arith, high)) (keeps.cq_sizes k ∙ h)
      ],
    )
