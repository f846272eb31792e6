-- ===== src/Admin/Doorbells.antt =====
-- main.c: `nvmev_proc_dbs`, the pass of the dispatcher over the doorbells of all queues.
pub mod Kept
pub mod Submissions
pub mod Takings
pub mod Quiet
use wild_cat.Common.{
  ℕ, zero, suc, ◌+◌, ◌*◌, Bool, true, false, ◌||◌, Option, none, some, ◌==◌, if◌then◌else◌, ◌>>=◌,
  update,
}
use wild_cat.WorkQueue.Service.{SqStat, nvmev_proc_io_sq, nvmev_proc_io_cq}
use wild_cat.Admin.State.{SubmissionQueue, Controller}
use wild_cat.Admin.Requests.{nvmev_proc_admin_sq}

abbrev pub see_doorbell : Controller → ℕ → ℕ → Controller
see_doorbell c i db = record c { old_dbs = update c.old_dbs i db }

-- The doorbells of the admin queue; completions that the host has taken need nothing.
unfoldable pub admin_doorbells : Controller → Option (Bool × Controller)
unfolding nvmev_proc_admin_sq
admin_doorbells c =
    let new_db = c.dbs 0 in
    let sq_rung = if new_db == c.old_dbs 0 then false else true in
    (if sq_rung
      then (nvmev_proc_admin_sq c new_db (c.old_dbs 0) >>= λ c'. some (see_doorbell c' 0 new_db))
      else some c)
    >>= λ c₁.
        let cq_rung = if c₁.dbs 1 == c₁.old_dbs 1 then false else true in
        some (sq_rung || cq_rung, if cq_rung then see_doorbell c₁ 1 (c₁.dbs 1) else c₁)

-- the statistics of the submission queues, and new ones in their place
abbrev pub stats_of : Controller → ℕ → Option SqStat
stats_of c i = elim (c.sqes i) [ none ↦ none | some q ↦ some q.stat ]

abbrev pub with_stat : Option SubmissionQueue → Option SqStat → Option SubmissionQueue
with_stat (some q) (some stat) = some (record q { stat = stat })
with_stat o _ = o

abbrev pub with_stats : Controller → (ℕ → Option SqStat) → Controller
with_stats c stats = record c { sqes = λ i. with_stat (c.sqes i) (stats i) }

-- `S` is the state of the FTLs and of the workers, on which `proc` handles an entry of a queue.
module _ {S : Type 0} (proc : ℕ → ℕ → S → Option (ℕ × S)) where
  -- the doorbell of one submission queue
  unfoldable pub sq_doorbell : ℕ → Controller → S → Bool × Controller × S
  unfolding nvmev_proc_io_sq
  sq_doorbell qid c s = elim (c.sqes qid) [
    | none ↦ (false, c, s)
    | some q ↦
        let i = qid * 2 in
        if c.dbs i == c.old_dbs i
        then (false, c, s)
        else (let (db, stat, s') =
              nvmev_proc_io_sq (proc qid) q.queue_size q.stat s (c.dbs i) (c.old_dbs i) in
            (
              true,
              record (see_doorbell c i db) {
                sqes = update c.sqes qid (some (record q { stat = stat }));
              },
              s',
            ))
  ]

  -- the submission queues from `qid` on, `n` of them
  unfoldable pub sq_doorbells : ℕ → ℕ → Bool × Controller × S → Bool × Controller × S
  unfolding sq_doorbell
  sq_doorbells zero qid r = r
  sq_doorbells (suc n) qid (updated, c, s) =
      let (rung, c', s') = sq_doorbell qid c s in sq_doorbells n (suc qid) (updated || rung, c', s')

-- the doorbell of one completion queue
unfoldable pub cq_doorbell : ℕ → Controller → Option (Bool × Controller)
unfolding nvmev_proc_io_cq
cq_doorbell qid c = elim (c.cqes qid) [
  | none ↦ some (false, c)
  | some q ↦
      let i = qid * 2 + 1 in
      if c.dbs i == c.old_dbs i
      then some (false, c)
      else (nvmev_proc_io_cq q.queue (stats_of c) (c.dbs i) (c.old_dbs i) >>= λ (queue, stats).
          some (
            true,
            record (see_doorbell (with_stats c stats) i (c.dbs i)) {
              cqes = update c.cqes qid (some (record q { queue = queue }));
            },
          ))
]

unfoldable pub cq_doorbells : ℕ → ℕ → Bool × Controller → Option (Bool × Controller)
unfolding cq_doorbell
cq_doorbells zero qid r = some r
cq_doorbells (suc n) qid (updated, c) =
    cq_doorbell qid c >>= λ (rung, c'). cq_doorbells n (suc qid) (updated || rung, c')

-- whether a doorbell was rung, the controller and the rest of the state
unfoldable pub nvmev_proc_dbs :
    {S : Type 0} → (ℕ → ℕ → S → Option (ℕ × S)) → Controller → S → Option (Bool × Controller × S)
unfolding admin_doorbells sq_doorbells cq_doorbells
nvmev_proc_dbs proc c s = admin_doorbells c >>= λ (updated, c₁).
    let (updated₂, c₂, s') = sq_doorbells proc c₁.nr_sq 1 (updated, c₁, s) in
    cq_doorbells c₂.nr_cq 1 (updated₂, c₂) >>= λ (updated₃, c₃). some (updated₃, c₃, s')
