-- ===== src/WorkQueue/Requests/Enqueue.antt =====
-- A command that is enqueued takes a free entry and joins the list of requests.
use mathlib.Core.Path.{subst}
use wild_cat.Common.{
  sym, ap, ◌∙◌, ℕ, suc, ◌≤◌, ◌<◌, ◌≡◌, refl, true, false, some, List, [], ◌∷◌, ◌==◌, ltb, leb,
  if◌then◌else◌, update, length, arith,
}
use wild_cat.World.{now, tick}
use wild_cat.WorkQueue.{no_entry, nr_max_parallel_io, IoWork, IoWorker, insert_req_sorted}
use wild_cat.WorkQueue.Chain.{Links, ended, linked, NotIn, beside, IsChain}
use wild_cat.WorkQueue.Insert.{unlinked, Inserted, insert_req_sorted-Inserted}
use wild_cat.WorkQueue.Requests.{
  IoWorkers, get_io_worker, set_worker, allocate_work_queue_entry, enqueue, IoRequest,
  enqueue_io_req, filled_req, has_free,
}

-- an entry that is not linked can be written
Links-written :
    (q : ℕ → IoWork) (e : ℕ) (d : IoWork) (n : ℕ) (xs : List ℕ)
    → NotIn e xs
    → Links q n xs
    → Links (update q e d) n xs
Links-written q e d n [] a l = ended
Links-written q e d n (x ∷ xs) (beside ne a) (linked next prev lt rest) =
    let off : (e == x) ≡ false = ground (arith, ne) in
    linked (rw off next) (rw off prev) lt (Links-written q e d x xs a rest)

written : (q : ℕ → IoWork) (e : ℕ) (d : IoWork) → update q e d e ≡ d
written q e d = ground arith

-- the worker whose first free entry has been taken and filled in
unfoldable pub taken_worker : IoWorker → (IoWork → IoWork) → IoWorker
taken_worker w fill = record w {
  free_seq = (w.work_queue w.free_seq).next;
  work_queue = update w.work_queue w.free_seq (fill (w.work_queue w.free_seq));
}

taken-IsChain :
    (w : IoWorker) (fill : IoWork → IoWork) (r : List ℕ)
    → NotIn w.free_seq r
    → IsChain w r
    → IsChain (taken_worker w fill) r
unfolding taken_worker
taken-IsChain w fill r a c = record {
  links =
      Links-written w.work_queue w.free_seq (fill (w.work_queue w.free_seq)) no_entry r a c.links;
  distinct = c.distinct;
  start = c.start;
  end = c.end;
}

lt→ltb : (a b : ℕ) → a < b → ltb a b ≡ true
lt→ltb a b h = ground (arith, h)

lt→leb : (a b : ℕ) → a < b → leb b a ≡ false
lt→leb a b h = ground (arith, h)

written_worker : (f : ℕ → IoWorker) (i : ℕ) (w : IoWorker) → update f i w i ≡ w
written_worker f i w = ground arith

-- the workers after an entry of the worker `turn` is in use, which leaves it as `w`
abbrev enqueued : IoWorkers → ℕ → IoWorker → IoWorkers
enqueued v turn w =
    let w₀ = v.io_workers turn in
    let w₁ = record w₀ { free_seq = (w₀.work_queue w₀.free_seq).next } in
    set_worker
      (record (set_worker v turn w₁) {
        io_worker_turn = if suc turn == v.nr_io_workers then 0 else suc turn;
      })
      turn w

enqueued-turn : (v : IoWorkers) (turn : ℕ) (w : IoWorker) → (enqueued v turn w).io_workers turn ≡ w
enqueued-turn v turn w =
    let w₀ = v.io_workers turn in
    written_worker
      (set_worker v turn (record w₀ { free_seq = (w₀.work_queue w₀.free_seq).next })).io_workers
      turn w

enqueue-found :
    (v : IoWorkers) (sqid target : ℕ) (fill : IoWork → IoWork) (w : IoWorker)
    → ((v.io_workers (get_io_worker v sqid)).work_queue
        (v.io_workers (get_io_worker v sqid)).free_seq).next
      < nr_max_parallel_io
    → insert_req_sorted
        (taken_worker (v.io_workers (get_io_worker v sqid)) fill)
        (v.io_workers (get_io_worker v sqid)).free_seq
        target
      ≡ some w
    → enqueue v sqid target fill ≡ some (enqueued v (get_io_worker v sqid) w)
unfolding enqueue allocate_work_queue_entry taken_worker
enqueue-found v sqid target fill w free found =
    let w₀ = v.io_workers (get_io_worker v sqid) in
    let has = lt→ltb _ _ free in
    let spare = lt→leb _ _ free in
    rw
      (
        spare,
        has,
        written_worker v.io_workers (get_io_worker v sqid)
            (record w₀ { free_seq = (w₀.work_queue w₀.free_seq).next }),
        found,
      )
      refl

-- the entry of a command: what the request says, the time of its arrival, and nothing done yet
pub record IsCommand (req : IoRequest) (clock : ℕ) (d : IoWork) : Type 0 where
  pub command_id : d.command_id ≡ req.command_id
  pub sqid : d.sqid ≡ req.sqid
  pub cqid : d.cqid ≡ req.cqid
  pub sq_entry : d.sq_entry ≡ req.sq_entry
  pub status : d.status ≡ req.status
  pub nsecs_start : d.nsecs_start ≡ req.nsecs_start
  pub nsecs_enqueue : d.nsecs_enqueue ≡ clock
  pub nsecs_target : d.nsecs_target ≡ req.nsecs_target
  pub waits : (d.is_completed ≡ false) × (d.is_copied ≡ false)
  pub external : d.is_internal ≡ false

IsCommand-of :
    (req : IoRequest) (clock : ℕ) (d old : IoWork)
    → unlinked d ≡ unlinked (filled_req req clock old)
    → IsCommand req clock d
unfolding unlinked filled_req
IsCommand-of req clock d old e = record {
  command_id = ap (λ (x : IoWork). x.command_id) e;
  sqid = ap (λ (x : IoWork). x.sqid) e;
  cqid = ap (λ (x : IoWork). x.cqid) e;
  sq_entry = ap (λ (x : IoWork). x.sq_entry) e;
  status = ap (λ (x : IoWork). x.status) e;
  nsecs_start = ap (λ (x : IoWork). x.nsecs_start) e;
  nsecs_enqueue = ap (λ (x : IoWork). x.nsecs_enqueue) e;
  nsecs_target = ap (λ (x : IoWork). x.nsecs_target) e;
  waits = (ap (λ (x : IoWork). x.is_completed) e, ap (λ (x : IoWork). x.is_copied) e);
  external = ap (λ (x : IoWork). x.is_internal) e;
}

unwritten : (q : ℕ → IoWork) (e : ℕ) (d : IoWork) (x : ℕ) → (x == e) ≡ false → update q e d x ≡ q x
unwritten q e d x off = let off' : (e == x) ≡ false = ground (arith, off) in rw off' refl

-- `__enqueue_io_req` of a command, where the worker whose turn it is has an entry that is free and is
-- not the last one, puts the command into this entry, with what the request says and the time of its
-- arrival, as not copied and not completed, and leaves the other entries but for their links. It puts
-- the entry into the worker's list of requests, which stays linked and in the order in which the
-- requests are due.
pub enqueue_io_req-Inserted :
    (v : IoWorkers) (req : IoRequest) (r : List ℕ)
    → IsChain (v.io_workers (get_io_worker v req.sqid)) r
    → NotIn (v.io_workers (get_io_worker v req.sqid)).free_seq r
    → (v.io_workers (get_io_worker v req.sqid)).free_seq < no_entry
    → ((v.io_workers (get_io_worker v req.sqid)).work_queue
        (v.io_workers (get_io_worker v req.sqid)).free_seq).next
      < nr_max_parallel_io
    → length r ≤ nr_max_parallel_io
    → (v' : IoWorkers) × (enqueue_io_req v req ≡ some v')
      × Inserted
          (taken_worker (v.io_workers (get_io_worker v req.sqid)) (filled_req req (now v.world)))
          (v.io_workers (get_io_worker v req.sqid)).free_seq
          req.nsecs_target
          r
          (v'.io_workers (get_io_worker v req.sqid))
      × IsCommand req (now v.world) (
          (v'.io_workers (get_io_worker v req.sqid)).work_queue
            (v.io_workers (get_io_worker v req.sqid)).free_seq)
      × ((x : ℕ)
          → (x == (v.io_workers (get_io_worker v req.sqid)).free_seq) ≡ false
          → unlinked ((v'.io_workers (get_io_worker v req.sqid)).work_queue x)
            ≡ unlinked ((v.io_workers (get_io_worker v req.sqid)).work_queue x))
unfolding enqueue_io_req taken_worker filled_req
enqueue_io_req-Inserted v req r c apart small free room =
    let turn = get_io_worker v req.sqid in
    let w = v.io_workers turn in
    let fill = filled_req req (now v.world) in
    let w' = taken_worker w fill in
    let self = written w.work_queue w.free_seq (fill (w.work_queue w.free_seq)) in
    let (w'', e, ins) =
      insert_req_sorted-Inserted w' w.free_seq req.nsecs_target small (rw self refl) (rw self refl)
        (rw self refl) r (taken-IsChain w fill r apart c) apart room in
    let has : has_free v req.sqid ≡ true = lt→ltb _ _ free in
    (
      enqueued (record v { world = tick v.world }) turn w'',
      rw has (
          enqueue-found (record v { world = tick v.world }) req.sqid req.nsecs_target fill w'' free
            e),
      rw (written_worker _ turn w'') ins,
      subst (λ (k : IoWorker). IsCommand req (now v.world) (k.work_queue w.free_seq))
          (sym (enqueued-turn (record v { world = tick v.world }) turn w''))
          (IsCommand-of req (now v.world) (w''.work_queue w.free_seq) (w.work_queue w.free_seq)
            (ins.same_rest w.free_seq ∙ ap (λ d. unlinked d) self)),
      λ x off.
          ap (λ (k : IoWorker). unlinked (k.work_queue x))
            (enqueued-turn (record v { world = tick v.world }) turn w'')
          ∙ (ins.same_rest x
              ∙ ap (λ d. unlinked d)
                  (unwritten w.work_queue w.free_seq (fill (w.work_queue w.free_seq)) x off)),
    )
