-- ===== src/WorkQueue/Requests.antt =====
-- io.c: the entries of the work queues are taken from the free list, filled in, and given back.
pub mod Enqueue
use wild_cat.Common.{
  ℕ, zero, suc, ◌+◌, ◌-◌, ◌%◌, Bool, true, false, ◌&&◌, Option, none, some, ◌==◌, ltb, leb,
  if◌then◌else◌, ◌>>=◌, check, update, sub32,
}
use wild_cat.World.{World, now, tick}
use wild_cat.WorkQueue.{
  no_entry, nr_max_parallel_io, IoWork, IoWorker, set_next, set_prev, insert_req_sorted,
}

-- the workers of the device, `CONFIG_NVMEV_IO_WORKER_BY_SQ`, and the clock
pub record IoWorkers : Type 0 where
  pub io_workers : ℕ → IoWorker
  pub nr_io_workers : ℕ
  pub io_worker_turn : ℕ
  pub by_sq : Bool
  pub world : World

abbrev pub get_io_worker : IoWorkers → ℕ → ℕ
get_io_worker v sqid = if v.by_sq then sub32 sqid 1 % v.nr_io_workers else v.io_worker_turn

abbrev pub set_worker : IoWorkers → ℕ → IoWorker → IoWorkers
set_worker v i w = record v { io_workers = update v.io_workers i w }

-- the worker and the entry, if one is free
unfoldable pub allocate_work_queue_entry : IoWorkers → ℕ → Option (Option (ℕ × ℕ) × IoWorkers)
allocate_work_queue_entry v sqid =
    let turn = get_io_worker v sqid in
    let w = v.io_workers turn in
    let e = w.free_seq in
    let after = (w.work_queue e).next in
    if leb nr_max_parallel_io after
    then some (none, v)
    else (let v' = record (set_worker v turn (record w { free_seq = after })) {
      io_worker_turn = if suc turn == v.nr_io_workers then 0 else suc turn;
    } in
        check (ltb after nr_max_parallel_io) (some (some (turn, e), v')))

-- An entry is filled in by `fill` and put into the list of requests. Where none is free, nothing is
-- done.
unfoldable pub enqueue : IoWorkers → ℕ → ℕ → (IoWork → IoWork) → Option IoWorkers
unfolding allocate_work_queue_entry insert_req_sorted
enqueue v sqid target fill = allocate_work_queue_entry v sqid >>= λ (taken, v₁). elim taken [
  | none ↦ some v₁
  | some (turn, e) ↦
      let w = v₁.io_workers turn in
      let w' = record w { work_queue = update w.work_queue e (fill (w.work_queue e)) } in
      insert_req_sorted w' e target >>= λ w''. some (set_worker v₁ turn w'')
]

-- the fields of a command that is enqueued, and of its result
pub record IoRequest : Type 0 where
  pub sqid : ℕ
  pub cqid : ℕ
  pub sq_entry : ℕ
  pub command_id : ℕ
  pub nsecs_start : ℕ
  pub nsecs_target : ℕ
  pub status : ℕ

-- the clock is read where an entry is free
abbrev pub ticked_if : Bool → IoWorkers → IoWorkers
ticked_if b v = if b then record v { world = tick v.world } else v

abbrev pub has_free : IoWorkers → ℕ → Bool
has_free v sqid =
    let w = v.io_workers (get_io_worker v sqid) in
    ltb (w.work_queue w.free_seq).next nr_max_parallel_io

-- what `__enqueue_io_req` writes into the entry
unfoldable pub filled_req : IoRequest → ℕ → IoWork → IoWork
filled_req r clock w = record w {
  sqid = r.sqid;
  cqid = r.cqid;
  sq_entry = r.sq_entry;
  command_id = r.command_id;
  nsecs_start = r.nsecs_start;
  nsecs_enqueue = clock;
  nsecs_target = r.nsecs_target;
  status = r.status;
  is_completed = false;
  is_copied = false;
  prev = no_entry;
  next = no_entry;
  is_internal = false;
}

unfoldable pub enqueue_io_req : IoWorkers → IoRequest → Option IoWorkers
unfolding enqueue filled_req
enqueue_io_req v r =
    enqueue (ticked_if (has_free v r.sqid) v) r.sqid r.nsecs_target (filled_req r (now v.world))

-- `buf` names the write buffer
unfoldable pub schedule_internal_operation : IoWorkers → ℕ → ℕ → ℕ → ℕ → Option IoWorkers
unfolding enqueue
schedule_internal_operation v sqid nsecs_target buf buffs_to_release =
    enqueue (ticked_if (has_free v sqid) v) sqid nsecs_target (λ w. record w {
      sqid = sqid;
      nsecs_start = now v.world;
      nsecs_enqueue = now v.world;
      nsecs_target = nsecs_target;
      is_completed = false;
      is_copied = true;
      prev = no_entry;
      next = no_entry;
      is_internal = true;
      write_buffer = buf;
      buffs_to_release = buffs_to_release;
    })

abbrev pub is_done : IoWorker → ℕ → Bool
is_done w curr =
    let r = w.work_queue curr in r.is_completed && r.is_copied && leb r.nsecs_target w.latest_nsecs

-- The last request of those at the start of the list that are done. Without fuel it has no result.
unfoldable pub last_done : ℕ → IoWorker → ℕ → ℕ → Option ℕ
last_done zero w curr last = if curr == no_entry then some last else none
last_done (suc fuel) w curr last = elim (curr == no_entry) [
  | true ↦ some last
  | false ↦ elim (is_done w curr) [
    | true ↦ last_done fuel w (w.work_queue curr).next curr
    | false ↦ some last
  ]
]

-- The requests up to `last` go to the end of the free list.
unfoldable pub give_back : IoWorker → ℕ → IoWorker
give_back w last =
    let first = w.io_seq in
    let after = (w.work_queue last).next in
    let q₁ = if after == no_entry then w.work_queue else set_prev w.work_queue after no_entry in
    let q₂ = set_prev (set_next q₁ last no_entry) first w.free_seq_end in
    record w { work_queue = set_next q₂ w.free_seq_end first; io_seq = after; free_seq_end = last }

unfoldable pub reclaim_worker : IoWorker → Option IoWorker
unfolding last_done give_back
reclaim_worker w = last_done nr_max_parallel_io w w.io_seq no_entry >>= λ last.
    some (if last == no_entry then w else give_back w last)

-- `__reclaim_completed_reqs`, on the first `n` workers
unfoldable pub reclaim_completed_reqs : ℕ → IoWorkers → Option IoWorkers
unfolding reclaim_worker
reclaim_completed_reqs zero v = some v
reclaim_completed_reqs (suc n) v = reclaim_completed_reqs n v >>= λ v'.
    reclaim_worker (v'.io_workers n) >>= λ w. some (set_worker v' n w)

-- the entries of a fresh table
abbrev pub fresh_work : ℕ → IoWork
fresh_work i = record {
  sqid = 0;
  cqid = 0;
  sq_entry = 0;
  command_id = 0;
  nsecs_start = 0;
  nsecs_target = 0;
  nsecs_enqueue = 0;
  is_copied = false;
  is_completed = false;
  status = 0;
  result0 = 0;
  result1 = 0;
  is_internal = false;
  write_buffer = 0;
  buffs_to_release = 0;
  next = if suc i == nr_max_parallel_io then no_entry else suc i;
  prev = sub32 i 1;
}

-- `NVMEV_IO_WORKER_INIT`, without the thread
unfoldable pub init_worker : ℕ → IoWorker
init_worker worker_id = record {
  work_queue = fresh_work;
  free_seq = 0;
  free_seq_end = nr_max_parallel_io - 1;
  io_seq = no_entry;
  io_seq_end = no_entry;
  latest_nsecs = 0;
  id = worker_id;
}
