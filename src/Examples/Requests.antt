-- ===== src/Examples/Requests.antt =====
-- The theorems on the work queues, on a worker with a list of two requests and on small queues.
use wild_cat.Common.{
  ℕ, ◌*◌, ◌+◌, ◌%◌, ◌≡◌, refl, true, false, Option, some, [], ◌∷◌, ◌==◌, if◌then◌else◌, arith,
}
use wild_cat.World.{now}
use wild_cat.WorkQueue.{no_entry, IoWork, IoWorker, insert_req_sorted}
use wild_cat.WorkQueue.Chain.{linked, ended, nowhere, beside, no_entries, one_more, IsChain}
use wild_cat.WorkQueue.Insert.{Inserted, insert_req_sorted-Inserted}
use wild_cat.WorkQueue.Requests.{
  IoWorkers, get_io_worker, fresh_work, IoRequest, filled_req, enqueue_io_req,
}
use wild_cat.WorkQueue.Requests.Enqueue.{IsCommand, taken_worker, enqueue_io_req-Inserted}
use wild_cat.WorkQueue.Insert.{unlinked}
use wild_cat.Common.{◌<◌, ◌==◌, false}
use wild_cat.WorkQueue.Service.{
  SqStat, CompletionQueue, num_proc, nvmev_proc_io_sq, nvmev_proc_io_cq,
}
use wild_cat.WorkQueue.Service.Completions.{take_each, nvmev_proc_io_cq-takes}
use wild_cat.WorkQueue.Service.Doorbell.{Handles, nvmev_proc_io_sq-reaches}

abbrev request : ℕ → ℕ → ℕ → IoWork
request target prev next = record (fresh_work 0) { nsecs_target = target; prev = prev; next = next }

-- the entries 0 and 1 are due at 100 and 300; entry 2 is filled in for the time 200
abbrev entries : ℕ → IoWork
entries i =
    if i == 0
    then request 100 no_entry 1
    else (if i == 1
        then request 300 0 no_entry
        else (if i == 2 then request 200 no_entry no_entry else fresh_work i))

abbrev busy : IoWorker
busy = record {
  work_queue = entries;
  free_seq = 3;
  free_seq_end = 16383;
  io_seq = 0;
  io_seq_end = 1;
  latest_nsecs = 50;
  id = 0;
}

busy-IsChain : IsChain busy (1 ∷ 0 ∷ [])
busy-IsChain = record {
  links = linked {x = 1} refl refl (omega arith) (linked {x = 0} refl refl (omega arith) ended);
  distinct = one_more (beside refl nowhere) (one_more nowhere no_entries);
  start = refl;
  end = λ _. refl;
}

insert_req_sorted-Inserted_example :
    (w : IoWorker) × (insert_req_sorted busy 2 200 ≡ some w) × Inserted busy 2 200 (1 ∷ 0 ∷ []) w
insert_req_sorted-Inserted_example =
    insert_req_sorted-Inserted busy 2 200 (omega arith) refl refl refl (1 ∷ 0 ∷ []) busy-IsChain
      (beside refl (beside refl nowhere)) (omega arith)

abbrev workers : IoWorkers
workers = record {
  io_workers = λ i. busy;
  nr_io_workers = 2;
  io_worker_turn = 0;
  by_sq = true;
  world = record { clock = λ n. 10 * n; clock_reads = 6; random = λ n. n; random_reads = 0 };
}

abbrev command : IoRequest
command = record {
  sqid = 2;
  cqid = 2;
  sq_entry = 7;
  command_id = 19;
  nsecs_start = 60;
  nsecs_target = 250;
  status = 0;
}

enqueue_io_req-Inserted_example :
    (v : IoWorkers) × (enqueue_io_req workers command ≡ some v)
    × Inserted
        (taken_worker busy (filled_req command (now workers.world)))
        3
        250
        (1 ∷ 0 ∷ [])
        (v.io_workers (get_io_worker workers 2))
    × IsCommand command (now workers.world) ((v.io_workers (get_io_worker workers 2)).work_queue 3)
    × ((x : ℕ)
        → (x == 3) ≡ false
        → unlinked ((v.io_workers (get_io_worker workers 2)).work_queue x)
          ≡ unlinked (busy.work_queue x))
enqueue_io_req-Inserted_example =
    enqueue_io_req-Inserted workers command (1 ∷ 0 ∷ []) busy-IsChain
      (beside refl (beside refl nowhere)) (omega arith) (omega arith) (omega arith)

abbrev no_stat : SqStat
no_stat = record {
  nr_dispatched = 0;
  nr_dispatch = 0;
  nr_in_flight = 0;
  max_nr_in_flight = 0;
  total_io = 0;
}

-- the entries 6, 7, 0 and 1 of a queue of eight
nvmev_proc_io_sq-reaches_example :
    let r = nvmev_proc_io_sq (λ e s. some (512, e ∷ s)) 8 no_stat [] 2 6 in
    (r.0 ≡ 2)
    × (num_proc 8 2 6 < 8)
    × Handles (λ e s. some (512, e ∷ s)) 8 6 (num_proc 8 2 6) [] r.2
nvmev_proc_io_sq-reaches_example =
    nvmev_proc_io_sq-reaches (λ e s. some (512, e ∷ s)) 8 (λ e s. ((512, e ∷ s), refl)) no_stat [] 2
      6 (omega arith) (omega arith)

-- eight entries, those of the submission queues 1 and 2 in turn
abbrev completions : CompletionQueue
completions = record {
  cq = λ i. record {
    command_id = i;
    sq_id = 1 + i % 2;
    sq_head = i;
    status = 1;
    result0 = 0;
    result1 = 0;
  };
  cq_head = 3;
  cq_tail = 5;
  queue_size = 8;
  phase = false;
  interrupt_ready = false;
}

abbrev in_flight : ℕ → Option SqStat
in_flight i = some (record no_stat { nr_in_flight = 9 })

nvmev_proc_io_cq-takes_example :
    nvmev_proc_io_cq completions in_flight 2 6
    ≡ some (record completions { cq_tail = 1 }, take_each completions (num_proc 8 2 6) 6 in_flight)
nvmev_proc_io_cq-takes_example =
    nvmev_proc_io_cq-takes completions 2 (omega arith) in_flight 6 (omega arith) (λ h. omega arith)
