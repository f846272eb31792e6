-- ===== src/WorkQueue/Service.antt =====
-- io.c: the rounds of a worker over its requests, the completion entries, and the doorbells of the
-- queues.
pub mod Completions
pub mod Doorbell
use wild_cat.Common.{
  ℕ, zero, suc, ◌+◌, ◌-◌, ◌*◌, ◌/◌, ◌%◌, ◌^◌, max, Bool, true, false, not, ◌&&◌, Option, none, some,
  List, [], ◌∷◌, ◌==◌, ltb, leb, if◌then◌else◌, ◌>>=◌, update, add64, add32, sub32,
}
use wild_cat.World.{World, now, tick}
use wild_cat.WorkQueue.{no_entry, nr_max_parallel_io, IoWork, IoWorker}

-- What a worker does to the rest of the device, in order: the copy of a command's data, the release
-- of bytes of a write buffer, and the completion of a command.
pub data WorkerEvent : Type 0 where
  copied : (sqid sq_entry : ℕ) → WorkerEvent
  released : (buffer bytes : ℕ) → WorkerEvent
  completed : IoWork → WorkerEvent

abbrev end_of : IoWork → WorkerEvent
end_of r = if r.is_internal then released r.write_buffer r.buffs_to_release else completed r

-- one request at the time `t`: the events, the latest first, and the request
unfoldable pub serve : IoWork → ℕ → List WorkerEvent → List WorkerEvent × IoWork
serve r t events =
    if r.is_completed
    then (events, r)
    else (let copied_now = not r.is_copied in
        let r₁ = record r { is_copied = true } in
        let events₁ =
          if copied_now && not r.is_internal then copied r.sqid r.sq_entry ∷ events else events in
        if leb r.nsecs_target t
        then (end_of r₁ ∷ events₁, record r₁ { is_completed = true })
        else (events₁, r₁))

-- The round of a worker over its requests from `curr` on; `delta` is the difference of the two
-- clocks, as a 64-bit word. Without fuel it has no result.
unfoldable pub serve_all :
    ℕ → IoWorker → World → ℕ → ℕ → List WorkerEvent → Option (List WorkerEvent × IoWorker × World)
unfolding serve
serve_all zero w world delta curr events =
    if curr == no_entry then some (events, w, world) else none
serve_all (suc fuel) w world delta curr events = elim (curr == no_entry) [
  | true ↦ some (events, w, world)
  | false ↦
      let t = add64 (now world) delta in
      let (events', r) = serve (w.work_queue curr) t events in
      serve_all fuel (record w { work_queue = update w.work_queue curr r; latest_nsecs = t })
        (tick world) delta r.next events'
]

pub record CqEntry : Type 0 where
  pub command_id : ℕ
  pub sq_id : ℕ
  pub sq_head : ℕ
  pub status : ℕ
  pub result0 : ℕ
  pub result1 : ℕ

-- the fields of a completion queue that are used
pub record CompletionQueue : Type 0 where
  pub cq : ℕ → CqEntry
  pub cq_head : ℕ
  pub cq_tail : ℕ
  pub queue_size : ℕ
  pub phase : Bool
  pub interrupt_ready : Bool

-- the fields of an entry other than the results have 16 bits
unfoldable pub fill_cq_result : CompletionQueue → IoWork → CompletionQueue
fill_cq_result cq w =
    let entry : CqEntry = record {
      command_id = w.command_id % 2 ^ 16;
      sq_id = w.sqid % 2 ^ 16;
      sq_head = w.sq_entry % 2 ^ 16;
      status = ((if cq.phase then 1 else 0) + 2 * w.status) % 2 ^ 16;
      result0 = w.result0;
      result1 = w.result1;
    } in
    let wrapped = suc cq.cq_head == cq.queue_size in
    record cq {
      cq = update cq.cq cq.cq_head entry;
      cq_head = if wrapped then 0 else suc cq.cq_head;
      phase = if wrapped then not cq.phase else cq.phase;
      interrupt_ready = true;
    }

-- the statistics of a submission queue
pub record SqStat : Type 0 where
  pub nr_dispatched : ℕ
  pub nr_dispatch : ℕ
  pub nr_in_flight : ℕ
  pub max_nr_in_flight : ℕ
  pub total_io : ℕ

abbrev pub count_io : SqStat → ℕ → SqStat
count_io s io_size = record s {
  nr_dispatched = add32 s.nr_dispatched 1;
  nr_in_flight = add32 s.nr_in_flight 1;
  total_io = add64 s.total_io io_size;
}

-- The loop over the entries from `sq_entry` on; `proc` handles one, and says so by the size of its
-- data.
unfoldable pub dispatch :
    {S : Type 0} → (ℕ → S → Option (ℕ × S)) → ℕ → ℕ → ℕ → ℕ × SqStat × S → ℕ × SqStat × S
dispatch proc queue_size zero sq_entry (seq, stat, s) = (seq, stat, s)
dispatch proc queue_size (suc n) sq_entry (seq, stat, s) = elim (proc sq_entry s) [
  | none ↦ (seq, stat, s)
  | some (io_size, s') ↦
      dispatch proc queue_size n (if suc sq_entry == queue_size then 0 else suc sq_entry)
        (suc seq, count_io stat io_size, s')
]

-- `max_t(int, a, b)` of two 32-bit words, which are read with their signs
abbrev max_int : ℕ → ℕ → ℕ
max_int a b = if ltb (add32 b (2 ^ 31)) (add32 a (2 ^ 31)) then a else b

-- how many entries lie between two doorbells of a queue
abbrev pub num_proc : ℕ → ℕ → ℕ → ℕ
num_proc queue_size new_db old_db =
    if ltb new_db old_db then new_db + queue_size - old_db else new_db - old_db

-- The new doorbell, the statistics and the state, of a submission queue that exists.
unfoldable pub nvmev_proc_io_sq :
    {S : Type 0} → (ℕ → S → Option (ℕ × S)) → ℕ → SqStat → S → ℕ → ℕ → ℕ × SqStat × S
unfolding dispatch
nvmev_proc_io_sq proc queue_size stat s new_db old_db =
    let (seq, stat', s') =
      dispatch proc queue_size (num_proc queue_size new_db old_db) old_db (0, stat, s) in
    (
      (old_db + seq) % queue_size,
      record stat' {
        nr_dispatch = add32 stat'.nr_dispatch 1;
        max_nr_in_flight = max_int stat'.max_nr_in_flight stat'.nr_in_flight;
      },
      s',
    )

-- a completion that the host has taken, of the submission queue `sqid` where it exists
abbrev pub taken_by_host : (ℕ → Option SqStat) → ℕ → ℕ → Option SqStat
taken_by_host sqes sqid = elim (sqes sqid) [
  | none ↦ sqes
  | some s ↦ update sqes sqid (some (record s { nr_in_flight = sub32 s.nr_in_flight 1 }))
]

-- The entry `i` lies in the pages of the queue, of 256 entries each.
abbrev pub has_entry : CompletionQueue → ℕ → Bool
has_entry q i = ltb (i / 256) ((q.queue_size * 16 + 4095) / 4096)

-- The loop of nvmev_proc_io_cq from the entry `i` to the doorbell. The entry is read before `i` is
-- compared with the size of the queue; behind its last page this has no result. Without fuel it has
-- no result either.
unfoldable pub take_completions :
    ℕ → CompletionQueue → ℕ → ℕ → (ℕ → Option SqStat) → Option (ℕ → Option SqStat)
take_completions zero q new_db i sqes = if i == new_db then some sqes else none
take_completions (suc fuel) q new_db i sqes = elim (i == new_db) [
  | true ↦ some sqes
  | false ↦ elim (has_entry q i) [
    | false ↦ none
    | true ↦ elim (leb q.queue_size i) [
      | true ↦ take_completions fuel q new_db 0 sqes
      | false ↦ take_completions fuel q new_db (suc i) (taken_by_host sqes (q.cq i).sq_id)
    ]
  ]
]

-- for a doorbell that is not negative; `cq_tail` is a 32-bit word
unfoldable pub nvmev_proc_io_cq :
    CompletionQueue → (ℕ → Option SqStat) → ℕ → ℕ → Option (CompletionQueue × (ℕ → Option SqStat))
unfolding take_completions
nvmev_proc_io_cq q sqes new_db old_db =
    take_completions (suc (suc q.queue_size)) q new_db old_db sqes >>= λ sqes'.
    some (record q { cq_tail = sub32 new_db 1 }, sqes')
