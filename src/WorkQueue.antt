-- ===== src/WorkQueue.antt =====
-- io.c: the work queue of an I/O worker, a table of entries that two doubly linked lists run
-- through: the requests in the order of their target times, and the free entries.
pub mod Chain
pub mod Insert
pub mod Requests
pub mod Service
use wild_cat.Common.{
  ℕ, zero, suc, ◌+◌, ◌-◌, ◌%◌, ◌^◌, Bool, true, false, not, ◌&&◌, ◌||◌, Option, none, some, ◌==◌,
  ltb, leb, if◌then◌else◌, ◌>>=◌, check, update, sub32, add32,
}

-- The `-1` of an `unsigned int`: no entry.
abbrev pub no_entry : ℕ
no_entry = 2 ^ 32 - 1

abbrev pub nr_max_parallel_io : ℕ
nr_max_parallel_io = 16384

pub record IoWork : Type 0 where
  pub sqid : ℕ
  pub cqid : ℕ
  pub sq_entry : ℕ
  pub command_id : ℕ
  pub nsecs_start : ℕ
  pub nsecs_target : ℕ
  pub nsecs_enqueue : ℕ
  pub is_copied : Bool
  pub is_completed : Bool
  pub status : ℕ
  pub result0 : ℕ
  pub result1 : ℕ
  pub is_internal : Bool
  pub write_buffer : ℕ
  pub buffs_to_release : ℕ
  pub next : ℕ
  pub prev : ℕ

pub record IoWorker : Type 0 where
  pub work_queue : ℕ → IoWork
  pub free_seq : ℕ
  pub free_seq_end : ℕ
  pub io_seq : ℕ
  pub io_seq_end : ℕ
  pub latest_nsecs : ℕ
  pub id : ℕ

-- `work_queue[i].next = n` and `work_queue[i].prev = n`
abbrev pub set_next : (ℕ → IoWork) → ℕ → ℕ → ℕ → IoWork
set_next q i n = update q i (record (q i) { next = n })

abbrev pub set_prev : (ℕ → IoWork) → ℕ → ℕ → ℕ → IoWork
set_prev q i n = update q i (record (q i) { prev = n })

-- whether the search for a place stops at an entry
abbrev pub stops_at : IoWorker → ℕ → ℕ → Bool
stops_at w target curr =
    leb (w.work_queue curr).nsecs_target w.latest_nsecs
    || leb (w.work_queue curr).nsecs_target target

-- The search from the end of the list. Without fuel it has no result.
unfoldable pub find_place : ℕ → IoWorker → ℕ → ℕ → Option ℕ
find_place zero w target curr = if curr == no_entry then some curr else none
find_place (suc fuel) w target curr = elim ((curr == no_entry) || stops_at w target curr) [
  | true ↦ some curr
  | false ↦ find_place fuel w target (w.work_queue curr).prev
]

-- the three cases of the insertion behind `curr`
unfoldable pub link_behind : IoWorker → ℕ → ℕ → IoWorker
link_behind w entry curr =
    let q = w.work_queue in
    if curr == no_entry
    then record w {
      work_queue = set_next (set_prev q w.io_seq entry) entry w.io_seq;
      io_seq = entry;
    }
    else if (q curr).next == no_entry
    then record w { work_queue = set_next (set_prev q entry curr) curr entry; io_seq_end = entry }
    else (let q₁ = set_prev q entry curr in
        let q₂ = set_next q₁ entry (q₁ curr).next in
        record w { work_queue = set_next (set_prev q₂ (q₂ entry).next entry) curr entry })

unfoldable pub insert_req_sorted : IoWorker → ℕ → ℕ → Option IoWorker
unfolding find_place link_behind
insert_req_sorted w entry target =
    if w.io_seq == no_entry
    then some (record w { io_seq = entry; io_seq_end = entry })
    else (find_place nr_max_parallel_io w target w.io_seq_end >>= λ curr.
        some (link_behind w entry curr))
