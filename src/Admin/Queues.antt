-- ===== src/Admin/Queues.antt =====
-- admin.c: the completion entries of the admin queue, and the queues that a host creates.
use wild_cat.Common.{
  ℕ, suc, ◌+◌, ◌-◌, ◌*◌, ◌/◌, ◌%◌, ◌^◌, Bool, true, false, not, Option, none, some, ◌==◌,
  if◌then◌else◌, ◌>>=◌, check, leb, update,
}
use wild_cat.WorkQueue.Service.{CqEntry, SqStat}
use wild_cat.Admin.State.{AdminQueue, AdminCommand, SubmissionQueue, CreatedQueue, Controller}

abbrev pub sc_success : ℕ
sc_success = 0

-- `NVME_SC_INVALID_OPCODE`
abbrev pub invalid_opcode : ℕ
invalid_opcode = 1

-- the entry of a completion; its fields other than the results have 16 bits
abbrev pub answer_of : Bool → AdminCommand → ℕ → ℕ → ℕ → ℕ → CqEntry
answer_of phase cmd eid ret result0 result1 = record {
  command_id = cmd.command_id % 2 ^ 16;
  sq_id = 0;
  sq_head = eid % 2 ^ 16;
  status = ((if phase then 1 else 0) + 2 * ret) % 2 ^ 16;
  result0 = result0;
  result1 = result1;
}

-- the next place of the completion queue
unfoldable pub next_place : AdminQueue → AdminQueue
next_place q =
    let wrapped = suc q.cq_head == q.cq_depth in
    record q {
      cq_head = if wrapped then 0 else suc q.cq_head;
      phase = if wrapped then not q.phase else q.phase;
    }

-- `__make_cq_entry_results`; without an admin queue or its pages it has no result
unfoldable pub make_cq_entry_results : Controller → ℕ → ℕ → ℕ → ℕ → Option Controller
unfolding next_place
make_cq_entry_results c eid ret result0 result1 = c.admin_q >>= λ q. q.nvme_sq >>= λ sq.
    q.nvme_cq >>= λ cq. some (record c {
      completions = update c.completions cq (
          update (c.completions cq) q.cq_head
            (answer_of q.phase (c.submitted sq eid) eid ret result0 result1));
      admin_q = some (next_place q);
    })

unfoldable pub make_cq_entry : Controller → ℕ → ℕ → Option Controller
unfolding make_cq_entry_results
make_cq_entry c eid ret = make_cq_entry_results c eid ret 0 0

-- a flag of a word, by its bit
abbrev pub has_flag : ℕ → ℕ → Bool
has_flag flags bit = flags / 2 ^ bit % 2 == 1

-- `NR_MAX_IO_QUEUE`: the arrays of queues have one place more
abbrev pub nr_max_io_queue : ℕ
nr_max_io_queue = 72

-- An identifier has a place in the arrays of queues. The code does not test it: a command with
-- another one reads or writes past them, so here it has no result.
abbrev pub has_queue_id : ℕ → Bool
has_queue_id qid = leb qid nr_max_io_queue

-- a new completion queue; the entries are those that its pages hold
abbrev pub new_cq : Controller → ℕ → ℕ → ℕ → ℕ → ℕ → CreatedQueue
new_cq c cqid cq_flags irq_vector qsize prp1 = record {
  qid = cqid;
  irq_enabled = has_flag cq_flags 1;
  irq_vector = if has_flag cq_flags 1 then irq_vector else 0;
  phys_contig = has_flag cq_flags 0;
  queue = record {
    cq = c.completions prp1;
    cq_head = 0;
    cq_tail = 2 ^ 32 - 1;
    queue_size = suc qsize;
    phase = true;
    interrupt_ready = false;
  };
}

abbrev no_stat : SqStat
no_stat = record {
  nr_dispatched = 0;
  nr_dispatch = 0;
  nr_in_flight = 0;
  max_nr_in_flight = 0;
  total_io = 0;
}

-- a new submission queue; the lowest bit of the flags says whether its pages are contiguous
abbrev pub new_sq : ℕ → ℕ → ℕ → ℕ → ℕ → SubmissionQueue
new_sq sqid cqid sq_flags qsize prp1 = record {
  qid = sqid;
  cqid = cqid;
  priority = sq_flags / 2 * 2;
  phys_contig = has_flag sq_flags 0;
  queue_size = suc qsize;
  stat = no_stat;
  sq = prp1;
}

-- both doorbells of an index are reset
abbrev pub reset_doorbell : Controller → ℕ → Controller
reset_doorbell c i = record c { dbs = update c.dbs i 0; old_dbs = update c.old_dbs i 0 }

-- what each of the four commands does before its completion
abbrev pub cq_created : Controller → CreatedQueue → Controller
cq_created c q = reset_doorbell (record c { cqes = update c.cqes q.qid (some q) }) (q.qid * 2 + 1)

abbrev pub cq_deleted : Controller → ℕ → Controller
cq_deleted c qid = record c { cqes = update c.cqes qid none }

abbrev pub sq_created : Controller → SubmissionQueue → Controller
sq_created c q = reset_doorbell (record c { sqes = update c.sqes q.qid (some q) }) (q.qid * 2)

abbrev pub sq_deleted : Controller → ℕ → Controller
sq_deleted c qid = record c { sqes = update c.sqes qid none }

unfoldable pub admin_create_cq : Controller → ℕ → ℕ → ℕ → ℕ → ℕ → ℕ → Option Controller
unfolding make_cq_entry
admin_create_cq c eid cqid cq_flags irq_vector qsize prp1 =
    check (has_queue_id cqid)
      (make_cq_entry (cq_created c (new_cq c cqid cq_flags irq_vector qsize prp1)) eid sc_success)

unfoldable pub admin_delete_cq : Controller → ℕ → ℕ → Option Controller
unfolding make_cq_entry
admin_delete_cq c eid qid =
    check (has_queue_id qid) (make_cq_entry (cq_deleted c qid) eid sc_success)

unfoldable pub admin_create_sq : Controller → ℕ → ℕ → ℕ → ℕ → ℕ → ℕ → Option Controller
unfolding make_cq_entry
admin_create_sq c eid sqid cqid sq_flags qsize prp1 =
    check (has_queue_id sqid)
      (make_cq_entry (sq_created c (new_sq sqid cqid sq_flags qsize prp1)) eid sc_success)

unfoldable pub admin_delete_sq : Controller → ℕ → ℕ → Option Controller
unfolding make_cq_entry
admin_delete_sq c eid qid =
    check (has_queue_id qid) (make_cq_entry (sq_deleted c qid) eid sc_success)
