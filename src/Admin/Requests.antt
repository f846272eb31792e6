-- ===== src/Admin/Requests.antt =====
-- admin.c: the dispatch of the admin commands.

pub mod Answers
pub mod Ring
use wild_cat.Common.{ℕ, zero, suc, true, false, Option, some, List, ◌∷◌, ◌==◌, if◌then◌else◌, ◌>>=◌}
use wild_cat.WorkQueue.Service.{num_proc}
use wild_cat.Admin.State.{
  AdminRequest, delete_sq, delete_cq, create_sq, create_cq, get_log_page, identify, set_features,
  get_features, abort_cmd, async_event, other_opcode, AdminQueue, Controller,
}
use wild_cat.Admin.Queues.{
  sc_success, invalid_opcode, make_cq_entry, admin_create_cq, admin_delete_cq, admin_create_sq,
  admin_delete_sq,
}
use wild_cat.Admin.Identify.{admin_get_log_page, admin_identify}
use wild_cat.Admin.Features.{admin_set_features, admin_get_features}

unfoldable pub handle_request : Controller → ℕ → AdminRequest → Option Controller
unfolding make_cq_entry admin_create_cq admin_delete_cq admin_create_sq admin_delete_sq
    admin_get_log_page admin_identify admin_set_features admin_get_features
handle_request c eid (delete_sq qid) = admin_delete_sq c eid qid
handle_request c eid (create_sq sqid cqid sq_flags qsize prp1) =
    admin_create_sq c eid sqid cqid sq_flags qsize prp1
handle_request c eid (get_log_page lid numdl numdu prp1) =
    admin_get_log_page c eid lid numdl numdu prp1
handle_request c eid (delete_cq qid) = admin_delete_cq c eid qid
handle_request c eid (create_cq cqid cq_flags irq_vector qsize prp1) =
    admin_create_cq c eid cqid cq_flags irq_vector qsize prp1
handle_request c eid (identify cns nsid prp1) = admin_identify c eid cns nsid prp1
handle_request c eid abort_cmd = some c
handle_request c eid (set_features fid dword11) = admin_set_features c eid fid dword11
handle_request c eid (get_features fid) = admin_get_features c eid fid
handle_request c eid async_event = make_cq_entry c eid sc_success
handle_request c eid other_opcode = make_cq_entry c eid invalid_opcode

-- `__nvmev_proc_admin_req`
unfoldable pub proc_admin_req : Controller → ℕ → Option Controller
unfolding handle_request
proc_admin_req c entry_id = c.admin_q >>= λ q.
    q.nvme_sq >>= λ sq. handle_request c entry_id (c.submitted sq entry_id).request

abbrev pub next_entry : ℕ → ℕ → ℕ
next_entry depth curr = if suc curr == depth then 0 else suc curr

-- The loop over the entries from `curr` on; the depth stays as it is during the loop.
unfoldable pub proc_admin_reqs : ℕ → ℕ → Controller → ℕ → Option Controller
unfolding proc_admin_req
proc_admin_reqs depth zero c curr = some c
proc_admin_reqs depth (suc n) c curr =
    proc_admin_req c curr >>= λ c'. proc_admin_reqs depth n c' (next_entry depth curr)

-- for doorbells that are not negative
unfoldable pub nvmev_proc_admin_sq : Controller → ℕ → ℕ → Option Controller
unfolding proc_admin_reqs
nvmev_proc_admin_sq c new_db old_db = c.admin_q >>= λ q.
    proc_admin_reqs q.sq_depth (num_proc q.sq_depth new_db old_db) c old_db >>= λ c'.
    some (record c' { signals = 0 ∷ c'.signals })
