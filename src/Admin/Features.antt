-- ===== src/Admin/Features.antt =====
-- admin.c: the features, of which only the numbers of queues are kept.
use Prim.Native.Nat.{bit_or}
use wild_cat.Common.{ℕ, suc, ◌/◌, ◌%◌, ◌^◌, Option, ◌==◌, if◌then◌else◌, min, mul32, sub32}
use wild_cat.Admin.State.{Controller}
use wild_cat.Admin.Queues.{nr_max_io_queue, sc_success, make_cq_entry_results}

-- `NVME_FEAT_NUM_QUEUES`
abbrev pub feat_num_queues : ℕ
feat_num_queues = 7

-- the numbers of queues, each less one, in a word
abbrev pub queue_numbers : Controller → ℕ
queue_numbers c = bit_or (mul32 (sub32 c.nr_cq 1) (2 ^ 16)) (sub32 c.nr_sq 1)

abbrev pub with_queues : Controller → ℕ → Controller
with_queues c dword11 = record c {
  nr_sq = min (suc (dword11 % 2 ^ 16)) nr_max_io_queue;
  nr_cq = min (suc (dword11 / 2 ^ 16 % 2 ^ 16)) nr_max_io_queue;
}

unfoldable pub admin_set_features : Controller → ℕ → ℕ → ℕ → Option Controller
unfolding make_cq_entry_results
admin_set_features c eid fid dword11 =
    if fid == feat_num_queues
    then (let c₁ = with_queues c dword11 in
        make_cq_entry_results c₁ eid sc_success (queue_numbers c₁) 0)
    else make_cq_entry_results c eid sc_success 0 0

unfoldable pub admin_get_features : Controller → ℕ → ℕ → Option Controller
unfolding make_cq_entry_results
admin_get_features c eid fid =
    make_cq_entry_results c eid sc_success (if fid == feat_num_queues then queue_numbers c else 0) 0
