-- ===== src/Examples/Controller.antt =====
-- The theorems on the registers and the admin queue of a controller, and a run.
use wild_cat.Common.{
  Bool, false, Option, ◌*◌, zero, suc, ℕ, ◌+◌, ◌^◌, ◌≡◌, refl, true, none, some, [], ◌==◌,
  if◌then◌else◌, ◌>>=◌, length, inr, arith,
}
use wild_cat.Admin.Queues.{new_sq, new_cq}
use wild_cat.Admin.Doorbells.{nvmev_proc_dbs}
use wild_cat.Admin.Doorbells.Kept.{size_of_sq, size_of_cq, Inside, AreInside, Keeps}
use wild_cat.Admin.Doorbells.Quiet.{IsQuiet, nvmev_proc_dbs-quiets}
use wild_cat.Zns.State.{ZnsParams}
use wild_cat.WorkQueue.Service.{CqEntry, num_proc}
use wild_cat.Admin.State.{
  create_cq, abort_cmd, get_features, AdminCommand, AdminQueue, Controller, zeroes,
}
use wild_cat.Admin.Requests.{nvmev_proc_admin_sq}
use wild_cat.Admin.Requests.Answers.{InBounds}
use wild_cat.Common.{zero, suc, ◌<◌, ◌%◌}
use wild_cat.Admin.Requests.Ring.{answered, Posts, IsServing, nvmev_proc_admin_sq-Posts}
use wild_cat.Admin.Bars.{nvmev_proc_bars}
use wild_cat.Admin.Bars.Settled.{IsSettled, settle, nvmev_proc_bars-settles}

abbrev no_zones : ZnsParams
no_zones = record {
  nr_zones = 0;
  nr_active_zones = 0;
  nr_open_zones = 0;
  dies_per_zone = 0;
  zone_size = 0;
  zone_wb_size = 0;
  nr_zrwa_zones = 0;
  zrwafg_size = 0;
  zrwa_size = 0;
  zrwa_buffer_size = 0;
  lbas_per_zrwafg = 0;
  lbas_per_zrwa = 0;
}

abbrev no_completion : CqEntry
no_completion = record {
  command_id = 0;
  sq_id = 0;
  sq_head = 0;
  status = 0;
  result0 = 0;
  result1 = 0;
}

-- a completion queue is made, an abort is asked for, and the numbers of queues are asked for
abbrev three_commands : ℕ → AdminCommand
three_commands e = record {
  command_id = 100 + e;
  request =
      if e == 0 then create_cq 1 3 5 7 65536 else if e == 1 then abort_cmd else get_features 7;
}

-- a device of which the host has written all the registers, and that has seen none
abbrev written_device : Controller
written_device = record {
  bar = record { aqa = 2 ^ 16 + 2; asq = 4096; acq = 8192; cc = 1; rdy = 0; shst = 0 };
  old_bar = record { aqa = 0; asq = 0; acq = 0; cc = 0 };
  dbs = λ i. 0;
  old_dbs = λ i. 0;
  admin_q = none;
  sqes = λ i. none;
  cqes = λ i. none;
  nr_sq = 0;
  nr_cq = 0;
  mdts = 5;
  nr_ns = 1;
  ns = λ i. record { size = 2 ^ 30; csi = 0; ssd_type = 1; zp = no_zones };
  submitted = λ page. three_commands;
  completions = λ page i. no_completion;
  pages = λ page. zeroes 0;
  signals = [];
}

nvmev_proc_bars-settles_example :
    (c' : Controller) × (settle 5 written_device ≡ some c')
    × IsSettled written_device.bar written_device.old_bar.cc c'
nvmev_proc_bars-settles_example = nvmev_proc_bars-settles written_device (inr refl)

-- the device is ready after these rounds
ready_device : (settle 5 written_device >>= λ c. some c.bar.rdy) ≡ some 1
unfolding settle nvmev_proc_bars
ready_device = refl

-- an admin queue with two places for completions, of which one is taken
abbrev two_places : AdminQueue
two_places = record {
  phase = true;
  sq_depth = 3;
  cq_depth = 2;
  cq_head = 1;
  nvme_sq = some 4096;
  nvme_cq = some 8192;
}

abbrev serving_device : Controller
serving_device = record written_device { admin_q = some two_places }

serving_device-IsServing : IsServing 4096 8192 2 1 serving_device
serving_device-IsServing = record {
  queue = two_places;
  here = refl;
  has_sq = refl;
  has_cq = refl;
  count = record { laps = 0; deep = refl; inside = omega arith; total = refl; phase = refl };
  zoned = λ i e. omega (arith, e);
}

commands_fit : (e : ℕ) → e < 3 → InBounds 1 (three_commands e).request
unfolding InBounds
commands_fit zero lt = omega arith
commands_fit (suc zero) lt = tt
commands_fit (suc (suc zero)) lt = tt
commands_fit (suc (suc (suc e))) lt = absurd (omega (arith, lt))

-- the commands of the places 2 and 0, around the end of the queue
nvmev_proc_admin_sq-Posts_example :
    let eids = answered three_commands 3 (num_proc 3 1 2) 2 in
    (num_proc 3 1 2 < 3)
    × (c' : Controller) × (nvmev_proc_admin_sq serving_device 1 2 ≡ some c')
    × IsServing 4096 8192 2 (1 + length eids) c'
    × Posts 2 three_commands 1 eids (λ i. no_completion) (c'.completions 8192)
unfolding serving_device-IsServing
nvmev_proc_admin_sq-Posts_example =
    nvmev_proc_admin_sq-Posts 4096 8192 2 1 1 2 serving_device serving_device-IsServing
      (omega arith) (omega arith) commands_fit

-- the first completion ends a lap, and the second one has the other phase
two_completions :
    ((nvmev_proc_admin_sq serving_device 1 2 >>= λ c. some (c.completions 8192 1).status) ≡ some 1)
    × ((nvmev_proc_admin_sq serving_device 1 2 >>= λ c. some (c.completions 8192 0).status)
        ≡ some 0)
unfolding nvmev_proc_admin_sq
two_completions = (refl, refl)

-- a device with one pair of queues, whose host has submitted two commands and taken one completion
abbrev queue_pair : Controller
queue_pair = record serving_device {
  dbs = λ i. if i == 2 then 1 else if i == 3 then 1 else 0;
  old_dbs = λ i. if i == 2 then 3 else 0;
  sqes = λ i. if i == 1 then some (new_sq 1 1 1 3 65536) else none;
  cqes = λ i. if i == 1 then some (new_cq serving_device 1 3 5 3 131072) else none;
  nr_sq = 1;
  nr_cq = 1;
}

-- every command has 512 bytes; the state counts them
handler : ℕ → ℕ → ℕ → Option (ℕ × ℕ)
handler qid e s = some (512, suc s)

handles_all : (qid e s : ℕ) → (r : ℕ × ℕ) × (handler qid e s ≡ some r)
unfolding handler
handles_all qid e s = ((512, suc s), refl)

sqs-Inside : (qid d : ℕ) → size_of_sq (queue_pair.sqes qid) ≡ some d → Inside queue_pair (qid * 2) d
sqs-Inside zero d e = cc
sqs-Inside (suc zero) d e = (ground (arith, e), ground (arith, e))
sqs-Inside (suc (suc k)) d e =
    let other : (suc (suc k) == 1) ≡ false = ground arith in let e' = rw other at e in cc

cqs-Inside :
    (qid d : ℕ) → size_of_cq (queue_pair.cqes qid) ≡ some d → Inside queue_pair (qid * 2 + 1) d
cqs-Inside zero d e = cc
cqs-Inside (suc zero) d e = (ground (arith, e), ground (arith, e))
cqs-Inside (suc (suc k)) d e =
    let other : (suc (suc k) == 1) ≡ false = ground arith in let e' = rw other at e in cc

cqs-ends :
    (qid d : ℕ)
    → size_of_cq (queue_pair.cqes qid) ≡ some d
    → queue_pair.dbs (qid * 2 + 1) < queue_pair.old_dbs (qid * 2 + 1)
    → 0 < d % 256
cqs-ends zero d e behind = cc
cqs-ends (suc zero) d e behind = ground (arith, e)
cqs-ends (suc (suc k)) d e behind =
    let other : (suc (suc k) == 1) ≡ false = ground arith in let e' = rw other at e in cc

queue_pair-AreInside : AreInside queue_pair
queue_pair-AreInside = record { sqs = sqs-Inside; cqs = cqs-Inside; cq_ends = cqs-ends }

nvmev_proc_dbs-quiets_example :
    (r : Bool × Controller × ℕ) × (nvmev_proc_dbs handler queue_pair 0 ≡ some r)
    × Keeps queue_pair r.1
    × IsQuiet queue_pair r.1
nvmev_proc_dbs-quiets_example =
    nvmev_proc_dbs-quiets handler queue_pair 0 handles_all refl queue_pair-AreInside

-- two commands were handled
two_handled : (nvmev_proc_dbs handler queue_pair 0 >>= λ r. some r.2) ≡ some 2
unfolding nvmev_proc_dbs handler
two_handled = refl
