-- ===== src/Admin/Bars.antt =====
-- pci.c: `nvmev_proc_bars`, which answers what the host writes to the registers.

pub mod Settled
use wild_cat.Common.{
  ℕ, suc, ◌+◌, ◌*◌, ◌/◌, ◌%◌, ◌^◌, Bool, true, false, Option, none, some, ◌==◌, if◌then◌else◌,
  ◌>>=◌,
}
use wild_cat.Admin.State.{AdminQueue, Bar, OldBar, Controller}
use wild_cat.Admin.Queues.{reset_doorbell}

-- the depths of the two queues, by the register `aqa`
abbrev pub sq_depth_of : ℕ → ℕ
sq_depth_of aqa = suc (aqa % 2 ^ 12)

abbrev pub cq_depth_of : ℕ → ℕ
cq_depth_of aqa = suc (aqa / 2 ^ 16 % 2 ^ 12)

-- the page that an address register names
abbrev pub page_of : ℕ → ℕ
page_of address = address / 2 ^ 12 * 2 ^ 12

abbrev pub new_admin_queue : AdminQueue
new_admin_queue = record {
  phase = false;
  sq_depth = 0;
  cq_depth = 0;
  cq_head = 0;
  nvme_sq = none;
  nvme_cq = none;
}

-- the queue, a new one where there is none
abbrev pub queue_or_new : Option AdminQueue → AdminQueue
queue_or_new none = new_admin_queue
queue_or_new (some q) = q

-- the write of `aqa`
unfoldable pub proc_aqa : Controller → Controller
proc_aqa c =
    let c₁ = reset_doorbell (reset_doorbell c 0) 1 in
    record c₁ {
      old_bar = record c.old_bar { aqa = c.bar.aqa };
      admin_q = some (record (queue_or_new c.admin_q) {
        cq_head = 0;
        phase = true;
        sq_depth = sq_depth_of c.bar.aqa;
        cq_depth = cq_depth_of c.bar.aqa;
      });
    }

-- the writes of `asq` and of `acq` where there is an admin queue
abbrev pub asq_seen : Controller → AdminQueue → Controller
asq_seen c q = record (reset_doorbell c 0) {
  old_bar = record c.old_bar { asq = c.bar.asq };
  admin_q =
      some (record q { sq_depth = sq_depth_of c.bar.aqa; nvme_sq = some (page_of c.bar.asq) });
}

abbrev pub acq_seen : Controller → AdminQueue → Controller
acq_seen c q = record (reset_doorbell c 1) {
  old_bar = record c.old_bar { acq = c.bar.acq };
  admin_q = some (record q {
    cq_depth = cq_depth_of c.bar.aqa;
    cq_head = 0;
    phase = true;
    nvme_cq = some (page_of c.bar.acq);
  });
}

-- both wait for the admin queue
unfoldable pub proc_asq : Controller → Controller
proc_asq c = elim c.admin_q [ none ↦ c | some q ↦ asq_seen c q ]

unfoldable pub proc_acq : Controller → Controller
proc_acq c = elim c.admin_q [ none ↦ c | some q ↦ acq_seen c q ]

-- the fields `en` and `shn` of `cc`
abbrev pub enable : ℕ → ℕ
enable cc = cc % 2

abbrev pub shutdown : ℕ → ℕ
shutdown cc = cc / 2 ^ 14 % 4

abbrev pub has_queue : Controller → Bool
has_queue c = elim c.admin_q [ none ↦ false | some q ↦ true ]

-- without an admin queue, a device that is enabled does not become ready
abbrev pub ready_after : Controller → ℕ
ready_after c = if enable c.bar.cc == 1 then (if has_queue c then 1 else c.bar.rdy) else 0

-- what a write of `cc` does in each case, and what a shutdown does besides
abbrev pub cc_seen : Controller → Controller
cc_seen c = record c {
  bar = record c.bar { rdy = ready_after c };
  old_bar = record c.old_bar { cc = c.bar.cc };
}

abbrev pub shut_down : Controller → AdminQueue → Controller
shut_down c q = record (reset_doorbell (reset_doorbell c 0) 1) {
  bar = record c.bar { shst = 2 };
  admin_q = some (record q { cq_head = 0 });
}

-- the write of `cc`; a shutdown without an admin queue has no result
unfoldable pub proc_cc : Controller → Option Controller
proc_cc c =
    if shutdown c.bar.cc == 1
    then (c.admin_q >>= λ q. some (shut_down (cc_seen c) q))
    else some (cc_seen c)

-- whether a register was written, and the controller
unfoldable pub nvmev_proc_bars : Controller → Option (Bool × Controller)
unfolding proc_aqa proc_asq proc_acq proc_cc
nvmev_proc_bars c =
    if c.old_bar.aqa == c.bar.aqa
    then (if c.old_bar.asq == c.bar.asq
        then (if c.old_bar.acq == c.bar.acq
            then (if c.old_bar.cc == c.bar.cc
                then some (false, c)
                else (proc_cc c >>= λ c'. some (true, c')))
            else some (true, proc_acq c))
        else some (true, proc_asq c))
    else some (true, proc_aqa c)
