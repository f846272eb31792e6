-- ===== src/Admin/Requests/Answers.antt =====
-- The completions of the admin queue, against a queue whose places are counted without end.
use wild_cat.Common.{
  ltb, check, ◌≤◌, ◌||◌, update_here, ℕ, suc, ◌+◌, ◌*◌, ◌%◌, ◌^◌, ◌<◌, ◌≡◌, refl, inl, inr, Bool,
  true, false, not, Bool-cases, Option, some, ◌==◌, if◌then◌else◌, update, sub32, arith,
}
use wild_cat.WorkQueue.Service.{CqEntry}
use wild_cat.Admin.State.{
  AdminRequest, delete_sq, delete_cq, create_sq, create_cq, get_log_page, identify, set_features,
  get_features, abort_cmd, async_event, other_opcode, AdminCommand, AdminQueue, HostPage, id_ns,
  id_ctrl, id_ns_desc, id_zns_ns, id_zns_ctrl, NvmevNs, Controller,
}
use wild_cat.Admin.Queues.{
  nr_max_io_queue, has_queue_id, new_cq, new_sq, cq_created, cq_deleted, sq_created, sq_deleted,
  answer_of, next_place, make_cq_entry_results, make_cq_entry, admin_create_cq, admin_delete_cq,
  admin_create_sq, admin_delete_sq,
}
use wild_cat.Admin.Identify.{
  log_fits, has_namespace, ssd_type_zns, csi_zns, put_page, log_page, log_length,
  admin_get_log_page, id_of_namespace, id_of_zones, id_of_ctrl, namespace_list,
  admin_identify_namespace, admin_identify_ctrl, admin_identify_namespaces,
  admin_identify_namespace_desc, admin_identify_zns_namespace, admin_identify_zns_ctrl,
  admin_identify,
}
use wild_cat.Admin.Features.{
  feat_num_queues, queue_numbers, with_queues, admin_set_features, admin_get_features,
}
use wild_cat.Admin.Requests.{handle_request}

-- an abort is the only request that is not answered
abbrev pub is_abort : AdminRequest → Bool
is_abort abort_cmd = true
is_abort _ = false

-- the phase of the lap `k`: the first one has the phase 1
abbrev pub phase_of_lap : ℕ → Bool
phase_of_lap k = k % 2 == 0

-- a queue of which `n` completions were posted
pub record HasPosted (n depth : ℕ) (q : AdminQueue) : Type 0 where
  pub laps : ℕ
  pub deep : q.cq_depth ≡ depth
  pub inside : q.cq_head < depth
  pub total : n ≡ laps * depth + q.cq_head
  pub phase : q.phase ≡ phase_of_lap laps

phase_flips : (k : ℕ) → not (phase_of_lap k) ≡ phase_of_lap (suc k)
phase_flips k = ground arith

pub next_place-HasPosted :
    (n depth : ℕ) (q : AdminQueue) → HasPosted n depth q → HasPosted (suc n) depth (next_place q)
unfolding next_place
next_place-HasPosted n depth q h = elim (Bool-cases (suc q.cq_head == q.cq_depth)) [
  | inl wraps ↦
      let top : suc q.cq_head ≡ depth = ground (arith, wraps, h.deep) in
      record {
        laps = suc h.laps;
        deep = h.deep;
        inside = rw wraps (omega (arith, top));
        total = rw wraps (omega (arith, h.total, top));
        phase = rw (wraps, h.phase) (phase_flips h.laps);
      }
  | inr goes ↦
      let below : suc q.cq_head < depth = ground (arith, goes, h.deep, h.inside) in
      record {
        laps = h.laps;
        deep = h.deep;
        inside = rw goes below;
        total = rw goes (omega (arith, h.total));
        phase = rw goes h.phase;
      }
]

-- An entry that answers the command of `eid`, in the phase given.
pub record Answers (cmd : AdminCommand) (eid : ℕ) (phase : Bool) (e : CqEntry) : Type 0 where
  pub id : e.command_id ≡ cmd.command_id % 2 ^ 16
  pub head : e.sq_head ≡ eid % 2 ^ 16
  pub tag : e.status % 2 ≡ (if phase then 1 else 0)

-- the controller after one answer: `sq` and `cq` are the pages of the two queues
pub record HasAnswered (submitted : ℕ → ℕ → AdminCommand) (completions : ℕ → ℕ → CqEntry)
    (ns : ℕ → NvmevNs) (nr_ns : ℕ) (q : AdminQueue) (sq cq eid : ℕ) (c' : Controller) : Type 0 where
  pub queue : c'.admin_q ≡ some (next_place q)
  pub same_commands : c'.submitted ≡ submitted
  pub same_namespaces : c'.ns ≡ ns
  pub same_number : c'.nr_ns ≡ nr_ns
  pub entry : CqEntry
  pub answers : Answers (submitted sq eid) eid q.phase entry
  pub memory : c'.completions cq ≡ update (completions cq) q.cq_head entry

-- What a request expects of its numbers, in a controller of `nr_ns` namespaces: a queue has a place, a
-- namespace that is asked for is there, and a log fits.
unfoldable pub InBounds : ℕ → AdminRequest → Type 0
InBounds nr_ns (delete_sq qid) = qid ≤ nr_max_io_queue
InBounds nr_ns (create_sq sqid cqid sq_flags qsize prp1) = sqid ≤ nr_max_io_queue
InBounds nr_ns (get_log_page lid numdl numdu prp1) =
    log_fits lid (log_length numdl numdu) prp1 ≡ true
InBounds nr_ns (delete_cq qid) = qid ≤ nr_max_io_queue
InBounds nr_ns (create_cq cqid cq_flags irq_vector qsize prp1) = cqid ≤ nr_max_io_queue
InBounds nr_ns (identify cns nsid prp1) =
    (cns == 0 || cns == 3 || cns == 5) ≡ true → (1 ≤ nsid) × (nsid ≤ nr_ns)
InBounds nr_ns (set_features fid dword11) = Unit {0}
InBounds nr_ns (get_features fid) = Unit {0}
InBounds nr_ns abort_cmd = Unit {0}
InBounds nr_ns async_event = Unit {0}
InBounds nr_ns other_opcode = Unit {0}

-- the namespaces that are zoned have the command set of zones
abbrev pub AreZoned : Controller → Type 0
AreZoned c = (i : ℕ) → (c.ns i).ssd_type ≡ ssd_type_zns → (c.ns i).csi ≡ csi_zns

tag_of :
    (phase : Bool) (ret : ℕ)
    → ((if phase then 1 else 0) + 2 * ret) % 2 ^ 16 % 2 ≡ (if phase then 1 else 0)
tag_of true ret = omega arith
tag_of false ret = omega arith

queue_id_lem : (qid : ℕ) → qid ≤ nr_max_io_queue → has_queue_id qid ≡ true
queue_id_lem qid le = ground (arith, le)

namespace_lem : (nsid n : ℕ) → 1 ≤ nsid → nsid ≤ n → ltb (sub32 nsid 1) n ≡ true
namespace_lem nsid n low high = ground (arith, low, high)

module _ (q : AdminQueue) (sq cq : ℕ) (has_sq : q.nvme_sq ≡ some sq)
    (has_cq : q.nvme_cq ≡ some cq) where
  posted :
      (c : Controller) (eid ret result0 result1 : ℕ)
      → c.admin_q ≡ some q
      → (c' : Controller) × (make_cq_entry_results c eid ret result0 result1 ≡ some c')
        × HasAnswered c.submitted c.completions c.ns c.nr_ns q sq cq eid c'
  unfolding make_cq_entry_results
  posted c eid ret result0 result1 e = (
    record c {
      completions = update c.completions cq (
          update (c.completions cq) q.cq_head
            (answer_of q.phase (c.submitted sq eid) eid ret result0 result1));
      admin_q = some (next_place q);
    },
    rw (make_cq_entry_results, e, has_sq, has_cq) refl,
    record {
      queue = refl;
      same_commands = refl;
      same_namespaces = refl;
      same_number = refl;
      entry = answer_of q.phase (c.submitted sq eid) eid ret result0 result1;
      answers = record { id = refl; head = refl; tag = tag_of q.phase ret };
      memory = update_here c.completions cq _;
    },
  )

  -- one request that is answered
  abbrev pub OneAnswer : Controller → ℕ → Option Controller → Type 0
  OneAnswer c eid o =
      (c' : Controller) × (o ≡ some c')
      × HasAnswered c.submitted c.completions c.ns c.nr_ns q sq cq eid c'

  answered_zones :
      (c : Controller) (eid nsid prp1 : ℕ)
      → c.admin_q ≡ some q
      → AreZoned c
      → has_namespace c nsid ≡ true
      → OneAnswer c eid (admin_identify_zns_namespace c eid nsid prp1)
  unfolding admin_identify_zns_namespace make_cq_entry
  answered_zones c eid nsid prp1 e zoned there =
      let n = c.ns (sub32 nsid 1) in
      elim (Bool-cases (n.ssd_type == ssd_type_zns)) [
        | inr other ↦ rw (there, other) (posted c eid 0 0 0 e)
        | inl zns ↦
            let csi : (n.csi == csi_zns) ≡ true = ground (arith, zoned (sub32 nsid 1), zns) in
            rw (there, zns, csi) (posted (put_page c prp1 (id_zns_ns (id_of_zones n))) eid 0 0 0 e)
      ]

  -- a choice between two requests that are answered
  either :
      (c : Controller) (eid : ℕ) (b : Bool) (o p : Option Controller)
      → OneAnswer c eid o
      → OneAnswer c eid p
      → OneAnswer c eid (if b then o else p)
  either c eid true o p x y = x
  either c eid false o p x y = y

  -- a choice between two requests, each of which is answered where it is taken
  whichever :
      (c : Controller) (eid : ℕ) (b : Bool) (o p : Option Controller)
      → (b ≡ true → OneAnswer c eid o)
      → (b ≡ false → OneAnswer c eid p)
      → OneAnswer c eid (if b then o else p)
  whichever c eid true o p x y = x refl
  whichever c eid false o p x y = y refl

  checked :
      (c : Controller) (eid : ℕ) (b : Bool) (o : Option Controller)
      → b ≡ true
      → OneAnswer c eid o
      → OneAnswer c eid (check b o)
  checked c eid b o fits x = rw fits x

  answered_identify :
      (c : Controller) (eid cns nsid prp1 : ℕ)
      → c.admin_q ≡ some q
      → AreZoned c
      → ((cns == 0 || cns == 3 || cns == 5) ≡ true → (1 ≤ nsid) × (nsid ≤ c.nr_ns))
      → OneAnswer c eid (admin_identify c eid cns nsid prp1)
  unfolding admin_identify admin_identify_namespace admin_identify_ctrl admin_identify_namespaces
      admin_identify_namespace_desc admin_identify_zns_ctrl make_cq_entry
  answered_identify c eid cns nsid prp1 e zoned fits =
      let page : (p : HostPage) → OneAnswer c eid (make_cq_entry (put_page c prp1 p) eid 0) =
        λ p. posted (put_page c prp1 p) eid 0 0 0 e in
      let there : (cns == 0 || cns == 3 || cns == 5) ≡ true → has_namespace c nsid ≡ true =
        λ asked. let (low, high) = fits asked in namespace_lem nsid c.nr_ns low high in
      whichever c eid (cns == 0) _ _
        (λ at.
          checked c eid _ _ (there (ground (arith, at)))
            (page (id_ns (id_of_namespace (c.ns (sub32 nsid 1))))))
        (λ _. either c eid _ _ _ (page (id_ctrl (id_of_ctrl c))) (
          either c eid _ _ _ (page (namespace_list c nsid)) (
            whichever c eid (cns == 3) _ _
              (λ at.
                checked c eid _ _ (there (ground (arith, at)))
                  (page (id_ns_desc 4 1 (c.ns (sub32 nsid 1)).csi)))
              (λ _.
                whichever c eid (cns == 5) _ _
                  (λ at. answered_zones c eid nsid prp1 e zoned (there (ground (arith, at))))
                  (λ _. either c eid _ _ _ (page (id_zns_ctrl 0)) (posted c eid 1 0 0 e))))))

  pub answered_request :
      (c : Controller) (eid : ℕ) (r : AdminRequest)
      → c.admin_q ≡ some q
      → AreZoned c
      → InBounds c.nr_ns r
      → is_abort r ≡ false
      → OneAnswer c eid (handle_request c eid r)
  unfolding InBounds handle_request admin_delete_sq admin_create_sq admin_get_log_page
      admin_delete_cq admin_create_cq make_cq_entry admin_get_features admin_set_features
  answered_request c eid (delete_sq qid) e zoned fits a =
      checked c eid _ _ (queue_id_lem qid fits) (posted (sq_deleted c qid) eid 0 0 0 e)
  answered_request c eid (delete_cq qid) e zoned fits a =
      checked c eid _ _ (queue_id_lem qid fits) (posted (cq_deleted c qid) eid 0 0 0 e)
  answered_request c eid (create_sq sqid cqid sq_flags qsize prp1) e zoned fits a =
      checked c eid _ _ (queue_id_lem sqid fits)
        (posted (sq_created c (new_sq sqid cqid sq_flags qsize prp1)) eid 0 0 0 e)
  answered_request c eid (create_cq cqid cq_flags irq_vector qsize prp1) e zoned fits a =
      checked c eid _ _ (queue_id_lem cqid fits)
        (posted (cq_created c (new_cq c cqid cq_flags irq_vector qsize prp1)) eid 0 0 0 e)
  answered_request c eid (get_log_page lid numdl numdu prp1) e zoned fits a =
      checked c eid _ _ fits
        (posted (put_page c prp1 (log_page lid (log_length numdl numdu))) eid 0 0 0 e)
  answered_request c eid (identify cns nsid prp1) e zoned fits a =
      answered_identify c eid cns nsid prp1 e zoned fits
  answered_request c eid (set_features fid dword11) e zoned fits a =
      either c eid (fid == feat_num_queues) _ _
        (posted (with_queues c dword11) eid 0 (queue_numbers (with_queues c dword11)) 0 e)
        (posted c eid 0 0 0 e)
  answered_request c eid (get_features fid) e zoned fits a =
      posted c eid 0 (if fid == feat_num_queues then queue_numbers c else 0) 0 e
  answered_request c eid abort_cmd e zoned fits a = cc
  answered_request c eid async_event e zoned fits a = posted c eid 0 0 0 e
  answered_request c eid other_opcode e zoned fits a = posted c eid 1 0 0 e
