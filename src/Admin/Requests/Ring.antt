-- ===== src/Admin/Requests/Ring.antt =====
-- A run over the admin submission queue, against a completion queue whose places are counted
-- without end.
use wild_cat.Common.{
  ◌<◌, ℕ, zero, suc, ◌+◌, ◌/◌, ◌%◌, ◌^◌, ◌≡◌, refl, sym, ap, ◌∙◌, inl, inr, true, Bool-cases,
  Option, some, List, [], ◌∷◌, if◌then◌else◌, ◌>>=◌, update, length, arith,
}
use mathlib.Core.Path.{subst}
use wild_cat.Common.Radix.{low_digit, high_digit}
use wild_cat.WorkQueue.Service.{CqEntry, num_proc}
use wild_cat.Admin.State.{
  AdminRequest, delete_sq, delete_cq, create_sq, create_cq, get_log_page, identify, set_features,
  get_features, abort_cmd, async_event, other_opcode, AdminCommand, AdminQueue, NvmevNs, Controller,
}
use wild_cat.Admin.Queues.{next_place}
use wild_cat.Admin.Identify.{ssd_type_zns, csi_zns}
use wild_cat.Admin.Requests.{
  handle_request, proc_admin_req, next_entry, proc_admin_reqs, nvmev_proc_admin_sq,
}
use wild_cat.Admin.Requests.Answers.{
  InBounds, is_abort, phase_of_lap, HasPosted, next_place-HasPosted, Answers, AreZoned, HasAnswered,
  answered_request,
}

-- the entries of a run that are answered, from `curr` on
unfoldable pub answered : (ℕ → AdminCommand) → ℕ → ℕ → ℕ → List ℕ
answered cmds depth zero curr = []
answered cmds depth (suc n) curr =
    let rest = answered cmds depth n (next_entry depth curr) in
    if is_abort (cmds curr).request then rest else curr ∷ rest

-- The memory of a completion queue to which the answers to the commands were written, the first as
-- number `k`: each at its number modulo the depth, in the phase of its lap.
abbrev pub Posts : ℕ → (ℕ → AdminCommand) → ℕ → List ℕ → (ℕ → CqEntry) → (ℕ → CqEntry) → Type 0
Posts depth cmds k [] m m' = m' ≡ m
Posts depth cmds k (eid ∷ eids) m m' =
    (e : CqEntry) × Answers (cmds eid) eid (phase_of_lap (k / depth)) e
    × Posts depth cmds (suc k) eids (update m (k % depth) e) m'

-- an admin queue with its pages, of which `k` completions were posted
pub record IsServing (sq cq depth k : ℕ) (c : Controller) : Type 0 where
  pub queue : AdminQueue
  pub here : c.admin_q ≡ some queue
  pub has_sq : queue.nvme_sq ≡ some sq
  pub has_cq : queue.nvme_cq ≡ some cq
  pub count : HasPosted k depth queue
  pub zoned : AreZoned c

abort_lem :
    (c : Controller) (eid : ℕ) (r : AdminRequest)
    → is_abort r ≡ true
    → handle_request c eid r ≡ some c
unfolding handle_request
abort_lem c eid (delete_sq qid) a = cc
abort_lem c eid (delete_cq qid) a = cc
abort_lem c eid (create_sq sqid cqid sq_flags qsize prp1) a = cc
abort_lem c eid (create_cq cqid cq_flags irq_vector qsize prp1) a = cc
abort_lem c eid (get_log_page lid numdl numdu prp1) a = cc
abort_lem c eid (identify cns nsid prp1) a = cc
abort_lem c eid (set_features fid dword11) a = cc
abort_lem c eid (get_features fid) a = cc
abort_lem c eid abort_cmd a = refl
abort_lem c eid async_event a = cc
abort_lem c eid other_opcode a = cc

place_lem : (k depth : ℕ) (q : AdminQueue) → HasPosted k depth q → q.cq_head ≡ k % depth
place_lem k depth q h =
    sym (ap (λ t. t % depth) h.total ∙ low_digit h.laps q.cq_head depth h.inside)

phase_lem :
    (k depth : ℕ) (q : AdminQueue) → HasPosted k depth q → q.phase ≡ phase_of_lap (k / depth)
phase_lem k depth q h =
    let lap = ap (λ t. t / depth) h.total ∙ high_digit h.laps q.cq_head depth h.inside in
    h.phase ∙ ap (λ t. phase_of_lap t) (sym lap)

next_entry-lt : (depth curr : ℕ) → curr < depth → next_entry depth curr < depth
next_entry-lt depth curr lt = ground (arith, lt)

num_proc-lt :
    (depth new_db old_db : ℕ)
    → new_db < depth
    → old_db < depth
    → num_proc depth new_db old_db < depth
num_proc-lt depth new_db old_db new old = ground (arith, new, old)

module _ (sq cq depth sq_depth nr_ns : ℕ) (cmds : ℕ → AdminCommand)
    (fits : (e : ℕ) → e < sq_depth → InBounds nr_ns (cmds e).request) where
  abbrev Runs : (n k curr : ℕ) → List ℕ → Controller → Type 0
  Runs n k curr eids c =
      (c' : Controller) × (proc_admin_reqs sq_depth n c curr ≡ some c')
      × IsServing sq cq depth (k + length eids) c'
      × Posts depth cmds k eids (c.completions cq) (c'.completions cq)

  proc_admin_req-eq :
      (k curr : ℕ) (c : Controller)
      → IsServing sq cq depth k c
      → c.submitted sq ≡ cmds
      → proc_admin_req c curr ≡ handle_request c curr (cmds curr).request
  unfolding proc_admin_req
  proc_admin_req-eq k curr c s cs = rw (proc_admin_req, s.here, s.has_sq, cs) refl

  after_answer :
      (k curr : ℕ) (c c₁ : Controller) (s : IsServing sq cq depth k c)
      → HasAnswered c.submitted c.completions c.ns c.nr_ns s.queue sq cq curr c₁
      → IsServing sq cq depth (suc k) c₁
  unfolding next_place
  after_answer k curr c c₁ s a = record {
    queue = next_place s.queue;
    here = a.queue;
    has_sq = s.has_sq;
    has_cq = s.has_cq;
    count = next_place-HasPosted k depth s.queue s.count;
    zoned =
        subst
          (λ (ns : ℕ → NvmevNs). (i : ℕ) → (ns i).ssd_type ≡ ssd_type_zns → (ns i).csi ≡ csi_zns)
          (sym a.same_namespaces) s.zoned;
  }

  answer_lem :
      (k curr : ℕ) (c c₁ : Controller) (s : IsServing sq cq depth k c)
      (a : HasAnswered c.submitted c.completions c.ns c.nr_ns s.queue sq cq curr c₁)
      → c.submitted sq ≡ cmds
      → Answers (cmds curr) curr (phase_of_lap (k / depth)) a.entry
  answer_lem k curr c c₁ s a cs =
      let phase = phase_lem k depth s.queue s.count in
      record {
        id = a.answers.id ∙ ap (λ (f : ℕ → AdminCommand). (f curr).command_id % 2 ^ 16) cs;
        head = a.answers.head;
        tag = a.answers.tag ∙ ap (λ b. if b then 1 else 0) phase;
      }

  run :
      (n k curr : ℕ) (c : Controller)
      → IsServing sq cq depth k c
      → c.submitted sq ≡ cmds
      → c.nr_ns ≡ nr_ns
      → curr < sq_depth
      → Runs n k curr (answered cmds sq_depth n curr) c
  unfolding proc_admin_reqs answered
  run zero k curr c s cs nr lt =
      let none_more : k ≡ k + 0 = omega arith in
      (c, refl, subst (λ t. IsServing sq cq depth t c) none_more s, refl)
  run (suc n) k curr c s cs nr lt = elim (Bool-cases (is_abort (cmds curr).request)) [
    | inl abort ↦
        let step = proc_admin_req-eq k curr c s cs ∙ abort_lem c curr _ abort in
        rw (abort, step)
          (run n k (next_entry sq_depth curr) c s cs nr (next_entry-lt sq_depth curr lt))
    | inr asked ↦
        let (c₁, h, a) =
          answered_request s.queue sq cq s.has_sq s.has_cq c curr (cmds curr).request s.here s.zoned
            (rw nr (fits curr lt)) asked in
        let step = proc_admin_req-eq k curr c s cs ∙ h in
        let (c', r, s', p) =
          run n (suc k) (next_entry sq_depth curr) c₁ (after_answer k curr c c₁ s a)
            (ap (λ (f : ℕ → ℕ → AdminCommand). f sq) a.same_commands ∙ cs) (a.same_number ∙ nr)
            (next_entry-lt sq_depth curr lt) in
        let memory : c₁.completions cq ≡ update (c.completions cq) (k % depth) a.entry =
          a.memory
          ∙ ap (λ i. update (c.completions cq) i a.entry) (place_lem k depth s.queue s.count) in
        let eids = answered cmds sq_depth n (next_entry sq_depth curr) in
        let sum : suc k + length eids ≡ k + suc (length eids) = omega arith in
        rw (asked, step)
          (
            c',
            r,
            subst (λ t. IsServing sq cq depth t c') sum s',
            (
              a.entry,
              answer_lem k curr c c₁ s a cs,
              subst (λ m. Posts depth cmds (suc k) eids m (c'.completions cq)) memory p,
            ),
          )
  ]

signalled :
    (c c' : Controller) (q : AdminQueue) (new_db old_db : ℕ)
    → c.admin_q ≡ some q
    → proc_admin_reqs q.sq_depth (num_proc q.sq_depth new_db old_db) c old_db ≡ some c'
    → nvmev_proc_admin_sq c new_db old_db ≡ some (record c' { signals = 0 ∷ c'.signals })
unfolding nvmev_proc_admin_sq
signalled c c' q new_db old_db e r =
    let signal : Controller → Option Controller =
      λ c. some (record c { signals = 0 ∷ c.signals }) in
    let serve : AdminQueue → Option Controller =
      λ q. proc_admin_reqs q.sq_depth (num_proc q.sq_depth new_db old_db) c old_db >>= signal in
    ap (λ (o : Option AdminQueue). o >>= serve) e ∙ ap (λ (o : Option Controller). o >>= signal) r

-- A run over the admin submission queue, from an admin queue with its pages of which `k` completions
-- were posted, between two doorbells below its depth, whose commands name queues that have a place,
-- namespaces that are there and logs that fit, ends. It serves fewer commands than the queue has
-- places, and posts exactly one completion for each of them other than an abort, in their order: the j-th one at the place (k + j) modulo the depth, with the identifier and the
-- place of its command, in the phase of its lap, which turns at the end of the queue.
pub nvmev_proc_admin_sq-Posts :
    (sq cq depth k new_db old_db : ℕ) (c : Controller) (s : IsServing sq cq depth k c)
    → new_db < s.queue.sq_depth
    → old_db < s.queue.sq_depth
    → ((e : ℕ) → e < s.queue.sq_depth → InBounds c.nr_ns (c.submitted sq e).request)
    → let n = num_proc s.queue.sq_depth new_db old_db in
      let eids = answered (c.submitted sq) s.queue.sq_depth n old_db in
      (n < s.queue.sq_depth)
      × (c' : Controller) × (nvmev_proc_admin_sq c new_db old_db ≡ some c')
      × IsServing sq cq depth (k + length eids) c'
      × Posts depth (c.submitted sq) k eids (c.completions cq) (c'.completions cq)
unfolding nvmev_proc_admin_sq
nvmev_proc_admin_sq-Posts sq cq depth k new_db old_db c s new old fits =
    let d = s.queue.sq_depth in
    let (c', r, s', p) =
      run sq cq depth d c.nr_ns (c.submitted sq) fits (num_proc d new_db old_db) k old_db c s refl
        refl old in
    (
      num_proc-lt d new_db old_db new old,
      record c' { signals = 0 ∷ c'.signals },
      signalled c c' s.queue new_db old_db s.here r,
      record {
        queue = s'.queue;
        here = s'.here;
        has_sq = s'.has_sq;
        has_cq = s'.has_cq;
        count = s'.count;
        zoned = s'.zoned;
      },
      p,
    )
