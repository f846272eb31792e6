-- ===== src/Admin/Bars/Settled.antt =====
-- What the rounds of `nvmev_proc_bars` come to when the host writes nothing more.
use wild_cat.Common.{
  same_test, eq_of_test, ℕ, zero, suc, ◌≡◌, refl, sym, ap, ◌∙◌, ◌⊎◌, inl, inr, true, false,
  Bool-cases, Option, none, some, ◌==◌, if◌then◌else◌, ◌>>=◌,
}
use wild_cat.Admin.State.{AdminQueue, Bar, OldBar, Controller}
use wild_cat.Admin.Bars.{
  sq_depth_of, cq_depth_of, enable, shutdown, cc_seen, shut_down, asq_seen, acq_seen, proc_aqa,
  proc_asq, proc_acq, proc_cc, nvmev_proc_bars,
}

-- the rounds of the dispatcher over the registers, until none was written
unfoldable pub settle : ℕ → Controller → Option Controller
settle zero c = none
settle (suc n) c =
    nvmev_proc_bars c >>= λ (written, c'). elim written [ true ↦ settle n c' | false ↦ some c' ]

-- an admin queue with the depths of a register `aqa`
abbrev pub HasDepths : Controller → ℕ → Type 0
HasDepths c aqa =
    (q : AdminQueue) × (c.admin_q ≡ some q)
    × (q.sq_depth ≡ sq_depth_of aqa)
    × (q.cq_depth ≡ cq_depth_of aqa)

abbrev pub seen_bar : Bar → OldBar
seen_bar b = record { aqa = b.aqa; asq = b.asq; acq = b.acq; cc = b.cc }

-- what a write of `cc` makes of the status
abbrev pub answered_bar : Bar → ℕ → Bar
answered_bar b old_cc = if old_cc == b.cc then b else record b {
  rdy = if enable b.cc == 1 then 1 else 0;
  shst = if shutdown b.cc == 1 then 2 else b.shst;
}

pub record IsSettled (b : Bar) (old_cc : ℕ) (c : Controller) : Type 0 where
  pub old : c.old_bar ≡ seen_bar b
  pub bar : c.bar ≡ answered_bar b old_cc
  pub queue : HasDepths c b.aqa

abbrev pub Settles : ℕ → Controller → Type 0
Settles n c = (c' : Controller) × (settle n c ≡ some c') × IsSettled c.bar c.old_bar.cc c'

-- a write of `cc`, with an admin queue
record Answered (c : Controller) (q : AdminQueue) (c' : Controller) : Type 0 where
  old : c'.old_bar ≡ record c.old_bar { cc = c.bar.cc }
  bar : c'.bar ≡ record c.bar {
    rdy = if enable c.bar.cc == 1 then 1 else 0;
    shst = if shutdown c.bar.cc == 1 then 2 else c.bar.shst;
  }
  queue :
      (q' : AdminQueue) × (c'.admin_q ≡ some q')
      × (q'.sq_depth ≡ q.sq_depth)
      × (q'.cq_depth ≡ q.cq_depth)

proc_cc_lem :
    (c : Controller) (q : AdminQueue)
    → c.admin_q ≡ some q
    → (c' : Controller) × (proc_cc c ≡ some c') × Answered c q c'
unfolding proc_cc
proc_cc_lem c q e = elim (Bool-cases (shutdown c.bar.cc == 1)) [
  | inl down ↦ (
    shut_down (cc_seen c) q,
    rw (proc_cc, down, e) refl,
    record {
      old = refl;
      bar = rw (down, e) refl;
      queue = (record q { cq_head = 0 }, refl, refl, refl);
    },
  )
  | inr up ↦ (
    cc_seen c,
    rw (proc_cc, up) refl,
    record { old = refl; bar = rw (up, e) refl; queue = (q, e, refl, refl) },
  )
]

again :
    (n : ℕ) (c c' : Controller)
    → nvmev_proc_bars c ≡ some (true, c')
    → settle (suc n) c ≡ settle n c'
unfolding settle
again n c c' h = rw (settle, h) refl

idle : (n : ℕ) (c : Controller) → c.old_bar ≡ seen_bar c.bar → settle (suc n) c ≡ some c
unfolding settle nvmev_proc_bars
idle n c e =
    let b = c.bar in
    rw
      (
        settle,
        nvmev_proc_bars,
        e,
        same_test b.aqa,
        same_test b.asq,
        same_test b.acq,
        same_test b.cc,
      )
      refl

-- The stages from the last one back. Each finds that the registers before it were seen.
after_cc :
    (n : ℕ) (c : Controller)
    → (c.old_bar.aqa == c.bar.aqa) ≡ true
    → (c.old_bar.asq == c.bar.asq) ≡ true
    → (c.old_bar.acq == c.bar.acq) ≡ true
    → HasDepths c c.bar.aqa
    → Settles (suc (suc n)) c
unfolding nvmev_proc_bars
after_cc n c aqa asq acq (q, e, sq, cq) =
    let seen_to : (cc : ℕ) → c.old_bar.cc ≡ cc → c.old_bar ≡ record (seen_bar c.bar) { cc = cc } =
      λ cc at i. record {
        aqa = eq_of_test _ _ aqa i;
        asq = eq_of_test _ _ asq i;
        acq = eq_of_test _ _ acq i;
        cc = at i;
      } in
    elim (Bool-cases (c.old_bar.cc == c.bar.cc)) [
      | inl same ↦
          let old : c.old_bar ≡ seen_bar c.bar = seen_to c.bar.cc (eq_of_test _ _ same) in
          (c, idle (suc n) c old, record { old = old; bar = rw same refl; queue = (q, e, sq, cq) })
      | inr new ↦
          let (c', h, a) = proc_cc_lem c q e in
          let (q', e', sq', cq') = a.queue in
          let old : c'.old_bar ≡ seen_bar c.bar =
            a.old ∙ ap (λ (o : OldBar). record o { cc = c.bar.cc }) (seen_to c.old_bar.cc refl) in
          let step : nvmev_proc_bars c ≡ some (true, c') =
            rw (nvmev_proc_bars, aqa, asq, acq, new, h) refl in
          (
            c',
            again (suc n) c c' step ∙ idle n c' (old ∙ sym (ap (λ (b : Bar). seen_bar b) a.bar)),
            record { old = old; bar = rw new a.bar; queue = (q', e', sq' ∙ sq, cq' ∙ cq) },
          )
    ]

after_acq :
    (n : ℕ) (c : Controller)
    → (c.old_bar.aqa == c.bar.aqa) ≡ true
    → (c.old_bar.asq == c.bar.asq) ≡ true
    → HasDepths c c.bar.aqa
    → Settles (suc (suc (suc n))) c
unfolding nvmev_proc_bars proc_acq
after_acq n c aqa asq (q, e, sq, cq) = elim (Bool-cases (c.old_bar.acq == c.bar.acq)) [
  | inl same ↦ after_cc (suc n) c aqa asq same (q, e, sq, cq)
  | inr new ↦
      let (c', h, s) =
        after_cc n (acq_seen c q) aqa asq (same_test c.bar.acq) (_, refl, sq, refl) in
      let step : nvmev_proc_bars c ≡ some (true, acq_seen c q) =
        rw (nvmev_proc_bars, aqa, asq, new, proc_acq, e) refl in
      (c', again (suc (suc n)) c (acq_seen c q) step ∙ h, s)
]

after_asq :
    (n : ℕ) (c : Controller)
    → (c.old_bar.aqa == c.bar.aqa) ≡ true
    → HasDepths c c.bar.aqa
    → Settles (suc (suc (suc (suc n)))) c
unfolding nvmev_proc_bars proc_asq
after_asq n c aqa (q, e, sq, cq) = elim (Bool-cases (c.old_bar.asq == c.bar.asq)) [
  | inl same ↦ after_acq (suc n) c aqa same (q, e, sq, cq)
  | inr new ↦
      let (c', h, s) = after_acq n (asq_seen c q) aqa (same_test c.bar.asq) (_, refl, refl, cq) in
      let step : nvmev_proc_bars c ≡ some (true, asq_seen c q) =
        rw (nvmev_proc_bars, aqa, new, proc_asq, e) refl in
      (c', again (suc (suc (suc n))) c (asq_seen c q) step ∙ h, s)
]

-- Where there is an admin queue with the depths of the register that was seen, or `aqa` was written,
-- five rounds of nvmev_proc_bars are enough: every register is seen, of the status only what a write
-- of `cc` asks for has changed (the device is ready exactly where it is enabled, and a shutdown is
-- complete), and the admin queue has the depths that `aqa` gives.
pub nvmev_proc_bars-settles :
    (c : Controller)
    → HasDepths c c.old_bar.aqa ⊎ ((c.old_bar.aqa == c.bar.aqa) ≡ false)
    → (c' : Controller) × (settle 5 c ≡ some c') × IsSettled c.bar c.old_bar.cc c'
unfolding nvmev_proc_bars proc_aqa
nvmev_proc_bars-settles c known = elim (Bool-cases (c.old_bar.aqa == c.bar.aqa)) [
  | inl same ↦ elim known [
    | inl (q, e, sq, cq) ↦
        let at = eq_of_test _ _ same in
        after_asq 1 c same (q, e, sq ∙ ap (λ a. sq_depth_of a) at, cq ∙ ap (λ a. cq_depth_of a) at)
    | inr new ↦ cc
  ]
  | inr new ↦
      let (c', h, s) = after_asq 0 (proc_aqa c) (same_test c.bar.aqa) (_, refl, refl, refl) in
      let step : nvmev_proc_bars c ≡ some (true, proc_aqa c) = rw (nvmev_proc_bars, new) refl in
      (c', again 4 c (proc_aqa c) step ∙ h, s)
]
