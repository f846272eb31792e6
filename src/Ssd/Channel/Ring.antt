-- ===== src/Ssd/Channel/Ring.antt =====
-- channel_model.c: a request keeps the ring of time slots in order, and its loop ends.
use wild_cat.Common.{
  ℕ, zero, suc, ◌+◌, ◌-◌, ◌/◌, ◌%◌, ◌^◌, ◌≤◌, ◌<◌, ◌≡◌, ◌≢◌, refl, ap, ◌∙◌, true, some, arith, ltb,
  leb, ◌==◌, if◌then◌else◌, inl, inr, Bool-cases, add32, add64, sub64, mul32, mul64, w32,
}
use wild_cat.Ssd.Channel.{
  nr_credit_entries, unit_time_interval, unit_xfer_size, ChannelModel, Draining, consume,
  drain_credits, move_head, transfer, chmodel_request, div_round_up,
}

-- the head is a slot, the length of the window fits the ring, and the credits are not all zero
pub record IsRing (ch : ChannelModel) : Type 0 where
  pub head : ch.head < nr_credit_entries
  pub window : ch.valid_len ≤ nr_credit_entries
  pub credits : 0 < ch.max_credits

-- the rounds that the loop can still make before it comes to the head again
abbrev pub rounds : ℕ → Draining → ℕ
rounds head l = (head + nr_credit_entries - 1 - l.slot) % nr_credit_entries

-- the slot after that of `l`, with what is left
abbrev next_slot : Draining → Draining
next_slot l = record (consume l) { slot = (l.slot + 1) % nr_credit_entries; delay = l.delay + 1 }

none_below : (n : ℕ) → ¬ (n < 0)
none_below n = λ h. omega arith

rounds_lem :
    (head slot fuel : ℕ)
    → head < nr_credit_entries
    → slot < nr_credit_entries
    → (slot + 1) % nr_credit_entries ≢ head
    → (head + nr_credit_entries - 1 - slot) % nr_credit_entries < suc fuel
    → (head + nr_credit_entries - 1 - (slot + 1) % nr_credit_entries) % nr_credit_entries < fuel
rounds_lem head slot fuel hh hs differs lt = ground (arith, differs, lt)

drain_step :
    (fuel head : ℕ) (l : Draining)
    → head < nr_credit_entries
    → l.slot < nr_credit_entries
    → rounds head l < fuel
    → drain_credits (suc fuel) head l ≡ drain_credits fuel head l
unfolding drain_credits consume
drain_step zero head l hh hs lt = elim (none_below (rounds head l) lt) [ ]
drain_step (suc fuel) head l hh hs lt = elim (Bool-cases ((consume l).remaining == 0)) [
  | inl done ↦ rw (done, drain_credits) refl
  | inr more ↦ elim (Bool-cases ((l.slot + 1) % nr_credit_entries == head)) [
    | inl round ↦ rw (more, round, drain_credits) refl
    | inr on ↦
        rw (more, on, drain_credits)
          (drain_step fuel head (next_slot l) hh (omega arith)
            (rounds_lem head l.slot fuel hh hs (ground (arith, on)) lt))
  ]
]

slot-lt :
    (fuel head : ℕ) (l : Draining)
    → l.slot < nr_credit_entries
    → ((drain_credits fuel head l).slot < nr_credit_entries)
      × ((drain_credits fuel head l).delay ≤ l.delay + fuel)
unfolding drain_credits consume
slot-lt zero head l h = (h, omega arith)
slot-lt (suc fuel) head l h =
    let (slot, delay) = slot-lt fuel head (next_slot l) (omega arith) in
    elim (Bool-cases ((consume l).remaining == 0)) [
      | inl done ↦ rw (done, drain_credits) (h, omega arith)
      | inr more ↦ elim (Bool-cases ((l.slot + 1) % nr_credit_entries == head)) [
        | inl round ↦ rw (more, round, drain_credits) (h, omega arith)
        | inr on ↦ rw (more, on, drain_credits) (slot, omega (arith, delay))
      ]
    ]

move_head-IsRing : (ch : ChannelModel) (t : ℕ) → IsRing ch → IsRing (move_head ch t)
unfolding move_head
move_head-IsRing ch t r = record {
  head = omega arith;
  window = ground (arith, r.window);
  credits = r.credits;
}

suc_lem : (k : ℕ) → nr_credit_entries + suc k ≡ suc (nr_credit_entries + k)
suc_lem k = omega arith

-- Once `drain_credits` has fuel for every slot, more fuel makes no difference: the loop ends by itself.
pub drain_credits_ends :
    (k head : ℕ) (l : Draining)
    → head < nr_credit_entries
    → l.slot < nr_credit_entries
    → drain_credits (nr_credit_entries + k) head l ≡ drain_credits nr_credit_entries head l
drain_credits_ends zero head l hh hs = refl
drain_credits_ends (suc k) head l hh hs =
    ap (λ f. drain_credits f head l) (suc_lem k)
    ∙ drain_step (nr_credit_entries + k) head l hh hs (omega arith)
    ∙ drain_credits_ends k head l hh hs

-- the loop's variables before and after it, in `transfer`
abbrev first_slot : ChannelModel → ℕ → ℕ → Draining
first_slot ch units offs = record {
  credits = ch.avail_credits;
  slot = add32 ch.head offs % nr_credit_entries;
  remaining = add32 units ch.command_credits;
  delay = 0;
}

abbrev drained : ChannelModel → ℕ → ℕ → Draining
drained ch units offs = drain_credits nr_credit_entries ch.head (first_slot ch units offs)

abbrev remaining_delay : ℕ → ℕ → ℕ
remaining_delay d e = if ltb e d then d - e else 0

latency-le :
    (t units lat delay : ℕ)
    → t < 2 ^ 63
    → delay ≤ nr_credit_entries
    → t ≤ add64 t (add64 (mul32 lat units) (mul64 delay unit_time_interval))
latency-le t units lat delay small le = omega arith

module _ (ch : ChannelModel) (t units offs : ℕ) (r : IsRing ch) where
  transfer-IsRing :
      IsRing (transfer ch t units offs).1 × (t < 2 ^ 63 → t ≤ (transfer ch t units offs).0)
  unfolding transfer
  transfer-IsRing =
      let l = drained ch units offs in
      let (slot, delay) =
        slot-lt nr_credit_entries ch.head (first_slot ch units offs) (omega arith) in
      (
        record {
          head = r.head;
          window = ground (arith, r.window, r.head, slot);
          credits = r.credits;
        },
        λ small.
            latency-le t units ch.xfer_lat
              (remaining_delay l.delay (add32 units ch.command_credits / ch.max_credits)) small
              (ground (arith, delay)),
      )

-- A request on a ring in order succeeds, leaves the ring in order, and completes at its own time or
-- later, for times below 2 ^ 63.
pub chmodel_request-IsRing :
    (ch : ChannelModel) (cur_time request_time len : ℕ)
    → IsRing ch
    → request_time < 2 ^ 63
    → (target : ℕ) × (ch' : ChannelModel) × (chmodel_request ch cur_time request_time len
        ≡ some (target, ch'))
      × IsRing ch'
      × (request_time ≤ target)
unfolding chmodel_request
chmodel_request-IsRing ch cur_time request_time len r small =
    let moved = move_head ch cur_time in
    let m = move_head-IsRing ch cur_time r in
    let units = w32 (div_round_up len unit_xfer_size) in
    let offs = w32 (sub64 (request_time / unit_time_interval) (cur_time / unit_time_interval)) in
    let fits : leb moved.valid_len nr_credit_entries ≡ true = ground (arith, m.window) in
    let some_credits : ltb 0 moved.max_credits ≡ true = ground (arith, m.credits) in
    let (ring, later) = transfer-IsRing moved request_time units offs m in
    elim (Bool-cases (ltb request_time cur_time)) [
      | inl past ↦ (request_time, moved, rw (fits, past) refl, m, omega arith)
      | inr present ↦ elim (Bool-cases (leb nr_credit_entries offs)) [
        | inl far ↦ (request_time, moved, rw (fits, present, far) refl, m, omega arith)
        | inr near ↦
            let (target, after) = transfer moved request_time units offs in
            (target, after, rw (fits, present, near, some_credits) refl, ring, later small)
      ]
    ]
