-- ===== src/Ssd/Channel.antt =====
-- channel_model.c: a window of time slots, each with the transfer credits that are left in it.
-- The window is a ring of `nr_credit_entries` slots that starts at `head`.
pub mod Ring
use wild_cat.Common.{
  ℕ, zero, suc, ◌+◌, ◌-◌, ◌*◌, ◌/◌, ◌%◌, ◌^◌, true, false, ◌&&◌, Option, some, ltb, leb, ◌==◌,
  if◌then◌else◌, check, update, w32, add32, mul32, add64, sub64, mul64,
}

abbrev pub nr_credit_entries : ℕ
nr_credit_entries = 1024 * 96

abbrev pub unit_time_interval : ℕ
unit_time_interval = 4000

abbrev pub unit_xfer_size : ℕ
unit_xfer_size = 128

abbrev pub ns_per_sec : ℕ
ns_per_sec = 1000000000

-- `struct channel_model`; a credit is a `uint8_t`
pub record ChannelModel : Type 0 where
  pub cur_time : ℕ
  pub head : ℕ
  pub valid_len : ℕ
  pub max_credits : ℕ
  pub command_credits : ℕ
  pub xfer_lat : ℕ
  pub avail_credits : ℕ → ℕ

-- `DIV_ROUND_UP` on 64 bits
abbrev pub div_round_up : ℕ → ℕ → ℕ
div_round_up n d = sub64 (add64 n d) 1 / d

-- `memset(&f[from], value, n)`
abbrev pub fill : (ℕ → ℕ) → ℕ → ℕ → ℕ → ℕ → ℕ
fill f from value n k = if leb from k && ltb k (from + n) then value % 256 else f k

unfoldable pub chmodel_init : ℕ → ChannelModel
chmodel_init bandwidth =
    let mb = mul64 bandwidth (2 ^ 20) in
    let max_credits = w32 (mul64 mb unit_time_interval / ns_per_sec / unit_xfer_size) in
    record {
      cur_time = 0;
      head = 0;
      valid_len = 0;
      max_credits = max_credits;
      command_credits = 0;
      xfer_lat = w32 (unit_xfer_size * ns_per_sec / mb);
      avail_credits = fill (λ _. 0) 0 max_credits nr_credit_entries;
    }

-- The first part of `chmodel_request`: the head moves to the slot of the current time, and the
-- slots that it passes are refilled.
pub move_head : ChannelModel → ℕ → ChannelModel
move_head ch cur_time =
    let passed = w32 (sub64 (cur_time / unit_time_interval) (ch.cur_time / unit_time_interval)) in
    let offs = if ltb passed ch.valid_len then passed else ch.valid_len in
    let room = nr_credit_entries - ch.head in
    let refilled =
      if leb nr_credit_entries (add32 ch.head offs)
      then fill (fill ch.avail_credits ch.head ch.max_credits room) 0 ch.max_credits (offs - room)
      else fill ch.avail_credits ch.head ch.max_credits offs in
    record ch {
      avail_credits = refilled;
      head = add32 ch.head offs % nr_credit_entries;
      cur_time = cur_time;
      valid_len = ch.valid_len - offs;
    }

-- the variables of the loop of `chmodel_request`
pub record Draining : Type 0 where
  pub credits : ℕ → ℕ
  pub slot : ℕ
  pub remaining : ℕ
  pub delay : ℕ

-- One round takes what the slot has.
pub consume : Draining → Draining
consume l =
    let consumed = if leb l.remaining (l.credits l.slot) then l.remaining else l.credits l.slot in
    record l {
      credits = update l.credits l.slot (l.credits l.slot - consumed);
      remaining = l.remaining - consumed;
    }

-- The `while (1)` of `chmodel_request`. It ends when nothing remains or the ring is exhausted.
pub drain_credits : ℕ → ℕ → Draining → Draining
unfolding consume
drain_credits zero head l = l
drain_credits (suc fuel) head l =
    let taken = consume l in
    let next = (taken.slot + 1) % nr_credit_entries in
    elim (taken.remaining == 0) [
      | true ↦ taken
      | false ↦ elim (next == head) [
        | true ↦ taken
        | false ↦ drain_credits fuel head (record taken { slot = next; delay = taken.delay + 1 })
      ]
    ]

-- The second part of `chmodel_request`: the credits are taken, and the latency follows.
pub transfer : ChannelModel → ℕ → ℕ → ℕ → ℕ × ChannelModel
transfer ch request_time units offs =
    let remaining = add32 units ch.command_credits in
    let l = drain_credits nr_credit_entries ch.head (record {
      credits = ch.avail_credits;
      slot = add32 ch.head offs % nr_credit_entries;
      remaining = remaining;
      delay = 0;
    }) in
    let default_delay = remaining / ch.max_credits in
    let valid_length =
      if leb ch.head l.slot
      then l.slot - ch.head + 1
      else nr_credit_entries - (ch.head - l.slot - 1) in
    let delay = if ltb default_delay l.delay then l.delay - default_delay else 0 in
    let total_latency = add64 (mul32 ch.xfer_lat units) (mul64 delay unit_time_interval) in
    (
      add64 request_time total_latency,
      record ch {
        avail_credits = l.credits;
        valid_len = if ltb ch.valid_len valid_length then valid_length else ch.valid_len;
      },
    )

-- The completion time, and the model afterwards. `cur_time` is what the clock reads; a zero
-- `max_credits` is a division by zero.
pub chmodel_request : ChannelModel → ℕ → ℕ → ℕ → Option (ℕ × ChannelModel)
chmodel_request ch cur_time request_time len =
    let moved = move_head ch cur_time in
    let offs = w32 (sub64 (request_time / unit_time_interval) (cur_time / unit_time_interval)) in
    check (leb moved.valid_len nr_credit_entries) (
      if ltb request_time cur_time
      then some (request_time, moved)
      else if leb nr_credit_entries offs
      then some (request_time, moved)
      else check (ltb 0 moved.max_credits)
          (some (transfer moved request_time (w32 (div_round_up len unit_xfer_size)) offs)))
