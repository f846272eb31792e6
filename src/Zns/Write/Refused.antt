-- ===== src/Zns/Write/Refused.antt =====
-- A write that the checks refuse.
use wild_cat.Common.{
  ℕ, ◌-◌, ◌^◌, ◌≤◌, ◌<◌, ◌≡◌, ◌≢◌, refl, sym, Bool, true, false, Option, none, some, ◌==◌, ltb,
  if◌then◌else◌, arith, inl, inr, Bool-cases, ap, ◌∙◌, update,
}
use wild_cat.Ssd.Buffer.{Buffer, buffer_allocate}
use wild_cat.Ssd.Buffer.Account.{buffer_allocate-enough}
use wild_cat.Zns.State.{ZnsStatus, success, ZnsFtl, lba_to_zone}
use wild_cat.Zns.Account.{IsAccounted}
use wild_cat.Zns.Manage.{with_status}
use wild_cat.Zns.Machine.{write, Event, Outcome, refused, kept, stepped}
use wild_cat.Zns.Namespace.{ZnsNamespace, ZnsRequest, ZnsReply, nr_lbas_from_rw_cmd, lba_to_byte}
use wild_cat.Zns.Write.{admit_write, write_buffer_of, set_write_buffer, write_start, write_plain}
use wild_cat.Zns.Write.Admit.{admit_write-Outcome}

refused-same :
    (f : ZnsFtl) (z : ℕ) (e : Event) (r : Option ZnsStatus × ZnsFtl)
    → Outcome f z e r
    → r.0 ≢ some success
    → r.1 ≡ f
refused-same f z e _ (refused s h) bad = refl
refused-same f z e _ (kept h) bad = absurd (bad refl)
refused-same f z e _ (stepped f' d s b) bad = absurd (bad refl)

some_apart : (s : ZnsStatus) → s ≢ success → some s ≢ some success
some_apart s h e = h (ap (λ o. elim o [ none ↦ s | some v ↦ v ]) e)

-- the buffer of a write after its bytes are taken, and the FTL with this buffer
abbrev taken_of : ZnsFtl → ZnsRequest → Buffer
taken_of f req =
    let buf = write_buffer_of f (lba_to_zone f req.slba) in
    record buf { remaining = buf.remaining - lba_to_byte (nr_lbas_from_rw_cmd req) }

abbrev pub charged : ZnsFtl → ZnsRequest → ZnsFtl
charged f req = set_write_buffer f (lba_to_zone f req.slba) (taken_of f req)

-- the reply to a write that is refused, which ends when it starts
abbrev pub refusal : ZnsRequest → ℕ → ZnsStatus → ZnsReply
refusal req slba s = record {
  handled = true;
  status = s;
  nsecs_target = req.nsecs_start;
  assigned = slba;
}

-- the checks that refuse a write change nothing
admit_write-same :
    (f : ZnsFtl) (z k slba : ℕ)
    → z < f.zp.nr_zones
    → 1 ≤ k
    → k < 2 ^ 32
    → IsAccounted f
    → (f.zone_descs z).zrwav ≡ false
    → (admit_write f z slba k).0 ≢ success
    → (admit_write f z slba k).1 ≡ f
admit_write-same f z k slba lt one small acc plain bad =
    refused-same f z (write k) (with_status (admit_write f z slba k))
      (admit_write-Outcome f z k lt one small slba acc plain) (some_apart _ bad)

both_same : (b : Bool) (t : ℕ) → (if b then t else t) ≡ t
both_same true t = refl
both_same false t = refl

-- what `__zns_write` does once the bytes are taken, on the answer of the checks
answered :
    (ns : ZnsNamespace) (req : ZnsRequest) (f' : ZnsFtl) (s : ZnsStatus)
    → (buffer_allocate
          (write_buffer_of ns.ftl (lba_to_zone ns.ftl req.slba))
          (lba_to_byte (nr_lbas_from_rw_cmd req))
        ≡ some (lba_to_byte (nr_lbas_from_rw_cmd req), taken_of ns.ftl req))
    → (admit_write
        (charged ns.ftl req)
        (lba_to_zone ns.ftl req.slba)
        (write_start ns.ftl req)
        (nr_lbas_from_rw_cmd req)).0
      ≡ s
    → (admit_write
        (charged ns.ftl req)
        (lba_to_zone ns.ftl req.slba)
        (write_start ns.ftl req)
        (nr_lbas_from_rw_cmd req)).1
      ≡ f'
    → s ≢ success
    → write_plain ns req ≡ some (refusal req (write_start ns.ftl req) s, record ns { ftl = f' })
unfolding write_plain
answered ns req f' success alloc status same bad = absurd (bad refl)
answered ns req f' s alloc status same bad =
    let bytes = lba_to_byte (nr_lbas_from_rw_cmd req) in
    let enough : ltb bytes bytes ≡ false = ground arith in
    rw (write_plain, alloc, enough, status, both_same)
      (ap (λ x. some (refusal req (write_start ns.ftl req) s, record ns { ftl = x })) same)

-- the checks do not depend on the buffer
charged-same :
    (f : ZnsFtl) (buf : Buffer) (z k slba : ℕ)
    → z < f.zp.nr_zones
    → 1 ≤ k
    → k < 2 ^ 32
    → IsAccounted f
    → (f.zone_descs z).zrwav ≡ false
    → (admit_write (set_write_buffer f z buf) z slba k).0 ≢ success
    → (admit_write (set_write_buffer f z buf) z slba k).1 ≡ set_write_buffer f z buf
charged-same f buf z k slba lt one small acc plain bad =
    elim (Bool-cases (f.zp.zone_wb_size == 0)) [
      | inl drive ↦
          let bad' = rw drive at bad in
          rw drive (
            admit_write-same (record f { write_buffer = buf }) z k slba lt one small acc plain bad')
      | inr zone ↦
          let bad' = rw zone at bad in
          rw zone (
            admit_write-same (record f { zone_write_buffer = update f.zone_write_buffer z buf }) z k
              slba lt one small acc plain bad')
    ]

-- `__zns_write` of a command to a zone of the device without a random write area, whose bytes the
-- balanced buffer has and whose checks give an error status, answers with this status at the time
-- at which the command starts, and changes nothing but the buffer, from which the bytes are gone.
pub write_plain-refused :
    (ns : ZnsNamespace) (req : ZnsRequest)
    → IsAccounted ns.ftl
    → lba_to_zone ns.ftl req.slba < ns.ftl.zp.nr_zones
    → (ns.ftl.zone_descs (lba_to_zone ns.ftl req.slba)).zrwav ≡ false
    → req.len < 2 ^ 16
    → lba_to_byte (nr_lbas_from_rw_cmd req)
      ≤ (write_buffer_of ns.ftl (lba_to_zone ns.ftl req.slba)).remaining
    → (write_buffer_of ns.ftl (lba_to_zone ns.ftl req.slba)).remaining
      ≤ (write_buffer_of ns.ftl (lba_to_zone ns.ftl req.slba)).size
    → (s : ZnsStatus) → s ≢ success
    → (admit_write
        (charged ns.ftl req)
        (lba_to_zone ns.ftl req.slba)
        (write_start ns.ftl req)
        (nr_lbas_from_rw_cmd req)).0
      ≡ s
    → write_plain ns req
      ≡ some (refusal req (write_start ns.ftl req) s, record ns { ftl = charged ns.ftl req })
write_plain-refused ns req acc lt plain len room balanced s bad status =
    let f = ns.ftl in
    let z = lba_to_zone f req.slba in
    let k = nr_lbas_from_rw_cmd req in
    let same =
      charged-same f (taken_of f req) z k (write_start f req) lt (omega arith) (omega (arith, len))
        acc plain (λ e. bad (sym status ∙ e)) in
    answered ns req (charged f req) s
      (buffer_allocate-enough (write_buffer_of f z) (lba_to_byte k) room balanced
        (omega (arith, len)))
      status same bad
