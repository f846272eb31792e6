-- ===== src/Zns/Zrwa.antt =====
-- zns_read_write.c: writes to a zone with a write area (ZRWA), which move the write pointer when
-- they reach past the area.
use wild_cat.Common.{
  ℕ, zero, suc, ◌-◌, ◌/◌, ◌%◌, Bool, true, false, not, ◌||◌, Option, none, some, ◌==◌, ltb, leb,
  if◌then◌else◌, ◌>>=◌, check, update, w32, add64, sub64, mul32, mul64,
}
use wild_cat.Ssd.Buffer.{buffer_allocate}
use wild_cat.Ssd.Channel.{div_round_up}
use wild_cat.Zns.State.{
  state_empty, state_opened_impl, state_opened_expl, state_closed, state_read_only, state_full,
  state_offline, ZnsStatus, success, err_boundary, err_full, err_read_only, err_offline,
  invalid_write, no_open_zone, ZnsFtl, open_zone, acquire_zone_resource, change_zone_state,
  lba_to_zone, zone_to_elba, lba_to_lpn,
}
use wild_cat.Zns.Namespace.{
  zrwa_area, ZnsNamespace, ZnsRequest, ZnsReply, nr_lbas_from_rw_cmd, lba_to_byte,
  advance_write_buffer, finish_write,
}
use wild_cat.Zns.Write.{
  check_boundary_error, increase_write_ptr, lpn_to_ppa, program_unit, oneshot_bytes, pgs_in_unit,
}

-- the last block of the range
abbrev pub write_end : ZnsRequest → ℕ
write_end req = sub64 (add64 req.slba (nr_lbas_from_rw_cmd req)) 1

-- the first block past the write area
abbrev pub zrwa_impl_start : ZnsFtl → ℕ → ℕ
zrwa_impl_start f zid = add64 (f.zone_descs zid).wp f.zp.lbas_per_zrwa

abbrev pub zrwa_impl_end : ZnsFtl → ℕ → ℕ
zrwa_impl_end f zid = sub64 (add64 (f.zone_descs zid).wp (mul32 2 f.zp.lbas_per_zrwa)) 1

-- The size of the area is taken from the zone's buffer, where it must be left.
open_with_area : ZnsFtl → ℕ → Option (ZnsStatus × ZnsFtl)
open_with_area f zid =
    let (acquired, f') = acquire_zone_resource f open_zone in
    if not acquired
    then some (no_open_zone, f')
    else (buffer_allocate (f'.zrwa_buffer zid) f'.zp.zrwa_size >>= λ (alloc, buf).
        check (not (alloc == 0)) (
          some (
            success,
            change_zone_state (record f' { zrwa_buffer = update f'.zrwa_buffer zid buf }) zid
                state_opened_impl,
          )))

-- the checks and the `switch` on the state of the zone
unfoldable pub admit_zrwa : ZnsFtl → ZnsRequest → Option (ZnsStatus × ZnsFtl)
unfolding open_with_area
admit_zrwa f req =
    let zid = lba_to_zone f req.slba in
    if not (lba_to_byte (nr_lbas_from_rw_cmd req) % f.ssd.sp.write_unit_size == 0)
    then some (invalid_write, f)
    else if not (check_boundary_error f req.slba (nr_lbas_from_rw_cmd req))
    then some (err_boundary, f)
    else if ltb req.slba (f.zone_descs zid).wp || ltb (zrwa_impl_end f zid) (write_end req)
    then some (invalid_write, f)
    else elim (f.zone_descs zid).state [
      | state_empty ↦ open_with_area f zid
      | state_closed ↦ open_with_area f zid
      | state_opened_impl ↦ some (success, f)
      | state_opened_expl ↦ some (success, f)
      | state_full ↦ some (err_full, f)
      | state_read_only ↦ some (err_read_only, f)
      | state_offline ↦ some (err_offline, f)
    ]

-- How far the write pointer of zone `zid` moves. The last case is the workaround for the end of the
-- zone. With granules of no blocks, the code divides by zero.
unfoldable pub nr_lbas_flush : ZnsFtl → ℕ → ℕ → Option ℕ
nr_lbas_flush f zid elba =
    if leb (zrwa_impl_start f zid) elba
    then check (ltb 0 f.zp.lbas_per_zrwafg) (
        some (
          mul64 (div_round_up (add64 (sub64 elba (zrwa_impl_start f zid)) 1) f.zp.lbas_per_zrwafg)
            f.zp.lbas_per_zrwafg))
    else if elba == zone_to_elba f zid
    then some (add64 (sub64 elba (f.zone_descs zid).wp) 1)
    else some 0

-- The flush of so many blocks out of the area: whether the buffer has room, and the FTL.
unfoldable pub flush_area : ZnsFtl → ℕ → ℕ → Option (Bool × ZnsFtl)
unfolding increase_write_ptr
flush_area f zid nr_flush =
    if nr_flush == 0
    then some (true, f)
    else (buffer_allocate (f.zrwa_buffer zid) (lba_to_byte nr_flush) >>= λ (alloc, buf).
        let f' = record f { zrwa_buffer = update f.zrwa_buffer zid buf } in
        if alloc == 0
        then some (false, f')
        else some (true, increase_write_ptr f' zid (w32 nr_flush)))

-- The loop over the pages that leave the area. Without fuel it has no result.
flush_units : ℕ → ZnsNamespace → ℕ → ℕ → ℕ → ℕ → ℕ → Option (ℕ × ZnsNamespace)
unfolding program_unit lpn_to_ppa
flush_units zero ns zid remaining lpn stime latest =
    if remaining == 0 then some (latest, ns) else none
flush_units (suc fuel) ns zid remaining lpn stime latest = elim (remaining == 0) [
  | true ↦ some (latest, ns)
  | false ↦
      let oneshot = ns.ftl.ssd.sp.pgs_per_oneshotpg in
      let p = lpn_to_ppa ns.ftl lpn in
      let pgs = pgs_in_unit oneshot (p.pg % oneshot) remaining in
      (if add64 (p.pg % oneshot) pgs == oneshot
        then program_unit ns (zrwa_area zid) p stime latest (oneshot_bytes ns.ftl)
        else some (latest, ns))
      >>= λ (latest', ns'). flush_units fuel ns' zid (remaining - pgs) (add64 lpn pgs) stime latest'
]

-- The start block of a command that is not handled is left, and the result not set.
unfoldable pub write_zrwa : ZnsNamespace → ZnsRequest → Option (ZnsReply × ZnsNamespace)
unfolding admit_zrwa nr_lbas_flush flush_area flush_units advance_write_buffer
write_zrwa ns req =
    let f = ns.ftl in
    let zid = lba_to_zone f req.slba in
    let prev_wp = (f.zone_descs zid).wp in
    admit_zrwa f req >>= λ (status, f₁). elim status [
      | success ↦ nr_lbas_flush f zid (write_end req) >>= λ nr_flush.
          let remaining = nr_flush / f.ssd.sp.secs_per_pg in
          flush_area f₁ zid nr_flush >>= λ (room, f₂).
          if not room
          then some (
            record { handled = false; status = success; nsecs_target = 0; assigned = req.slba },
            record ns { ftl = f₂ },
          )
          else (advance_write_buffer (record ns { ftl = f₂ }) req.nsecs_start
                (lba_to_byte (nr_lbas_from_rw_cmd req))
              >>= λ (xfer, ns₁).
                  flush_units remaining ns₁ zid remaining (lba_to_lpn f prev_wp) xfer xfer
                  >>= λ (latest, ns₂).
                      some (finish_write ns₂ req req.slba success latest xfer, ns₂))
      | other ↦ some (
        finish_write ns req req.slba other req.nsecs_start req.nsecs_start,
        record ns { ftl = f₁ },
      )
    ]
