-- ===== src/Zns/Write.antt =====
-- zns_read_write.c: the write pointer of a zone, and writes to a zone without a write area.
pub mod Admit
pub mod Open
pub mod Pointer
pub mod Refused
use wild_cat.Common.{
  ℕ, zero, suc, ◌+◌, ◌-◌, ◌*◌, ◌/◌, ◌%◌, ◌^◌, min, max, Bool, true, false, not, ◌&&◌, ◌||◌, Option,
  none, some, ◌∷◌, ◌==◌, ltb, leb, if◌then◌else◌, ◌>>=◌, update, w32, add32, add64, sub64, mul32,
  mul64, sext,
}
use wild_cat.Ssd.Buffer.{Buffer, buffer_allocate}
use wild_cat.Ssd.Nand.{Ppa}
use wild_cat.Ssd.Timing.{nand_write}
use wild_cat.Zns.State.{
  state_empty, state_opened_impl, state_opened_expl, state_closed, state_read_only, state_full,
  state_offline, ZnsStatus, success, err_boundary, err_full, err_read_only, err_offline,
  invalid_write, no_active_zone, no_open_zone, ZnsFtl, active_zone, open_zone,
  is_zone_resource_full, acquire_zone_resource, release_zone_resource, set_desc, change_zone_state,
  lpn_to_zone, zone_to_slpn, lba_to_zone, zone_to_slba, zone_to_elpn, die_to_channel, die_to_lun,
  lba_to_lpn,
}
use wild_cat.Zns.Manage.{take_active}
use wild_cat.Zns.Namespace.{
  BufferRef, drive_buffer, zone_buffer, zrwa_area, ZnsNamespace, ZnsRequest, ZnsReply,
  nr_lbas_from_rw_cmd, lba_to_byte, advance_nand, advance_write_buffer, finish_write,
}

-- The name is the source's; the check answers that a range lies in one zone.
abbrev pub check_boundary_error : ZnsFtl → ℕ → ℕ → Bool
check_boundary_error f slba nr_lba =
    lba_to_zone f slba == lba_to_zone f (sub64 (add64 slba nr_lba) 1)

unfoldable pub increase_write_ptr : ZnsFtl → ℕ → ℕ → ZnsFtl
increase_write_ptr f zid nr_lba =
    let d = f.zone_descs zid in
    let wp = add64 d.wp nr_lba in
    let f₁ = set_desc f zid (record d { wp = wp }) in
    if wp == add64 (zone_to_slba f zid) d.zone_capacity
    then change_zone_state (release_zone_resource (release_zone_resource f₁ open_zone) active_zone)
        zid state_full
    else f₁

-- the bit fields hold the address where a LUN's and a channel's number have 8 bits and a page's 16
unfoldable pub lpn_to_ppa : ZnsFtl → ℕ → Ppa
lpn_to_ppa f lpn =
    let spp = f.ssd.sp in
    let zone = lpn_to_zone f lpn in
    let off = sub64 lpn (zone_to_slpn f zone) in
    let sdie = w32 (mul64 zone f.zp.dies_per_zone % spp.tt_luns) in
    let die = w32 (sdie + off / spp.pgs_per_oneshotpg % f.zp.dies_per_zone) in
    record {
      pg = off % spp.pgs_per_oneshotpg % 2 ^ 16;
      blk = 0;
      pl = 0;
      lun = die_to_lun f die % 2 ^ 8;
      ch = die_to_channel f die % 2 ^ 8;
      rsv = 0;
    }

-- the case of a closed zone, which an empty one falls through to
abbrev pub open_implicitly : ZnsFtl → ℕ → ZnsStatus × ZnsFtl
open_implicitly f zid =
    let (acquired, f') = acquire_zone_resource f open_zone in
    if acquired then (success, change_zone_state f' zid state_opened_impl) else (no_open_zone, f')

-- the `switch` on the state of the zone
unfoldable pub open_for_write : ZnsFtl → ℕ → ℕ → ZnsStatus × ZnsFtl
unfolding take_active
open_for_write f zid slba = elim (f.zone_descs zid).state [
  | state_empty ↦
      if not (slba == (f.zone_descs zid).zslba)
      then (invalid_write, f)
      else if is_zone_resource_full f active_zone
      then (no_active_zone, f)
      else if is_zone_resource_full f open_zone
      then (no_open_zone, f)
      else open_implicitly (take_active f) zid
  | state_closed ↦ open_implicitly f zid
  | state_opened_impl ↦ (success, f)
  | state_opened_expl ↦ (success, f)
  | state_full ↦ (err_full, f)
  | state_read_only ↦ (err_read_only, f)
  | state_offline ↦ (err_offline, f)
]

abbrev pub advance_opened : ℕ → ℕ → ZnsStatus × ZnsFtl → ZnsStatus × ZnsFtl
advance_opened zid nr_lba (success, f) = (success, increase_write_ptr f zid nr_lba)
advance_opened zid nr_lba (status, f) = (status, f)

-- the checks of a write, the `switch`, and the step of the write pointer
unfoldable pub admit_write : ZnsFtl → ℕ → ℕ → ℕ → ZnsStatus × ZnsFtl
unfolding open_for_write increase_write_ptr
admit_write f zid slba nr_lba =
    if not (lba_to_byte nr_lba % f.ssd.sp.write_unit_size == 0)
    then (invalid_write, f)
    else if not (check_boundary_error f slba nr_lba)
    then (err_boundary, f)
    else if not (slba == (f.zone_descs zid).wp)
    then (invalid_write, f)
    else advance_opened zid nr_lba (open_for_write f zid slba)

abbrev pub oneshot_bytes : ZnsFtl → ℕ
oneshot_bytes f = sext (mul32 f.ssd.sp.pgs_per_oneshotpg f.ssd.sp.pgsz)

-- The program of one unit, and the release of `bytes` of a buffer at its end.
unfoldable pub program_unit : ZnsNamespace → BufferRef → Ppa → ℕ → ℕ → ℕ → Option (ℕ × ZnsNamespace)
unfolding advance_nand
program_unit ns buf p stime latest bytes =
    advance_nand ns (record {
      cmd = nand_write;
      xfer_size = oneshot_bytes ns.ftl;
      stime = stime;
      interleave_pci_dma = false;
      ppa = p;
    })
    >>= λ (t, ns'). some (
      max t latest,
      record ns' {
        scheduled = record { buffer = buf; target = t; released = bytes } ∷ ns'.scheduled;
      },
    )

-- the part of a zone that does not fill a unit
abbrev unaligned_space : ZnsFtl → ℕ
unaligned_space f = f.zp.zone_size % w32 (mul32 f.ssd.sp.pgs_per_oneshotpg f.ssd.sp.pgsz)

-- how many pages of the range lie in the unit of page `lpn`
abbrev pub pgs_in_unit : ℕ → ℕ → ℕ → ℕ
pgs_in_unit oneshot pg_off left = min left (oneshot - pg_off)

-- One round: the unit of page `lpn` is programmed where the write reaches its end or the zone's.
unfoldable pub write_unit : ZnsNamespace → BufferRef → ℕ → ℕ → ℕ → ℕ → ℕ → Option (ℕ × ZnsNamespace)
unfolding program_unit lpn_to_ppa
write_unit ns buf zone_elpn lpn pgs stime latest =
    let f = ns.ftl in
    let oneshot = f.ssd.sp.pgs_per_oneshotpg in
    let p = lpn_to_ppa f lpn in
    let at_end = sub64 (add64 lpn pgs) 1 == zone_elpn in
    let bytes =
      if at_end && ltb 0 (unaligned_space f) then unaligned_space f else oneshot_bytes f in
    if (p.pg % oneshot + pgs == oneshot) || at_end
    then program_unit ns buf p stime latest bytes
    else some (latest, ns)

-- The loop over the pages `lpn .. elpn`; a round passes over one page or more. Without fuel it has
-- no result.
unfoldable pub write_units :
    ℕ → ZnsNamespace → BufferRef → ℕ → ℕ → ℕ → ℕ → ℕ → Option (ℕ × ZnsNamespace)
unfolding write_unit lpn_to_ppa
write_units zero ns buf zone_elpn elpn lpn stime latest =
    if leb lpn elpn then none else some (latest, ns)
write_units (suc fuel) ns buf zone_elpn elpn lpn stime latest = elim (leb lpn elpn) [
  | false ↦ some (latest, ns)
  | true ↦
      let oneshot = ns.ftl.ssd.sp.pgs_per_oneshotpg in
      let pgs = pgs_in_unit oneshot ((lpn_to_ppa ns.ftl lpn).pg % oneshot) (elpn - lpn + 1) in
      write_unit ns buf zone_elpn lpn pgs stime latest >>= λ (latest', ns').
      write_units fuel ns' buf zone_elpn elpn (add64 lpn pgs) stime latest'
]

abbrev pub write_buffer_of : ZnsFtl → ℕ → Buffer
write_buffer_of f zid = if f.zp.zone_wb_size == 0 then f.write_buffer else f.zone_write_buffer zid

abbrev pub set_write_buffer : ZnsFtl → ℕ → Buffer → ZnsFtl
set_write_buffer f zid buf =
    if f.zp.zone_wb_size == 0
    then record f { write_buffer = buf }
    else record f { zone_write_buffer = update f.zone_write_buffer zid buf }

abbrev write_buffer_ref : ZnsFtl → ℕ → BufferRef
write_buffer_ref f zid = if f.zp.zone_wb_size == 0 then drive_buffer else zone_buffer zid

-- the block a write starts at: that of the command, or the write pointer for an append
abbrev pub write_start : ZnsFtl → ZnsRequest → ℕ
write_start f req = if req.append then (f.zone_descs (lba_to_zone f req.slba)).wp else req.slba

-- What follows the checks: the NAND model.
unfoldable pub time_write : ZnsNamespace → ZnsRequest → ℕ → ℕ → Option (ZnsReply × ZnsNamespace)
unfolding advance_write_buffer write_units
time_write ns req zid slba =
    let f = ns.ftl in
    let nr_lba = nr_lbas_from_rw_cmd req in
    let slpn = lba_to_lpn f slba in
    let elpn = lba_to_lpn f (sub64 (add64 slba nr_lba) 1) in
    advance_write_buffer ns req.nsecs_start (lba_to_byte nr_lba) >>= λ (xfer, ns₁).
    write_units (elpn + 1 - slpn) ns₁ (write_buffer_ref f zid) (zone_to_elpn f zid) elpn slpn xfer
      xfer
    >>= λ (latest, ns₂). some (finish_write ns₂ req slba success latest xfer, ns₂)

-- `__zns_write`. Where the buffer is short, the command is not handled and the result not set.
unfoldable pub write_plain : ZnsNamespace → ZnsRequest → Option (ZnsReply × ZnsNamespace)
unfolding admit_write time_write
write_plain ns req =
    let f = ns.ftl in
    let zid = lba_to_zone f req.slba in
    let slba = write_start f req in
    let nr_lba = nr_lbas_from_rw_cmd req in
    let bytes = lba_to_byte nr_lba in
    buffer_allocate (write_buffer_of f zid) bytes >>= λ (alloc, buf).
    if ltb alloc bytes
    then some (
      record { handled = false; status = success; nsecs_target = 0; assigned = slba },
      record ns { ftl = set_write_buffer f zid buf },
    )
    else (let (status, f') = admit_write (set_write_buffer f zid buf) zid slba nr_lba in
        let ns' = record ns { ftl = f' } in
        elim status [
          | success ↦ time_write ns' req zid slba
          | other ↦ some (finish_write ns' req slba other req.nsecs_start req.nsecs_start, ns')
        ])
