-- ===== src/Zns/State.antt =====
-- zns_ftl.h and nvme_zns.h: the zones, the resources they hold, and the translation of addresses.
-- The divisors are sizes that the initialisation makes positive.
use wild_cat.Common.{
  ℕ, ◌/◌, ◌%◌, Bool, true, false, ◌==◌, ltb, if◌then◌else◌, update, w32, add32, sub32, sub64, mul32,
}
use wild_cat.Ssd.Buffer.{Buffer}
use wild_cat.Ssd.Nand.{Ssd}

pub data ZoneState : Type 0 where
  state_empty state_opened_impl state_opened_expl state_closed : ZoneState
  state_read_only state_full state_offline : ZoneState

-- The status of a command: success, `NVME_SC_INVALID_FIELD` or one of `NVME_SC_ZNS_*`.
pub data ZnsStatus : Type 0 where
  success invalid_field invalid_zone_operation zrwa_rsrc_unavail err_boundary err_full : ZnsStatus
  err_read_only err_offline invalid_write no_active_zone no_open_zone invalid_transition : ZnsStatus

-- The fields of a zone descriptor that the code writes; the others stay zero.
pub record ZoneDescriptor : Type 0 where
  pub zone_type : ℕ
  pub state : ZoneState
  pub zrwav : Bool
  pub zone_capacity : ℕ
  pub zslba : ℕ
  pub wp : ℕ

pub record ZnsParams : Type 0 where
  pub nr_zones : ℕ
  pub nr_active_zones : ℕ
  pub nr_open_zones : ℕ
  pub dies_per_zone : ℕ
  pub zone_size : ℕ
  pub zone_wb_size : ℕ
  pub nr_zrwa_zones : ℕ
  pub zrwafg_size : ℕ
  pub zrwa_size : ℕ
  pub zrwa_buffer_size : ℕ
  pub lbas_per_zrwafg : ℕ
  pub lbas_per_zrwa : ℕ

pub record ZoneResourceInfo : Type 0 where
  pub acquired_cnt : ℕ
  pub total_cnt : ℕ

-- `enum zone_resource_type`: the indices of `res_infos`
abbrev pub active_zone : ℕ
active_zone = 0

abbrev pub open_zone : ℕ
open_zone = 1

abbrev pub zrwa_zone : ℕ
zrwa_zone = 2

-- The FTL with the drive's own write buffer and the bytes of the namespace.
pub record ZnsFtl : Type 0 where
  pub ssd : Ssd
  pub zp : ZnsParams
  pub res_infos : ℕ → ZoneResourceInfo
  pub zone_descs : ℕ → ZoneDescriptor
  pub zone_write_buffer : ℕ → Buffer
  pub zrwa_buffer : ℕ → Buffer
  pub write_buffer : Buffer
  pub storage : ℕ → ℕ

abbrev pub is_zone_resource_avail : ZnsFtl → ℕ → Bool
is_zone_resource_avail f type = ltb (f.res_infos type).acquired_cnt (f.res_infos type).total_cnt

abbrev pub is_zone_resource_full : ZnsFtl → ℕ → Bool
is_zone_resource_full f type = (f.res_infos type).acquired_cnt == (f.res_infos type).total_cnt

abbrev pub set_acquired : ZnsFtl → ℕ → ℕ → ZnsFtl
set_acquired f type n = record f {
  res_infos = update f.res_infos type (record (f.res_infos type) { acquired_cnt = n });
}

-- whether the resource is acquired, and the FTL
abbrev pub acquire_zone_resource : ZnsFtl → ℕ → Bool × ZnsFtl
acquire_zone_resource f type =
    if is_zone_resource_avail f type
    then (true, set_acquired f type (add32 (f.res_infos type).acquired_cnt 1))
    else (false, f)

-- The assertion in front of the decrement, `ASSERT`, is empty.
abbrev pub release_zone_resource : ZnsFtl → ℕ → ZnsFtl
release_zone_resource f type = set_acquired f type (sub32 (f.res_infos type).acquired_cnt 1)

-- `zone_descs[zid] = d`
abbrev pub set_desc : ZnsFtl → ℕ → ZoneDescriptor → ZnsFtl
set_desc f zid d = record f { zone_descs = update f.zone_descs zid d }

abbrev pub change_zone_state : ZnsFtl → ℕ → ZoneState → ZnsFtl
change_zone_state f zid s = set_desc f zid (record (f.zone_descs zid) { state = s })

abbrev pub lpn_to_zone : ZnsFtl → ℕ → ℕ
lpn_to_zone f lpn = w32 (lpn / (f.zp.zone_size / f.ssd.sp.pgsz))

-- the product is one of two `uint32_t`
abbrev pub zone_to_slpn : ZnsFtl → ℕ → ℕ
zone_to_slpn f zid = mul32 zid (f.zp.zone_size / f.ssd.sp.pgsz)

abbrev pub lba_to_zone : ZnsFtl → ℕ → ℕ
lba_to_zone f lba = w32 (lba / (f.zp.zone_size / f.ssd.sp.secsz))

abbrev pub zone_to_slba : ZnsFtl → ℕ → ℕ
zone_to_slba f zid = mul32 zid (f.zp.zone_size / f.ssd.sp.secsz)

abbrev pub zone_to_elba : ZnsFtl → ℕ → ℕ
zone_to_elba f zid = sub64 (zone_to_slba f (add32 zid 1)) 1

abbrev pub zone_to_elpn : ZnsFtl → ℕ → ℕ
zone_to_elpn f zid = zone_to_elba f zid / f.ssd.sp.secs_per_pg

abbrev pub die_to_channel : ZnsFtl → ℕ → ℕ
die_to_channel f die = die % f.ssd.sp.nchs

abbrev pub die_to_lun : ZnsFtl → ℕ → ℕ
die_to_lun f die = die / f.ssd.sp.nchs

abbrev pub lba_to_lpn : ZnsFtl → ℕ → ℕ
lba_to_lpn f lba = lba / f.ssd.sp.secs_per_pg
