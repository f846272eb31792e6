-- ===== src/Zns/Manage.antt =====
-- zns_mgmt_send.c: the zone management actions. An operation returns its status and the FTL.
pub mod Actions
pub mod Refine
pub mod ResetAll
pub mod Commit
pub mod Surrender
use wild_cat.Common.{
  check, ltb, ◌>>=◌, ℕ, zero, suc, ◌+◌, ◌*◌, ◌/◌, ◌%◌, min, Bool, true, false, not, ◌&&◌, Option,
  none, some, ◌==◌, ltb, leb, if◌then◌else◌, update, add64, sub64, mul64,
}
use wild_cat.Ssd.Buffer.{buffer_refill}
use wild_cat.Zns.State.{
  ZoneState, state_empty, state_opened_impl, state_opened_expl, state_closed, state_read_only,
  state_full, state_offline, ZnsStatus, success, invalid_field, invalid_zone_operation,
  zrwa_rsrc_unavail, no_active_zone, no_open_zone, invalid_transition, ZoneDescriptor, ZnsFtl,
  active_zone, open_zone, zrwa_zone, is_zone_resource_full, acquire_zone_resource,
  release_zone_resource, set_desc, change_zone_state, lba_to_zone, zone_to_slba,
}

-- `zsa`; the other codes, `ZSA_SET_ZONE_DESC_EXT` among them, have no case
pub data SendAction : Type 0 where
  zsa_close zsa_finish zsa_open zsa_reset zsa_offline zsa_flush_expl_zrwa zsa_other : SendAction

abbrev pub zone_state : ZnsFtl → ℕ → ZoneState
zone_state f zid = (f.zone_descs zid).state

unfoldable pub send_close_zone : ZnsFtl → ℕ → ZnsStatus × ZnsFtl
send_close_zone f zid =
    let closed = release_zone_resource (change_zone_state f zid state_closed) open_zone in
    elim (zone_state f zid) [
      | state_opened_impl ↦ (success, closed)
      | state_opened_expl ↦ (success, closed)
      | state_closed ↦ (success, f)
      | _ ↦ (invalid_transition, f)
    ]

-- `if (is_zrwa_zone) release_zone_resource(ZRWA_ZONE)`
abbrev pub release_zrwa : ZnsFtl → ℕ → ZnsFtl
release_zrwa f zid = if (f.zone_descs zid).zrwav then release_zone_resource f zrwa_zone else f

-- what a zone that is active gives back when it is finished or reset
abbrev pub release_active : ZnsFtl → ℕ → ZnsFtl
release_active f zid = release_zrwa (release_zone_resource f active_zone) zid

unfoldable pub send_finish_zone : ZnsFtl → ℕ → ZnsStatus × ZnsFtl
send_finish_zone f zid =
    let from_open = release_active (release_zone_resource f open_zone) zid in
    elim (zone_state f zid) [
      | state_opened_impl ↦ (success, change_zone_state from_open zid state_full)
      | state_opened_expl ↦ (success, change_zone_state from_open zid state_full)
      | state_closed ↦ (success, change_zone_state (release_active f zid) zid state_full)
      | state_empty ↦ (success, change_zone_state f zid state_full)
      | state_full ↦ (success, f)
      | _ ↦ (invalid_transition, f)
    ]

-- the cases from `ZONE_STATE_CLOSED` on
abbrev pub open_closed : ZnsFtl → ℕ → ZnsStatus × ZnsFtl
open_closed f zid =
    let (acquired, f') = acquire_zone_resource f open_zone in
    if acquired then (success, change_zone_state f' zid state_opened_expl) else (no_open_zone, f')

-- `acquire_zone_resource(ZRWA_ZONE); zrwav = 1`
unfoldable pub take_zrwa : ZnsFtl → ℕ → ZnsFtl
take_zrwa f zid =
    let (_, f') = acquire_zone_resource f zrwa_zone in
    set_desc f' zid (record (f'.zone_descs zid) { zrwav = true })

unfoldable pub take_active : ZnsFtl → ZnsFtl
take_active f = let (_, f') = acquire_zone_resource f active_zone in f'

unfoldable pub open_empty : ZnsFtl → ℕ → Bool → ZnsStatus × ZnsFtl
unfolding take_zrwa take_active
open_empty f zid zrwa =
    if is_zone_resource_full f active_zone
    then (no_active_zone, f)
    else (if is_zone_resource_full f open_zone
        then (no_open_zone, f)
        else (if zrwa
            then (if is_zone_resource_full f zrwa_zone
                then (zrwa_rsrc_unavail, f)
                else open_closed (take_active (take_zrwa f zid)) zid)
            else open_closed (take_active f) zid))

unfoldable pub send_open_zone : ZnsFtl → ℕ → Bool → ZnsStatus × ZnsFtl
unfolding open_empty
send_open_zone f zid zrwa = elim (zone_state f zid) [
  | state_empty ↦ open_empty f zid zrwa
  | state_closed ↦ open_closed f zid
  | state_opened_impl ↦ (success, change_zone_state f zid state_opened_expl)
  | state_opened_expl ↦ (success, f)
  | _ ↦ (invalid_transition, f)
]

-- the bytes of the namespace with those of zone `zid` set to zero
abbrev pub clear_zone : ZnsFtl → ℕ → ℕ → ℕ
clear_zone f zid a =
    if leb (zid * f.zp.zone_size) a && ltb a (zid * f.zp.zone_size + f.zp.zone_size)
    then 0
    else f.storage a

unfoldable pub reset_zone : ZnsFtl → ℕ → ZnsFtl
unfolding buffer_refill
reset_zone f zid =
    let d = f.zone_descs zid in
    record f {
      storage = clear_zone f zid;
      zone_descs = update f.zone_descs zid (record d { wp = d.zslba; zrwav = false });
      zrwa_buffer =
          if f.zp.zrwa_buffer_size == 0
          then f.zrwa_buffer
          else update f.zrwa_buffer zid (buffer_refill (f.zrwa_buffer zid));
    }

unfoldable pub send_reset_zone : ZnsFtl → ℕ → ZnsStatus × ZnsFtl
unfolding reset_zone
send_reset_zone f zid =
    let from_open = release_active (release_zone_resource f open_zone) zid in
    let emptied = λ (g : ZnsFtl). reset_zone (change_zone_state g zid state_empty) zid in
    elim (zone_state f zid) [
      | state_opened_impl ↦ (success, emptied from_open)
      | state_opened_expl ↦ (success, emptied from_open)
      | state_closed ↦ (success, emptied (release_active f zid))
      | state_full ↦ (success, emptied f)
      | state_empty ↦ (success, emptied f)
      | _ ↦ (invalid_transition, f)
    ]

unfoldable pub send_offline_zone : ZnsFtl → ℕ → ZnsStatus × ZnsFtl
send_offline_zone f zid = elim (zone_state f zid) [
  | state_read_only ↦ (success, change_zone_state f zid state_offline)
  | state_offline ↦ (success, f)
  | _ ↦ (invalid_transition, f)
]

-- the body of the cases in which a zone has a write area; `held` says whether it holds an open
-- resource
abbrev pub commit_zrwa : ZnsFtl → ℕ → ℕ → Bool → ZnsFtl
commit_zrwa f zid slba held =
    let d = f.zone_descs zid in
    let f₁ = set_desc f zid (record d { wp = add64 slba 1 }) in
    if add64 slba 1 == add64 (zone_to_slba f zid) d.zone_capacity
    then (let f₂ = if held then release_zone_resource f₁ open_zone else f₁ in
        let f₃ = release_zone_resource (release_zone_resource f₂ active_zone) zrwa_zone in
        change_zone_state f₃ zid state_full)
    else f₁

-- the last block that an explicit flush may name
abbrev pub zrwa_end : ZnsFtl → ℕ → ℕ
zrwa_end f zid =
    let d = f.zone_descs zid in
    min (sub64 (add64 d.wp f.zp.lbas_per_zrwa) 1)
      (sub64 (add64 (zone_to_slba f zid) d.zone_capacity) 1)

-- the flush of whole granules
abbrev pub flush_granules : ZnsFtl → ℕ → ZnsStatus × ZnsFtl
flush_granules f slba =
    let zid = lba_to_zone f slba in
    let d = f.zone_descs zid in
    if not (add64 (sub64 slba d.wp) 1 % f.zp.lbas_per_zrwafg == 0)
    then (invalid_field, f)
    else elim d.state [
      | state_opened_expl ↦ (success, commit_zrwa f zid slba true)
      | state_opened_impl ↦ (success, commit_zrwa f zid slba true)
      | state_closed ↦ (success, commit_zrwa f zid slba false)
      | _ ↦ (invalid_zone_operation, f)
    ]

-- without a granule, the code divides by zero
unfoldable pub send_flush_explicit_zrwa : ZnsFtl → ℕ → Option (ZnsStatus × ZnsFtl)
send_flush_explicit_zrwa f slba =
    let zid = lba_to_zone f slba in
    let d = f.zone_descs zid in
    if not d.zrwav
    then some (invalid_zone_operation, f)
    else (if not (leb d.wp slba && leb slba (zrwa_end f zid))
        then some (invalid_zone_operation, f)
        else check (ltb 0 f.zp.lbas_per_zrwafg) (some (flush_granules f slba)))

abbrev pub with_status : ZnsStatus × ZnsFtl → Option ZnsStatus × ZnsFtl
with_status (status, f) = (some status, f)

-- `__zmgmt_send`: a code without a case leaves the status unset
unfoldable pub zmgmt_send : ZnsFtl → ℕ → SendAction → Bool → Option (Option ZnsStatus × ZnsFtl)
unfolding send_close_zone send_finish_zone send_open_zone send_reset_zone send_offline_zone
    send_flush_explicit_zrwa
zmgmt_send f slba action option =
    let zid = lba_to_zone f slba in
    elim action [
      | zsa_close ↦ some (with_status (send_close_zone f zid))
      | zsa_finish ↦ some (with_status (send_finish_zone f zid))
      | zsa_open ↦ some (with_status (send_open_zone f zid option))
      | zsa_reset ↦ some (with_status (send_reset_zone f zid))
      | zsa_offline ↦ some (with_status (send_offline_zone f zid))
      | zsa_flush_expl_zrwa ↦ send_flush_explicit_zrwa f slba >>= λ r. some (with_status r)
      | zsa_other ↦ some (none, f)
    ]

-- the action on the zones `0 .. n - 1`; their statuses are dropped
unfoldable pub send_all : ℕ → ZnsFtl → SendAction → Bool → Option ZnsFtl
unfolding zmgmt_send
send_all zero f action option = some f
send_all (suc n) f action option = send_all n f action option >>= λ f'.
    zmgmt_send f' (zone_to_slba f' n) action option >>= λ (_, f''). some f''

-- the fields of `nvme_zone_mgmt_send` that are used, and the start time of the request
pub record SendRequest : Type 0 where
  pub zsa : SendAction
  pub select_all : Bool
  pub zsaso : Bool
  pub slba : ℕ
  pub nsecs_start : ℕ

-- `nvmev_result` with a status that may be unset
pub record SendReply : Type 0 where
  pub status : Option ZnsStatus
  pub nsecs_target : ℕ

unfoldable pub zns_zmgmt_send : ZnsFtl → SendRequest → Option (SendReply × ZnsFtl)
unfolding send_all zmgmt_send
zns_zmgmt_send f req =
    (if req.select_all
      then (send_all f.zp.nr_zones f req.zsa req.zsaso >>= λ f'. some (some success, f'))
      else zmgmt_send f req.slba req.zsa req.zsaso)
    >>= λ (status, f'). some (record { status = status; nsecs_target = req.nsecs_start }, f')
