-- ===== src/Zns/Machine.antt =====
-- The abstract zone state machine of the zoned namespaces, on the zones alone: how many of them are
-- open, active or hold a write area is counted, where the FTL keeps counters.
pub mod Steps
use wild_cat.Common.{ℕ, ◌+◌, ◌<◌, ◌≡◌, ◌≢◌, Bool, true, false, Option, some, update}
use wild_cat.Zns.State.{
  ZoneState, ZnsStatus, success, ZnsFtl, active_zone, open_zone, zrwa_zone, state_empty,
  state_opened_impl, state_opened_expl, state_closed, state_read_only, state_full, state_offline,
  ZoneDescriptor,
}
use wild_cat.Zns.Manage.{
  SendAction, zsa_close, zsa_finish, zsa_open, zsa_reset, zsa_offline, zsa_flush_expl_zrwa,
}
use wild_cat.Zns.Account.{is_open, is_active, holds_zrwa, zones_with, IsAccounted}

-- what may change a zone: a management action, or a write of so many blocks
pub data Event : Type 0 where
  manage : SendAction → Event
  write : ℕ → Event

-- how many zones may be active, be open and have a write area at a time
pub record Limits : Type 0 where
  pub max_active : ℕ
  pub max_open : ℕ
  pub max_zrwa : ℕ

abbrev pub limits_of : ZnsFtl → Limits
limits_of f = record {
  max_active = (f.res_infos active_zone).total_cnt;
  max_open = (f.res_infos open_zone).total_cnt;
  max_zrwa = (f.res_infos zrwa_zone).total_cnt;
}

-- the block after the last one of a zone
abbrev pub zone_end : ZoneDescriptor → ℕ
zone_end d = d.zslba + d.zone_capacity

-- How a write opens zone `z` of the zones `0 .. n - 1`, where it is not open.
pub data Opened (n : ℕ) (l : Limits) (zs : ℕ → ZoneDescriptor) (z : ℕ)
    : ZoneDescriptor → Type 0 where
  already : is_open (zs z) ≡ true → Opened n l zs z (zs z)
  first :
      (zs z).state ≡ state_empty
      → zones_with is_active zs n < l.max_active
      → zones_with is_open zs n < l.max_open
      → Opened n l zs z (record (zs z) { state = state_opened_impl })
  again :
      (zs z).state ≡ state_closed
      → zones_with is_open zs n < l.max_open
      → Opened n l zs z (record (zs z) { state = state_opened_impl })

-- What the events make of zone `z`; every other zone stays as it is.
pub data Step (n : ℕ) (l : Limits) (zs : ℕ → ZoneDescriptor) (z : ℕ)
    : Event → ZoneDescriptor → Type 0 where
  close :
      is_open (zs z) ≡ true
      → Step n l zs z (manage zsa_close) (record (zs z) { state = state_closed })
  finish :
      is_active (zs z) ≡ true
      → Step n l zs z (manage zsa_finish) (record (zs z) { state = state_full })
  finish_empty :
      (zs z).state ≡ state_empty
      → Step n l zs z (manage zsa_finish) (record (zs z) { state = state_full })
  open_plain :
      (zs z).state ≡ state_empty
      → zones_with is_active zs n < l.max_active
      → zones_with is_open zs n < l.max_open
      → Step n l zs z (manage zsa_open) (record (zs z) { state = state_opened_expl })
  open_zrwa :
      (zs z).state ≡ state_empty
      → zones_with is_active zs n < l.max_active
      → zones_with is_open zs n < l.max_open
      → zones_with holds_zrwa zs n < l.max_zrwa
      → Step n l zs z (manage zsa_open) (record (zs z) { state = state_opened_expl; zrwav = true })
  reopen :
      (zs z).state ≡ state_closed
      → zones_with is_open zs n < l.max_open
      → Step n l zs z (manage zsa_open) (record (zs z) { state = state_opened_expl })
  promote :
      (zs z).state ≡ state_opened_impl
      → Step n l zs z (manage zsa_open) (record (zs z) { state = state_opened_expl })
  reset :
      (zs z).state ≢ state_read_only
      → (zs z).state ≢ state_offline
      → Step n l zs z
          (manage zsa_reset)
          (record (zs z) { state = state_empty; wp = (zs z).zslba; zrwav = false })
  take_offline :
      (zs z).state ≡ state_read_only
      → Step n l zs z (manage zsa_offline) (record (zs z) { state = state_offline })
  commit :
      (wp' : ℕ)
      → holds_zrwa (zs z) ≡ true
      → (zs z).wp < wp'
      → wp' < zone_end (zs z)
      → Step n l zs z (manage zsa_flush_expl_zrwa) (record (zs z) { wp = wp' })
  commit_last :
      holds_zrwa (zs z) ≡ true
      → Step n l zs z
          (manage zsa_flush_expl_zrwa)
          (record (zs z) { wp = zone_end (zs z); state = state_full })
  write_part :
      {d : ZoneDescriptor} (k : ℕ)
      → Opened n l zs z d
      → d.wp + k < zone_end d
      → Step n l zs z (write k) (record d { wp = d.wp + k })
  write_last :
      {d : ZoneDescriptor} (k : ℕ)
      → Opened n l zs z d
      → d.wp + k ≡ zone_end d
      → Step n l zs z (write k) (record d { wp = zone_end d; state = state_full })

-- the events that ask for the state a zone is already in
abbrev pub is_settled : Event → ZoneState → Bool
is_settled (manage zsa_close) state_closed = true
is_settled (manage zsa_finish) state_full = true
is_settled (manage zsa_open) state_opened_expl = true
is_settled (manage zsa_offline) state_offline = true
is_settled _ _ = false

-- The geometry, the parameters and the limits stay as they are.
pub record IsSameDevice (f f' : ZnsFtl) : Type 0 where
  pub same_zp : f'.zp ≡ f.zp
  pub same_ssd : f'.ssd ≡ f.ssd
  pub same_limits : limits_of f' ≡ limits_of f

-- Zone `z` becomes `d`, no other zone changes, and the accounts are kept.
pub record Becomes (f : ZnsFtl) (z : ℕ) (d : ZoneDescriptor) (f' : ZnsFtl) : Type 0 where
  pub changed : (j : ℕ) → f'.zone_descs j ≡ update f.zone_descs z d j
  pub device : IsSameDevice f f'
  pub accounts : IsAccounted f'

-- What an operation for event `e` at zone `z` answers and leaves: it refuses and changes nothing,
-- it has nothing to do, or it is a step of the machine that keeps the accounts.
pub data Outcome (f : ZnsFtl) (z : ℕ) (e : Event) : Option ZnsStatus × ZnsFtl → Type 0 where
  refused : (s : Option ZnsStatus) → s ≢ some success → Outcome f z e (s, f)
  kept : is_settled e (f.zone_descs z).state ≡ true → Outcome f z e (some success, f)
  stepped :
      (f' : ZnsFtl) (d : ZoneDescriptor)
      → Step f.zp.nr_zones (limits_of f) f.zone_descs z e d
      → Becomes f z d f'
      → Outcome f z e (some success, f')
