-- ===== src/Zns/Machine/Steps.antt =====
-- Steps of the zone state machine that keep the accounts, and what they need of the counters.
use mathlib.Core.Path.{fun_ext}
use wild_cat.Common.{
  ℕ, ◌+◌, ◌≤◌, ◌<◌, ◌≡◌, ◌≢◌, refl, ap, ◌∙◌, Bool, true, false, some, ◌==◌, ltb, update, arith, inl,
  inr, Bool-cases, add32,
}
use wild_cat.Ssd.Buffer.{Buffer}
use wild_cat.Zns.State.{
  ZoneState, state_empty, success, ZoneDescriptor, ZnsFtl, ZoneResourceInfo, active_zone, open_zone,
  zrwa_zone, acquire_zone_resource, set_desc, set_acquired, is_zone_resource_avail,
}
use wild_cat.Zns.Account.{
  is_open, is_active, holds_zrwa, unit_of, IsZone, IsCounter, IsAccounted, zone_blocks,
}
use wild_cat.Zns.Account.Moved.{Transfer, Accounts-moved, kept_counter}
use wild_cat.Zns.Manage.{take_active, take_zrwa}
use wild_cat.Zns.Machine.{Event, Step, Outcome, stepped, limits_of, Becomes, IsSameDevice}

pub update_here : (zs : ℕ → ZoneDescriptor) (z : ℕ) (a : ZoneDescriptor) → update zs z a z ≡ a
update_here zs z a = ground arith

update_over :
    (zs : ℕ → ZoneDescriptor) (z : ℕ) (a b : ZoneDescriptor) (j : ℕ)
    → update (update zs z a) z b j ≡ update zs z b j
update_over zs z a b j = elim (Bool-cases (z == j)) [ inl h ↦ rw h refl | inr h ↦ rw h refl ]

-- a zone that is written, read and written again
pub update_twice :
    (zs : ℕ → ZoneDescriptor) (z : ℕ) (a : ZoneDescriptor)
    (change : ZoneDescriptor → ZoneDescriptor) (j : ℕ)
    → update (update zs z a) z (change (update zs z a z)) j ≡ update zs z (change a) j
update_twice zs z a change j =
    ap (λ b. update (update zs z a) z (change b) j) (update_here zs z a)
    ∙ update_over zs z a (change a) j

-- A zone whose state and write area change, but not to empty.
pub restated :
    (size z : ℕ) (d : ZoneDescriptor) (s : ZoneState) (w : Bool)
    → IsZone size z d
    → s ≢ state_empty
    → d.wp + unit_of (is_active (record d { state = s })) ≤ d.zslba + size
    → IsZone size z (record d { state = s; zrwav = w })
restated size z d s w old other room = record {
  start = old.start;
  capacity = old.capacity;
  lower = old.lower;
  upper = room;
  plain = λ e. absurd (other e);
  fresh = λ e. absurd (other e);
}

module _ (f : ZnsFtl) (z : ℕ) (acc : IsAccounted f) (lt : z < f.zp.nr_zones)
    (d : ZoneDescriptor) where
  -- a change of the counters to `res` and of the zones to `descs`
  pub Becomes-by :
      (res : ℕ → ZoneResourceInfo) (descs : ℕ → ZoneDescriptor) (storage : ℕ → ℕ)
      (zrwa_buffer : ℕ → Buffer)
      → ((j : ℕ) → descs j ≡ update f.zone_descs z d j)
      → IsZone (zone_blocks f) z d
      → Transfer
          (f.res_infos active_zone)
          (res active_zone)
          (is_active (f.zone_descs z))
          (is_active d)
      → Transfer (f.res_infos open_zone) (res open_zone) (is_open (f.zone_descs z)) (is_open d)
      → Transfer
          (f.res_infos zrwa_zone)
          (res zrwa_zone)
          (holds_zrwa (f.zone_descs z))
          (holds_zrwa d)
      → Becomes f z d (record f {
        res_infos = res;
        zone_descs = descs;
        storage = storage;
        zrwa_buffer = zrwa_buffer;
      })
  Becomes-by res descs storage zrwa_buffer same zone a o w = record {
    changed = same;
    device = record {
      same_zp = refl;
      same_ssd = refl;
      same_limits = rw (a.total, o.total, w.total) refl;
    };
    accounts = Accounts-moved _ _ z _ _ f.zone_descs _ d lt acc same zone a o w;
  }

  -- such a change as a step
  pub stepped_by :
      {e : Event} (res : ℕ → ZoneResourceInfo) (descs : ℕ → ZoneDescriptor) (storage : ℕ → ℕ)
      (zrwa_buffer : ℕ → Buffer)
      → Step f.zp.nr_zones (limits_of f) f.zone_descs z e d
      → ((j : ℕ) → descs j ≡ update f.zone_descs z d j)
      → IsZone (zone_blocks f) z d
      → Transfer
          (f.res_infos active_zone)
          (res active_zone)
          (is_active (f.zone_descs z))
          (is_active d)
      → Transfer (f.res_infos open_zone) (res open_zone) (is_open (f.zone_descs z)) (is_open d)
      → Transfer
          (f.res_infos zrwa_zone)
          (res zrwa_zone)
          (holds_zrwa (f.zone_descs z))
          (holds_zrwa d)
      → Outcome f z e (
        some success,
        record f {
          res_infos = res;
          zone_descs = descs;
          storage = storage;
          zrwa_buffer = zrwa_buffer;
        },
      )
  stepped_by res descs storage zrwa_buffer step same zone a o w =
      stepped _ d step (Becomes-by res descs storage zrwa_buffer same zone a o w)

  pub keeps_active :
      is_active (f.zone_descs z) ≡ is_active d
      → Transfer
          (f.res_infos active_zone)
          (f.res_infos active_zone)
          (is_active (f.zone_descs z))
          (is_active d)
  keeps_active = kept_counter is_active _ _ z d lt acc.active_counter

  pub keeps_open :
      is_open (f.zone_descs z) ≡ is_open d
      → Transfer
          (f.res_infos open_zone)
          (f.res_infos open_zone)
          (is_open (f.zone_descs z))
          (is_open d)
  keeps_open = kept_counter is_open _ _ z d lt acc.open_counter

  pub keeps_zrwa :
      holds_zrwa (f.zone_descs z) ≡ holds_zrwa d
      → Transfer
          (f.res_infos zrwa_zone)
          (f.res_infos zrwa_zone)
          (holds_zrwa (f.zone_descs z))
          (holds_zrwa d)
  keeps_zrwa = kept_counter holds_zrwa _ _ z d lt acc.zrwa_counter

pub unchanged_device : (f : ZnsFtl) → IsSameDevice f f
unchanged_device f = record { same_zp = refl; same_ssd = refl; same_limits = refl }

pub IsSameDevice-trans : {f g h : ZnsFtl} → IsSameDevice f g → IsSameDevice g h → IsSameDevice f h
IsSameDevice-trans a b = record {
  same_zp = b.same_zp ∙ a.same_zp;
  same_ssd = b.same_ssd ∙ a.same_ssd;
  same_limits = b.same_limits ∙ a.same_limits;
}

pub acquired_lem :
    (f : ZnsFtl) (type : ℕ)
    → is_zone_resource_avail f type ≡ true
    → acquire_zone_resource f type
      ≡ (true, set_acquired f type (add32 (f.res_infos type).acquired_cnt 1))
acquired_lem f type h = rw h refl

pub take_active_lem :
    (f : ZnsFtl)
    → is_zone_resource_avail f active_zone ≡ true
    → take_active f ≡ set_acquired f active_zone (add32 (f.res_infos active_zone).acquired_cnt 1)
unfolding take_active
take_active_lem f h = ap (λ r. r.1) (acquired_lem f active_zone h)

pub take_zrwa_lem :
    (f : ZnsFtl) (z : ℕ)
    → is_zone_resource_avail f zrwa_zone ≡ true
    → take_zrwa f z
      ≡ set_desc
          (set_acquired f zrwa_zone (add32 (f.res_infos zrwa_zone).acquired_cnt 1))
          z
          (record (f.zone_descs z) { zrwav = true })
unfolding take_zrwa
take_zrwa_lem f z h =
    ap (λ r. set_desc r.1 z (record (r.1.zone_descs z) { zrwav = true }))
      (acquired_lem f zrwa_zone h)

-- a counter that is not full is below its limit
pub below :
    {info : ZoneResourceInfo} {held : ℕ}
    → IsCounter info held
    → (info.acquired_cnt == info.total_cnt) ≡ false
    → ltb info.acquired_cnt info.total_cnt ≡ true
below c h = let le = c.within in ground (arith, h)

module _ (f : ZnsFtl) (z : ℕ) (acc : IsAccounted f) (lt : z < f.zp.nr_zones) where
  -- an empty zone lies at its start
  pub empty_room :
      (f.zone_descs z).state ≡ state_empty
      → (f.zone_descs z).wp + 1 ≤ (f.zone_descs z).zslba + zone_blocks f
  empty_room e =
      let zone = acc.zones z lt in
      let start = zone.fresh e in let p = acc.positive in omega (arith, start, p)

-- a zone that is written as it is
pub update_self : (zs : ℕ → ZoneDescriptor) (z j : ℕ) → update zs z (zs z) j ≡ zs j
update_self zs z j = elim (Bool-cases (z == j)) [
  | inl h ↦ let e : z ≡ j = ground (arith, h) in rw h (ap zs e)
  | inr h ↦ rw h refl
]

-- two changes of one zone
pub Becomes-trans :
    {f g h : ZnsFtl} {z : ℕ} {d e : ZoneDescriptor}
    → Becomes f z d g
    → Becomes g z e h
    → Becomes f z e h
Becomes-trans {f} {g} {h} {z} {d} {e} a b = record {
  changed = λ j.
      b.changed j
      ∙ ap (λ zs. update zs z e j) (fun_ext a.changed)
      ∙ update_over f.zone_descs z d e j;
  device = IsSameDevice-trans a.device b.device;
  accounts = b.accounts;
}
