-- ===== src/Zns/Manage/Surrender.antt =====
-- A zone that is finished or reset gives its resources back.
use wild_cat.Common.{ℕ, ◌<◌, ◌≡◌, ◌≢◌, refl, Bool, true, false, some, if◌then◌else◌, arith, sub32}
use wild_cat.Zns.State.{
  ZoneState, state_empty, state_opened_impl, state_opened_expl, state_closed, state_read_only,
  state_full, state_offline, success, ZoneDescriptor, ZnsFtl, ZoneResourceInfo, active_zone,
  open_zone, zrwa_zone, release_zone_resource, change_zone_state,
}
use wild_cat.Zns.Account.{is_open, is_active, holds_zrwa, IsZone, IsAccounted, zone_blocks}
use wild_cat.Zns.Account.Moved.{Transfer, released_counter}
use wild_cat.Zns.Manage.{
  send_finish_zone, send_reset_zone, reset_zone, zsa_finish, zsa_reset, with_status,
}
use wild_cat.Zns.Machine.Steps.{
  update_twice, restated, stepped_by, keeps_active, keeps_open, keeps_zrwa,
}
use wild_cat.Zns.Machine.{manage, finish, finish_empty, reset, Outcome, refused, kept}

-- the zone after a reset
unfoldable pub emptied : ZoneDescriptor → ZoneDescriptor
emptied d = record d { state = state_empty; wp = d.zslba; zrwav = false }

-- what the change of zone `z` to `d` does to the three counters
pub record Transfers (f : ZnsFtl) (z : ℕ) (d : ZoneDescriptor) (res : ℕ → ZoneResourceInfo)
    : Type 0 where
  pub actives :
      Transfer
        (f.res_infos active_zone)
        (res active_zone)
        (is_active (f.zone_descs z))
        (is_active d)
  pub opens :
      Transfer (f.res_infos open_zone) (res open_zone) (is_open (f.zone_descs z)) (is_open d)
  pub zrwas :
      Transfer (f.res_infos zrwa_zone) (res zrwa_zone) (holds_zrwa (f.zone_descs z)) (holds_zrwa d)

-- the FTL that gives back an open resource, an active one and a write area, of which it holds the
-- first and the last as told
unfoldable pub given : Bool → Bool → ZnsFtl → ZnsFtl
given held b f =
    let g =
      release_zone_resource (if held then release_zone_resource f open_zone else f) active_zone in
    if b then release_zone_resource g zrwa_zone else g

pub given-res_infos :
    (held b : Bool) (f : ZnsFtl)
    → given held b f ≡ record f { res_infos = (given held b f).res_infos }
unfolding given
given-res_infos true true f = refl
given-res_infos true false f = refl
given-res_infos false true f = refl
given-res_infos false false f = refl

module _ (f : ZnsFtl) (z : ℕ) (acc : IsAccounted f) (lt : z < f.zp.nr_zones) (d : ZoneDescriptor)
    (idle : is_active d ≡ false) (shut : is_open d ≡ false) where
  active_given :
      is_active (f.zone_descs z) ≡ true
      → Transfer
          (f.res_infos active_zone)
          (record (f.res_infos active_zone) {
            acquired_cnt = sub32 (f.res_infos active_zone).acquired_cnt 1;
          })
          (is_active (f.zone_descs z))
          (is_active d)
  active_given a = released_counter is_active _ _ z d lt acc.active_counter a idle

  open_given :
      is_open (f.zone_descs z) ≡ true
      → Transfer
          (f.res_infos open_zone)
          (record (f.res_infos open_zone) {
            acquired_cnt = sub32 (f.res_infos open_zone).acquired_cnt 1;
          })
          (is_open (f.zone_descs z))
          (is_open d)
  open_given o = released_counter is_open _ _ z d lt acc.open_counter o shut

  zrwa_given :
      holds_zrwa (f.zone_descs z) ≡ true
      → Transfer
          (f.res_infos zrwa_zone)
          (record (f.res_infos zrwa_zone) {
            acquired_cnt = sub32 (f.res_infos zrwa_zone).acquired_cnt 1;
          })
          (holds_zrwa (f.zone_descs z))
          (holds_zrwa d)
  zrwa_given w = released_counter holds_zrwa _ _ z d lt acc.zrwa_counter w (rw idle refl)

  pub all_given :
      (held b : Bool)
      → is_active (f.zone_descs z) ≡ true
      → is_open (f.zone_descs z) ≡ held
      → holds_zrwa (f.zone_descs z) ≡ b
      → Transfers f z d (given held b f).res_infos
  unfolding given
  all_given true true a o w = record {
    actives = active_given a;
    opens = open_given o;
    zrwas = zrwa_given w;
  }
  all_given true false a o w = record {
    actives = active_given a;
    opens = open_given o;
    zrwas = keeps_zrwa f z acc lt d (rw (w, idle) refl);
  }
  all_given false true a o w = record {
    actives = active_given a;
    opens = keeps_open f z acc lt d (rw (o, shut) refl);
    zrwas = zrwa_given w;
  }
  all_given false false a o w = record {
    actives = active_given a;
    opens = keeps_open f z acc lt d (rw (o, shut) refl);
    zrwas = keeps_zrwa f z acc lt d (rw (w, idle) refl);
  }

module _ (f : ZnsFtl) (z : ℕ) (acc : IsAccounted f) (lt : z < f.zp.nr_zones) where
  finished :
      (held : Bool)
      → is_active (f.zone_descs z) ≡ true
      → is_open (f.zone_descs z) ≡ held
      → Outcome f z
          (manage zsa_finish)
          (some success, change_zone_state (given held (f.zone_descs z).zrwav f) z state_full)
  finished held a o =
      let zone = acc.zones z lt in
      let room = zone.upper in
      let d : ZoneDescriptor = record (f.zone_descs z) { state = state_full } in
      let t = all_given f z acc lt d refl refl held (f.zone_descs z).zrwav a o (rw a refl) in
      rw (given-res_infos held (f.zone_descs z).zrwav f) (
        stepped_by f z acc lt d _ _ _ _ (finish a) (λ j. refl)
          (restated _ z _ state_full _ zone (λ x. ground (arith, x)) (ground (arith, room)))
          t.actives t.opens t.zrwas)

  pub finish_at :
      (s : ZoneState)
      → (f.zone_descs z).state ≡ s
      → Outcome f z (manage zsa_finish) (with_status (send_finish_zone f z))
  unfolding send_finish_zone given
  finish_at state_opened_impl e = rw (e, send_finish_zone) (finished true (rw e refl) (rw e refl))
  finish_at state_opened_expl e = rw (e, send_finish_zone) (finished true (rw e refl) (rw e refl))
  finish_at state_closed e = rw (e, send_finish_zone) (finished false (rw e refl) (rw e refl))
  finish_at state_full e = rw (e, send_finish_zone) (kept (rw e refl))
  finish_at state_empty e =
      let zone = acc.zones z lt in
      let room = zone.upper in
      let d : ZoneDescriptor = record (f.zone_descs z) { state = state_full } in
      rw (e, send_finish_zone)
        (stepped_by f z acc lt d _ _ _ _ (finish_empty e) (λ j. refl)
          (restated _ z _ state_full _ zone (λ x. ground (arith, x)) (ground (arith, room)))
          (keeps_active f z acc lt d (rw e refl)) (keeps_open f z acc lt d (rw e refl))
          (keeps_zrwa f z acc lt d (rw e refl)))
  finish_at _ e = rw (e, send_finish_zone) (refused _ (λ x. ground (arith, x)))

  emptied-IsZone : IsZone (zone_blocks f) z (emptied (f.zone_descs z))
  unfolding emptied
  emptied-IsZone =
      let zone = acc.zones z lt in
      let start = zone.start in
      record {
        start = zone.start;
        capacity = zone.capacity;
        lower = omega arith;
        upper = omega arith;
        plain = λ _. refl;
        fresh = λ _. refl;
      }

  resets :
      (held : Bool)
      → is_active (f.zone_descs z) ≡ true
      → is_open (f.zone_descs z) ≡ held
      → Outcome f z (manage zsa_reset) (
        some success,
        reset_zone (change_zone_state (given held (f.zone_descs z).zrwav f) z state_empty) z,
      )
  unfolding emptied reset_zone
  resets held a o =
      let t =
        all_given f z acc lt (emptied (f.zone_descs z)) refl refl held (f.zone_descs z).zrwav a o
          (rw a refl) in
      rw (given-res_infos held (f.zone_descs z).zrwav f) (
        stepped_by f z acc lt (emptied (f.zone_descs z)) _ _ _ _
          (reset (λ x. ground (arith, x, a)) (λ x. ground (arith, x, a)))
          (update_twice f.zone_descs z (record (f.zone_descs z) { state = state_empty })
            (λ x. record x { wp = x.zslba; zrwav = false }))
          emptied-IsZone t.actives t.opens t.zrwas)

  resets_idle :
      is_active (f.zone_descs z) ≡ false
      → (f.zone_descs z).state ≢ state_read_only
      → (f.zone_descs z).state ≢ state_offline
      → is_open (f.zone_descs z) ≡ false
      → Outcome f z
          (manage zsa_reset)
          (some success, reset_zone (change_zone_state f z state_empty) z)
  unfolding emptied reset_zone
  resets_idle a r off o =
      stepped_by f z acc lt (emptied (f.zone_descs z)) _ _ _ _ (reset r off)
        (update_twice f.zone_descs z (record (f.zone_descs z) { state = state_empty })
          (λ x. record x { wp = x.zslba; zrwav = false }))
        emptied-IsZone (keeps_active f z acc lt (emptied (f.zone_descs z)) a)
        (keeps_open f z acc lt (emptied (f.zone_descs z)) o)
        (keeps_zrwa f z acc lt (emptied (f.zone_descs z)) (rw a refl))

  pub reset_at :
      (s : ZoneState)
      → (f.zone_descs z).state ≡ s
      → Outcome f z (manage zsa_reset) (with_status (send_reset_zone f z))
  unfolding send_reset_zone given
  reset_at state_opened_impl e = rw (e, send_reset_zone) (resets true (rw e refl) (rw e refl))
  reset_at state_opened_expl e = rw (e, send_reset_zone) (resets true (rw e refl) (rw e refl))
  reset_at state_closed e = rw (e, send_reset_zone) (resets false (rw e refl) (rw e refl))
  reset_at state_full e =
      rw (e, send_reset_zone)
        (resets_idle (rw e refl) (λ x. ground (arith, x, e)) (λ x. ground (arith, x, e))
          (rw e refl))
  reset_at state_empty e =
      rw (e, send_reset_zone)
        (resets_idle (rw e refl) (λ x. ground (arith, x, e)) (λ x. ground (arith, x, e))
          (rw e refl))
  reset_at _ e = rw (e, send_reset_zone) (refused _ (λ x. ground (arith, x)))
