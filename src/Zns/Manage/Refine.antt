-- ===== src/Zns/Manage/Refine.antt =====
-- The management actions on one zone are steps of the zone state machine.
use wild_cat.Common.{
  ℕ, ◌<◌, ◌≡◌, refl, Bool, true, false, some, ltb, if◌then◌else◌, arith, inl, inr, Bool-cases,
}
use wild_cat.Zns.State.{
  ZoneState, state_empty, state_opened_impl, state_opened_expl, state_closed, state_read_only,
  state_offline, success, zrwa_rsrc_unavail, ZoneDescriptor, ZnsFtl, active_zone, open_zone,
  zrwa_zone, release_zone_resource, change_zone_state, is_zone_resource_avail,
  is_zone_resource_full,
}
use wild_cat.Zns.Account.{is_open, is_active, holds_zrwa, IsAccounted}
use wild_cat.Zns.Account.Moved.{released_counter, acquired_counter}
use wild_cat.Zns.Manage.{
  send_close_zone, send_open_zone, send_offline_zone, zsa_close, zsa_open, zsa_offline, with_status,
  open_closed, take_active, take_zrwa, open_empty,
}
use wild_cat.Zns.Machine.Steps.{
  update_twice, restated, stepped_by, keeps_active, keeps_open, keeps_zrwa, take_active_lem,
  take_zrwa_lem, below, empty_room,
}
use wild_cat.Zns.Machine.{
  manage, close, promote, reopen, open_plain, open_zrwa, take_offline, Outcome, refused, kept,
}

module _ (f : ZnsFtl) (z : ℕ) (acc : IsAccounted f) (lt : z < f.zp.nr_zones) where
  close_opened :
      is_open (f.zone_descs z) ≡ true
      → is_active (f.zone_descs z) ≡ true
      → Outcome f z
          (manage zsa_close)
          (some success, release_zone_resource (change_zone_state f z state_closed) open_zone)
  close_opened o a =
      let zone = acc.zones z lt in
      let room = zone.upper in
      let d : ZoneDescriptor = record (f.zone_descs z) { state = state_closed } in
      stepped_by f z acc lt d _ _ _ _ (close o) (λ j. refl)
        (restated _ z _ state_closed _ zone (λ e. ground (arith, e)) (ground (arith, a)))
        (keeps_active f z acc lt d a) (released_counter is_open _ _ z d lt acc.open_counter o refl)
        (keeps_zrwa f z acc lt d (rw a refl))

  pub close_at :
      (s : ZoneState)
      → (f.zone_descs z).state ≡ s
      → Outcome f z (manage zsa_close) (with_status (send_close_zone f z))
  unfolding send_close_zone
  close_at state_opened_impl e = rw (e, send_close_zone) (close_opened (rw e refl) (rw e refl))
  close_at state_opened_expl e = rw (e, send_close_zone) (close_opened (rw e refl) (rw e refl))
  close_at state_closed e = rw (e, send_close_zone) (kept (rw e refl))
  close_at _ e = rw (e, send_close_zone) (refused _ (λ x. ground (arith, x)))

  promoted :
      (f.zone_descs z).state ≡ state_opened_impl
      → Outcome f z (manage zsa_open) (some success, change_zone_state f z state_opened_expl)
  promoted e =
      let zone = acc.zones z lt in
      let room = zone.upper in
      let d : ZoneDescriptor = record (f.zone_descs z) { state = state_opened_expl } in
      stepped_by f z acc lt d _ _ _ _ (promote e) (λ j. refl)
        (restated _ z _ state_opened_expl _ zone (λ x. ground (arith, x)) (ground (arith, e)))
        (keeps_active f z acc lt d (rw e refl)) (keeps_open f z acc lt d (rw e refl))
        (keeps_zrwa f z acc lt d (rw e refl))

  reopened :
      (f.zone_descs z).state ≡ state_closed
      → Outcome f z (manage zsa_open) (with_status (open_closed f z))
  reopened e =
      elim (Bool-cases
        (ltb (f.res_infos open_zone).acquired_cnt (f.res_infos open_zone).total_cnt)) [
          | inr full ↦ rw full (refused _ (λ x. ground (arith, x)))
          | inl avail ↦
              let zone = acc.zones z lt in
              let room = zone.upper in
              let exact = acc.open_counter.exact in
              let d : ZoneDescriptor = record (f.zone_descs z) { state = state_opened_expl } in
              rw avail (
                stepped_by f z acc lt d _ _ _ _ (reopen e (ground (arith, avail, exact)))
                  (λ j. refl)
                  (restated _ z _ state_opened_expl _ zone (λ x. ground (arith, x))
                    (ground (arith, e)))
                  (keeps_active f z acc lt d (rw e refl))
                  (acquired_counter is_open _ _ z d lt acc.open_counter (rw e refl) refl
                    (ground (arith, avail)))
                  (keeps_zrwa f z acc lt d (rw e refl)))
        ]

  pub offline_at :
      (s : ZoneState)
      → (f.zone_descs z).state ≡ s
      → Outcome f z (manage zsa_offline) (with_status (send_offline_zone f z))
  unfolding send_offline_zone
  offline_at state_read_only e =
      let zone = acc.zones z lt in
      let room = zone.upper in
      let d : ZoneDescriptor = record (f.zone_descs z) { state = state_offline } in
      rw (e, send_offline_zone)
        (stepped_by f z acc lt d _ _ _ _ (take_offline e) (λ j. refl)
          (restated _ z _ state_offline _ zone (λ x. ground (arith, x)) (ground (arith, e)))
          (keeps_active f z acc lt d (rw e refl)) (keeps_open f z acc lt d (rw e refl))
          (keeps_zrwa f z acc lt d (rw e refl)))
  offline_at state_offline e = rw (e, send_offline_zone) (kept (rw e refl))
  offline_at _ e = rw (e, send_offline_zone) (refused _ (λ x. ground (arith, x)))

  opened_plain :
      (f.zone_descs z).state ≡ state_empty
      → ltb (f.res_infos active_zone).acquired_cnt (f.res_infos active_zone).total_cnt ≡ true
      → ltb (f.res_infos open_zone).acquired_cnt (f.res_infos open_zone).total_cnt ≡ true
      → Outcome f z (manage zsa_open) (with_status (open_closed (take_active f) z))
  opened_plain e a o =
      let zone = acc.zones z lt in
      let active = acc.active_counter.exact in
      let opens = acc.open_counter.exact in
      let d : ZoneDescriptor = record (f.zone_descs z) { state = state_opened_expl } in
      rw (take_active_lem f a, o)
        (stepped_by f z acc lt d _ _ _ _
          (open_plain e (ground (arith, a, active)) (ground (arith, o, opens))) (λ j. refl)
          (restated _ z _ state_opened_expl _ zone (λ x. ground (arith, x))
            (empty_room f z acc lt e))
          (acquired_counter is_active _ _ z d lt acc.active_counter (rw e refl) refl
            (ground (arith, a)))
          (acquired_counter is_open _ _ z d lt acc.open_counter (rw e refl) refl
            (ground (arith, o)))
          (keeps_zrwa f z acc lt d (rw (e, zone.plain e) refl)))

  opened_zrwa :
      (f.zone_descs z).state ≡ state_empty
      → ltb (f.res_infos active_zone).acquired_cnt (f.res_infos active_zone).total_cnt ≡ true
      → ltb (f.res_infos open_zone).acquired_cnt (f.res_infos open_zone).total_cnt ≡ true
      → ltb (f.res_infos zrwa_zone).acquired_cnt (f.res_infos zrwa_zone).total_cnt ≡ true
      → Outcome f z (manage zsa_open) (with_status (open_closed (take_active (take_zrwa f z)) z))
  opened_zrwa e a o w =
      let zone = acc.zones z lt in
      let active = acc.active_counter.exact in
      let opens = acc.open_counter.exact in
      let zrwa = acc.zrwa_counter.exact in
      let d : ZoneDescriptor = record (f.zone_descs z) {
        state = state_opened_expl;
        zrwav = true;
      } in
      rw (take_zrwa_lem f z w, take_active_lem _ a, o)
        (stepped_by f z acc lt d _ _ _ _
          (open_zrwa e (ground (arith, a, active)) (ground (arith, o, opens))
            (ground (arith, w, zrwa)))
          (λ j.
            update_twice f.zone_descs z (record (f.zone_descs z) { zrwav = true })
              (λ x. record x { state = state_opened_expl }) j)
          (restated _ z _ state_opened_expl true zone (λ x. ground (arith, x))
            (empty_room f z acc lt e))
          (acquired_counter is_active _ _ z d lt acc.active_counter (rw e refl) refl
            (ground (arith, a)))
          (acquired_counter is_open _ _ z d lt acc.open_counter (rw e refl) refl
            (ground (arith, o)))
          (acquired_counter holds_zrwa _ _ z d lt acc.zrwa_counter (rw e refl) refl
            (ground (arith, w))))

  open_spare :
      (b : Bool)
      → (f.zone_descs z).state ≡ state_empty
      → is_zone_resource_avail f active_zone ≡ true
      → is_zone_resource_avail f open_zone ≡ true
      → Outcome f z (manage zsa_open) (
          with_status (
            if b
            then (if is_zone_resource_full f zrwa_zone
                then (zrwa_rsrc_unavail, f)
                else open_closed (take_active (take_zrwa f z)) z)
            else open_closed (take_active f) z))
  open_spare false e a o = opened_plain e a o
  open_spare true e a o = elim (Bool-cases (is_zone_resource_full f zrwa_zone)) [
    | inl full ↦ rw full (refused _ (λ x. ground (arith, x)))
    | inr spare ↦ rw spare (opened_zrwa e a o (below acc.zrwa_counter spare))
  ]

  open_empty-Outcome :
      (b : Bool)
      → (f.zone_descs z).state ≡ state_empty
      → Outcome f z (manage zsa_open) (with_status (open_empty f z b))
  unfolding open_empty
  open_empty-Outcome b e = elim (Bool-cases (is_zone_resource_full f active_zone)) [
    | inl full ↦ rw (open_empty, full) (refused _ (λ x. ground (arith, x)))
    | inr spare_active ↦ elim (Bool-cases (is_zone_resource_full f open_zone)) [
      | inl full ↦ rw (open_empty, spare_active, full) (refused _ (λ x. ground (arith, x)))
      | inr spare_open ↦
          rw (open_empty, spare_active, spare_open)
            (open_spare b e (below acc.active_counter spare_active)
              (below acc.open_counter spare_open))
    ]
  ]

  pub open_at :
      (b : Bool) (s : ZoneState)
      → (f.zone_descs z).state ≡ s
      → Outcome f z (manage zsa_open) (with_status (send_open_zone f z b))
  unfolding send_open_zone
  open_at b state_empty e = rw (e, send_open_zone) (open_empty-Outcome b e)
  open_at b state_closed e = rw (e, send_open_zone) (reopened e)
  open_at b state_opened_impl e = rw (e, send_open_zone) (promoted e)
  open_at b state_opened_expl e = rw (e, send_open_zone) (kept (rw e refl))
  open_at b _ e = rw (e, send_open_zone) (refused _ (λ x. ground (arith, x)))
