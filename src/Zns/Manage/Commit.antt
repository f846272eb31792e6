-- ===== src/Zns/Manage/Commit.antt =====
-- The explicit flush of a zone's write area.
use wild_cat.Common.{
  Option, ltb, ◌>>=◌, ℕ, ◌+◌, ◌%◌, ◌≤◌, ◌<◌, ◌≡◌, refl, Bool, true, false, ◌&&◌, some, ◌==◌, leb,
  arith, inl, inr, Bool-cases, add64, sub64,
}
use wild_cat.Zns.State.{
  ZoneState, state_opened_impl, state_opened_expl, state_closed, state_full, success,
  invalid_zone_operation, ZnsStatus, ZoneDescriptor, ZnsFtl, change_zone_state, set_desc,
  lba_to_zone, zone_to_slba,
}
use wild_cat.Zns.Account.{is_open, is_active, IsZone, IsAccounted, zone_blocks}
use wild_cat.Zns.Manage.{
  send_flush_explicit_zrwa, flush_granules, commit_zrwa, zrwa_end, zsa_flush_expl_zrwa, with_status,
}
use wild_cat.Zns.Machine.Steps.{update_twice, stepped_by, keeps_active, keeps_open, keeps_zrwa}
use wild_cat.Zns.Manage.Surrender.{all_given, given}
use wild_cat.Zns.Machine.{manage, commit, commit_last, zone_end, Outcome, refused}

module _ (f : ZnsFtl) (z slba : ℕ) (acc : IsAccounted f) (lt : z < f.zp.nr_zones)
    (w : (f.zone_descs z).zrwav ≡ true) (from : (f.zone_descs z).wp ≤ slba)
    (upto : slba ≤ zrwa_end f z) where
  -- the block lies in the zone, and nothing wraps around
  inside : slba + 1 ≤ (f.zone_descs z).zslba + zone_blocks f
  inside =
      let zone = acc.zones _ lt in
      let start = zone.start in
      let capacity = zone.capacity in
      let small = acc.small in
      let positive = acc.positive in ground (arith, start, capacity, small, positive)

  next_block : add64 slba 1 ≡ slba + 1
  next_block =
      let zone = acc.zones _ lt in
      let start = zone.start in
      let small = acc.small in let i = inside in ground (arith, start, i, small)

  end_block : add64 (zone_to_slba f z) (f.zone_descs z).zone_capacity ≡ zone_end (f.zone_descs z)
  end_block =
      let zone = acc.zones _ lt in
      let start = zone.start in
      let capacity = zone.capacity in
      let small = acc.small in ground (arith, start, small, capacity)

  commit_part :
      is_active (f.zone_descs z) ≡ true
      → (slba + 1 == zone_end (f.zone_descs z)) ≡ false
      → Outcome f z
          (manage zsa_flush_expl_zrwa)
          (some success, set_desc f z (record (f.zone_descs z) { wp = slba + 1 }))
  commit_part a more =
      let zone = acc.zones _ lt in
      let lower = zone.lower in
      let capacity = zone.capacity in
      let i = inside in
      let short : slba + 1 < (f.zone_descs z).zslba + zone_blocks f =
        ground (arith, more, i, capacity) in
      let d : ZoneDescriptor = record (f.zone_descs z) { wp = slba + 1 } in
      stepped_by f z acc lt d _ _ _ _
        (commit (slba + 1) (rw (a, w) refl) (omega arith) (rw capacity short)) (λ j. refl)
        (record {
          start = zone.start;
          capacity = zone.capacity;
          lower = omega arith;
          upper = rw a (omega (arith, short));
          plain = zone.plain;
          fresh = λ e. ground (arith, a, e);
        })
        (keeps_active f z acc lt d refl) (keeps_open f z acc lt d refl)
        (keeps_zrwa f z acc lt d refl)

  last-IsZone :
      IsZone
        (zone_blocks f)
        z
        (record (f.zone_descs z) { wp = zone_end (f.zone_descs z); state = state_full })
  last-IsZone =
      let zone = acc.zones _ lt in
      let capacity = zone.capacity in
      record {
        start = zone.start;
        capacity = zone.capacity;
        lower = omega arith;
        upper = omega (arith, capacity);
        plain = λ e. ground (arith, e);
        fresh = λ e. ground (arith, e);
      }

  commit_whole :
      (held : Bool)
      → is_active (f.zone_descs z) ≡ true
      → is_open (f.zone_descs z) ≡ held
      → slba + 1 ≡ zone_end (f.zone_descs z)
      → Outcome f z (manage zsa_flush_expl_zrwa) (
        some success,
        change_zone_state
            (given held true (set_desc f z (record (f.zone_descs z) { wp = slba + 1 })))
            z
            state_full,
      )
  unfolding given
  commit_whole true a o e =
      let d : ZoneDescriptor = record (f.zone_descs z) {
        wp = zone_end (f.zone_descs z);
        state = state_full;
      } in
      let t = all_given f z acc lt d refl refl true true a o (rw (a, w) refl) in
      rw e (
        stepped_by f z acc lt d _ _ _ _ (commit_last (rw (a, w) refl))
          (update_twice f.zone_descs z (record (f.zone_descs z) { wp = zone_end (f.zone_descs z) })
            (λ x. record x { state = state_full }))
          last-IsZone t.actives t.opens t.zrwas)
  commit_whole false a o e =
      let d : ZoneDescriptor = record (f.zone_descs z) {
        wp = zone_end (f.zone_descs z);
        state = state_full;
      } in
      let t = all_given f z acc lt d refl refl false true a o (rw (a, w) refl) in
      rw e (
        stepped_by f z acc lt d _ _ _ _ (commit_last (rw (a, w) refl))
          (update_twice f.zone_descs z (record (f.zone_descs z) { wp = zone_end (f.zone_descs z) })
            (λ x. record x { state = state_full }))
          last-IsZone t.actives t.opens t.zrwas)

  committed :
      (held : Bool)
      → is_active (f.zone_descs z) ≡ true
      → is_open (f.zone_descs z) ≡ held
      → Outcome f z (manage zsa_flush_expl_zrwa) (some success, commit_zrwa f z slba held)
  unfolding given
  committed held a o = elim (Bool-cases (slba + 1 == zone_end (f.zone_descs z))) [
    | inl last ↦ rw (next_block, end_block, last) (commit_whole held a o (ground (arith, last)))
    | inr more ↦ rw (next_block, end_block, more) (commit_part a more)
  ]

module _ (f : ZnsFtl) (slba : ℕ) (acc : IsAccounted f)
    (lt : lba_to_zone f slba < f.zp.nr_zones) where
  flush_at :
      (s : ZoneState)
      → (f.zone_descs (lba_to_zone f slba)).state ≡ s
      → (f.zone_descs (lba_to_zone f slba)).zrwav ≡ true
      → (f.zone_descs (lba_to_zone f slba)).wp ≤ slba
      → slba ≤ zrwa_end f (lba_to_zone f slba)
      → Outcome f (lba_to_zone f slba) (manage zsa_flush_expl_zrwa) (
          with_status (elim s [
            | state_opened_expl ↦ (success, commit_zrwa f (lba_to_zone f slba) slba true)
            | state_opened_impl ↦ (success, commit_zrwa f (lba_to_zone f slba) slba true)
            | state_closed ↦ (success, commit_zrwa f (lba_to_zone f slba) slba false)
            | _ ↦ (invalid_zone_operation, f)
          ]))
  flush_at state_opened_expl e w from upto =
      committed f _ slba acc lt w from upto true (rw e refl) (rw e refl)
  flush_at state_opened_impl e w from upto =
      committed f _ slba acc lt w from upto true (rw e refl) (rw e refl)
  flush_at state_closed e w from upto =
      committed f _ slba acc lt w from upto false (rw e refl) (rw e refl)
  flush_at _ e w from upto = refused _ (λ x. ground (arith, x))

  flush_granules-Outcome :
      (f.zone_descs (lba_to_zone f slba)).zrwav ≡ true
      → (leb (f.zone_descs (lba_to_zone f slba)).wp slba
          && leb slba (zrwa_end f (lba_to_zone f slba)))
        ≡ true
      → Outcome f
          (lba_to_zone f slba)
          (manage zsa_flush_expl_zrwa)
          (with_status (flush_granules f slba))
  flush_granules-Outcome w within =
      elim (Bool-cases
        (add64 (sub64 slba (f.zone_descs (lba_to_zone f slba)).wp) 1 % f.zp.lbas_per_zrwafg == 0)) [
          | inr part ↦ rw part (refused _ (λ x. ground (arith, x)))
          | inl whole ↦
              rw whole (flush_at _ refl w (ground (arith, within)) (ground (arith, within)))
        ]

  pub flush-Outcome :
      0 < f.zp.lbas_per_zrwafg
      → (r : Option ZnsStatus × ZnsFtl) × ((send_flush_explicit_zrwa f slba >>= λ r.
            some (with_status r))
          ≡ some r)
        × Outcome f (lba_to_zone f slba) (manage zsa_flush_expl_zrwa) r
  unfolding send_flush_explicit_zrwa
  flush-Outcome granule =
      let divides : ltb 0 f.zp.lbas_per_zrwafg ≡ true = ground (arith, granule) in
      elim (Bool-cases (f.zone_descs (lba_to_zone f slba)).zrwav) [
        | inr none_held ↦ (
          (some invalid_zone_operation, f),
          rw (send_flush_explicit_zrwa, none_held) refl,
          refused _ (λ x. ground (arith, x)),
        )
        | inl w ↦
            elim (Bool-cases (
              leb (f.zone_descs (lba_to_zone f slba)).wp slba
              && leb slba (zrwa_end f (lba_to_zone f slba)))) [
                | inr out ↦ (
                  (some invalid_zone_operation, f),
                  rw (send_flush_explicit_zrwa, w, out) refl,
                  refused _ (λ x. ground (arith, x)),
                )
                | inl within ↦ (
                  with_status (flush_granules f slba),
                  simp (send_flush_explicit_zrwa, w, within, divides) refl,
                  flush_granules-Outcome w within,
                )
              ]
      ]
