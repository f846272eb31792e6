-- ===== src/Zns/Write/Pointer.antt =====
-- The write pointer of an open zone moves on, and closes the zone at its end.
use wild_cat.Common.{ℕ, ◌+◌, ◌^◌, ◌≤◌, ◌<◌, ◌≡◌, refl, true, false, ◌==◌, arith, add64}
use wild_cat.Zns.State.{state_full, ZoneDescriptor, ZnsFtl, zone_to_slba}
use wild_cat.Zns.Account.{is_open, is_active, IsAccounted, zone_blocks}
use wild_cat.Zns.Account.Moved.{released_counter}
use wild_cat.Zns.Machine.Steps.{update_twice, keeps_active, keeps_open, keeps_zrwa, Becomes-by}
use wild_cat.Zns.Machine.{zone_end, Becomes}
use wild_cat.Zns.Write.{increase_write_ptr}

module _ (f : ZnsFtl) (z k : ℕ) (acc : IsAccounted f) (lt : z < f.zp.nr_zones)
    (fit : (f.zone_descs z).wp + k ≤ zone_end (f.zone_descs z)) where
  end_word : zone_end (f.zone_descs z) < 2 ^ 64
  end_word =
      let zone = acc.zones z lt in
      let start = zone.start in
      let capacity = zone.capacity in
      let small = acc.small in ground (arith, start, small, capacity)

  next_wp : add64 (f.zone_descs z).wp k ≡ (f.zone_descs z).wp + k
  next_wp = let w = end_word in omega (arith, w, fit)

  end_lba : add64 (zone_to_slba f z) (f.zone_descs z).zone_capacity ≡ zone_end (f.zone_descs z)
  end_lba =
      let zone = acc.zones z lt in
      let start = zone.start in let w = end_word in omega (arith, w, start)

  module _ (o : is_open (f.zone_descs z) ≡ true) (a : is_active (f.zone_descs z) ≡ true) where
    -- a write that leaves room in the zone
    pub advance_part :
        ((f.zone_descs z).wp + k == zone_end (f.zone_descs z)) ≡ false
        → Becomes f z
            (record (f.zone_descs z) { wp = (f.zone_descs z).wp + k })
            (increase_write_ptr f z k)
    unfolding increase_write_ptr
    advance_part more =
        let zone = acc.zones z lt in
        let lower = zone.lower in
        let capacity = zone.capacity in
        let short : (f.zone_descs z).wp + k < (f.zone_descs z).zslba + zone_blocks f =
          ground (arith, more, fit, capacity) in
        let d : ZoneDescriptor = record (f.zone_descs z) { wp = (f.zone_descs z).wp + k } in
        rw (next_wp, end_lba, more)
          (Becomes-by f z acc lt d _ _ _ _ (λ j. refl)
            (record {
              start = zone.start;
              capacity = zone.capacity;
              lower = omega arith;
              upper = rw a (omega (arith, short));
              plain = zone.plain;
              fresh = λ e. ground (arith, a, e);
            })
            (keeps_active f z acc lt d refl) (keeps_open f z acc lt d refl)
            (keeps_zrwa f z acc lt d refl))

    -- a write up to the end of the zone, which has no write area to give back
    pub advance_last :
        (f.zone_descs z).zrwav ≡ false
        → ((f.zone_descs z).wp + k == zone_end (f.zone_descs z)) ≡ true
        → Becomes f z
            (record (f.zone_descs z) { wp = zone_end (f.zone_descs z); state = state_full })
            (increase_write_ptr f z k)
    unfolding increase_write_ptr
    advance_last plain last =
        let zone = acc.zones z lt in
        let capacity = zone.capacity in
        let d : ZoneDescriptor = record (f.zone_descs z) {
          wp = zone_end (f.zone_descs z);
          state = state_full;
        } in
        let e : (f.zone_descs z).wp + k ≡ zone_end (f.zone_descs z) = ground (arith, last) in
        rw (next_wp, end_lba, last, e)
          (Becomes-by f z acc lt d _ _ _ _
            (update_twice f.zone_descs z
              (record (f.zone_descs z) { wp = zone_end (f.zone_descs z) })
              (λ x. record x { state = state_full }))
            (record {
              start = zone.start;
              capacity = zone.capacity;
              lower = omega arith;
              upper = omega (arith, capacity);
              plain = λ x. ground (arith, x);
              fresh = λ x. ground (arith, x);
            })
            (released_counter is_active _ _ z d lt acc.active_counter a refl)
            (released_counter is_open _ _ z d lt acc.open_counter o refl)
            (keeps_zrwa f z acc lt d (rw (a, plain) refl)))
