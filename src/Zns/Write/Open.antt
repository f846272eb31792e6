-- ===== src/Zns/Write/Open.antt =====
-- A write opens its zone.
use wild_cat.Common.{ℕ, ◌+◌, ◌≤◌, ◌<◌, ◌≡◌, ◌≢◌, refl, sym, true, ◌==◌, arith, inl, inr, Bool-cases}
use wild_cat.Zns.State.{
  ZoneState, state_empty, state_opened_impl, state_opened_expl, state_closed, ZnsStatus, success,
  ZoneDescriptor, ZnsFtl, active_zone, open_zone, is_zone_resource_avail, is_zone_resource_full,
  is_zone_resource_avail, is_zone_resource_full,
}
use wild_cat.Zns.Account.{is_open, is_active, IsZone, IsAccounted, zone_blocks}
use wild_cat.Zns.Account.Moved.{acquired_counter}
use wild_cat.Zns.Manage.{take_active}
use wild_cat.Zns.Machine.Steps.{
  restated, keeps_active, keeps_zrwa, Becomes-by, unchanged_device, take_active_lem, below,
  empty_room, update_self,
}
use wild_cat.Zns.Machine.{Opened, already, first, again, Becomes, limits_of}
use wild_cat.Zns.Write.{open_for_write, open_implicitly}

-- what the opening of zone `z` for a write answers and leaves
pub data OpenResult (f : ZnsFtl) (z : ℕ) : ZnsStatus × ZnsFtl → Type 0 where
  unopened : (s : ZnsStatus) → s ≢ success → OpenResult f z (s, f)
  opened :
      (f₁ : ZnsFtl) (s : ZoneState)
      → Opened f.zp.nr_zones (limits_of f) f.zone_descs z (record (f.zone_descs z) { state = s })
      → is_open (record (f.zone_descs z) { state = s }) ≡ true
      → is_active (record (f.zone_descs z) { state = s }) ≡ true
      → Becomes f z (record (f.zone_descs z) { state = s }) f₁
      → OpenResult f z (success, f₁)

module _ (f : ZnsFtl) (z : ℕ) (acc : IsAccounted f) (lt : z < f.zp.nr_zones) where
  abbrev implicit : ZoneDescriptor
  implicit = record (f.zone_descs z) { state = state_opened_impl }

  implicit-IsZone :
      (f.zone_descs z).wp + 1 ≤ (f.zone_descs z).zslba + zone_blocks f
      → IsZone (zone_blocks f) z implicit
  implicit-IsZone room =
      restated _ z _ state_opened_impl _ (acc.zones z lt) (λ x. ground (arith, x)) room

  from_closed : (f.zone_descs z).state ≡ state_closed → OpenResult f z (open_implicitly f z)
  from_closed e = elim (Bool-cases (is_zone_resource_avail f open_zone)) [
    | inr full ↦ rw full (unopened _ (λ x. ground (arith, x)))
    | inl avail ↦
        let zone = acc.zones z lt in
        let room = zone.upper in
        let exact = acc.open_counter.exact in
        rw avail (
          opened _ state_opened_impl (again e (ground (arith, avail, exact))) refl refl (
            Becomes-by f z acc lt implicit _ _ _ _ (λ j. refl) (implicit-IsZone (ground (arith, e)))
              (keeps_active f z acc lt implicit (rw e refl))
              (acquired_counter is_open _ _ z implicit lt acc.open_counter (rw e refl) refl
                (ground (arith, avail)))
              (keeps_zrwa f z acc lt implicit (rw e refl))))
  ]

  from_empty :
      (f.zone_descs z).state ≡ state_empty
      → is_zone_resource_avail f active_zone ≡ true
      → is_zone_resource_avail f open_zone ≡ true
      → OpenResult f z (open_implicitly (take_active f) z)
  from_empty e a o =
      let zone = acc.zones z lt in
      let active = acc.active_counter.exact in
      let opens = acc.open_counter.exact in
      rw (take_active_lem f a, o)
        (opened _ state_opened_impl (first e (ground (arith, a, active)) (ground (arith, o, opens)))
          refl refl
          (Becomes-by f z acc lt implicit _ _ _ _ (λ j. refl)
            (implicit-IsZone (empty_room f z acc lt e))
            (acquired_counter is_active _ _ z implicit lt acc.active_counter (rw e refl) refl
              (ground (arith, a)))
            (acquired_counter is_open _ _ z implicit lt acc.open_counter (rw e refl) refl
              (ground (arith, o)))
            (keeps_zrwa f z acc lt implicit (rw (e, zone.plain e) refl))))

  still :
      (s : ZoneState)
      → (f.zone_descs z).state ≡ s
      → is_open (f.zone_descs z) ≡ true
      → is_active (f.zone_descs z) ≡ true
      → OpenResult f z (success, f)
  still s e o a = opened f (f.zone_descs z).state (already o) o a (record {
    changed = λ j. sym (update_self f.zone_descs z j);
    device = unchanged_device f;
    accounts = acc;
  })

  open_at :
      (slba : ℕ) (s : ZoneState)
      → (f.zone_descs z).state ≡ s
      → OpenResult f z (open_for_write f z slba)
  unfolding open_for_write
  open_at slba state_empty e = elim (Bool-cases (slba == (f.zone_descs z).zslba)) [
    | inr off ↦ rw (e, open_for_write, off) (unopened _ (λ x. ground (arith, x)))
    | inl at_start ↦ elim (Bool-cases (is_zone_resource_full f active_zone)) [
      | inl full ↦ rw (e, open_for_write, at_start, full) (unopened _ (λ x. ground (arith, x)))
      | inr spare_active ↦ elim (Bool-cases (is_zone_resource_full f open_zone)) [
        | inl full ↦
            rw (e, open_for_write, at_start, spare_active, full)
              (unopened _ (λ x. ground (arith, x)))
        | inr spare_open ↦
            rw (e, open_for_write, at_start, spare_active, spare_open)
              (from_empty e (below acc.active_counter spare_active)
                (below acc.open_counter spare_open))
      ]
    ]
  ]
  open_at slba state_closed e = rw (e, open_for_write) (from_closed e)
  open_at slba state_opened_impl e = rw (e, open_for_write) (still _ e (rw e refl) (rw e refl))
  open_at slba state_opened_expl e = rw (e, open_for_write) (still _ e (rw e refl) (rw e refl))
  open_at slba _ e = rw (e, open_for_write) (unopened _ (λ x. ground (arith, x)))

  -- In an accounted FTL a write is let into a zone that is open, or opens it as the machine does.
  pub open_for_write-OpenResult : (slba : ℕ) → OpenResult f z (open_for_write f z slba)
  open_for_write-OpenResult slba = open_at slba _ refl
