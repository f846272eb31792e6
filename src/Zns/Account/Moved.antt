-- ===== src/Zns/Account/Moved.antt =====
-- The accounts after one zone has changed and its resources have been acquired or released.
use mathlib.Core.Path.{fun_ext, sym}
use wild_cat.Common.{
  ℕ, ◌+◌, ◌≤◌, ◌<◌, ◌≡◌, refl, Bool, true, false, ◌==◌, update, arith, add32, sub32, inl, inr,
  Bool-cases,
}
use wild_cat.Zns.State.{ZoneDescriptor, ZoneResourceInfo, active_zone, open_zone, zrwa_zone}
use wild_cat.Zns.Account.{
  is_open, is_active, holds_zrwa, unit_of, zones_with, zones_with-update, unit-le-zones_with,
  IsZone, IsCounter, Accounts,
}

-- What one zone did to the counter of a resource, which it held `before` and holds `after`.
pub record Transfer (info info' : ZoneResourceInfo) (before after : Bool) : Type 0 where
  pub balance : info'.acquired_cnt + unit_of before ≡ info.acquired_cnt + unit_of after
  pub total : info'.total_cnt ≡ info.total_cnt
  pub within : info'.acquired_cnt ≤ info'.total_cnt

IsCounter-moved :
    (info info' : ZoneResourceInfo)
    → (test : ZoneDescriptor → Bool) → (descs : ℕ → ZoneDescriptor) → (n z : ℕ)
    → (d : ZoneDescriptor) → z < n
    → IsCounter info (zones_with test descs n)
    → Transfer info info' (test (descs z)) (test d)
    → IsCounter info' (zones_with test (update descs z d) n)
IsCounter-moved info info' test descs n z d lt c t =
    let e = zones_with-update test descs z d n lt in
    let one = t.balance in
    let two = c.exact in
    record {
      exact = omega (arith, e, one, two);
      within = t.within;
      word = let w = c.word in let same = t.total in omega (arith, w, same);
    }

module _ (n size z : ℕ) (res res' : ℕ → ZoneResourceInfo) (descs descs' : ℕ → ZoneDescriptor)
    (d : ZoneDescriptor) where
  zones-moved :
      ((j : ℕ) → j < n → IsZone size j (descs j))
      → IsZone size z d
      → (j : ℕ) → j < n
      → IsZone size j (update descs z d j)
  zones-moved old new j lt = elim (Bool-cases (z == j)) [
    | inl same ↦ let e : z ≡ j = ground (arith, same) in rw (same, sym e) new
    | inr other ↦ rw other (old j lt)
  ]

  pub Accounts-moved :
      z < n
      → Accounts n size res descs
      → ((j : ℕ) → descs' j ≡ update descs z d j)
      → IsZone size z d
      → Transfer (res active_zone) (res' active_zone) (is_active (descs z)) (is_active d)
      → Transfer (res open_zone) (res' open_zone) (is_open (descs z)) (is_open d)
      → Transfer (res zrwa_zone) (res' zrwa_zone) (holds_zrwa (descs z)) (holds_zrwa d)
      → Accounts n size res' descs'
  Accounts-moved lt acc same zone a o w = rw (fun_ext same) (record {
    zones = zones-moved acc.zones zone;
    active_counter = IsCounter-moved _ _ is_active descs n z d lt acc.active_counter a;
    open_counter = IsCounter-moved _ _ is_open descs n z d lt acc.open_counter o;
    zrwa_counter = IsCounter-moved _ _ holds_zrwa descs n z d lt acc.zrwa_counter w;
    small = acc.small;
    positive = acc.positive;
    whole = acc.whole;
  })

-- The three things that zone `z`, which becomes `d`, can do to the counter of one resource.
module _ (test : ZoneDescriptor → Bool) (descs : ℕ → ZoneDescriptor) (n z : ℕ) (d : ZoneDescriptor)
    (lt : z < n) {info : ZoneResourceInfo} (c : IsCounter info (zones_with test descs n)) where
  pub kept_counter : test (descs z) ≡ test d → Transfer info info (test (descs z)) (test d)
  kept_counter e = rw e (record { balance = refl; total = refl; within = c.within })

  pub released_counter :
      test (descs z) ≡ true
      → test d ≡ false
      → Transfer info
          (record info { acquired_cnt = sub32 info.acquired_cnt 1 })
          (test (descs z))
          (test d)
  released_counter before after =
      let some_held = unit-le-zones_with test descs z n lt in
      let e = c.exact in
      let le = c.within in
      let w = c.word in
      record {
        balance = ground (arith, before, after, some_held);
        total = refl;
        within = ground (arith, some_held, before);
      }

  pub acquired_counter :
      test (descs z) ≡ false
      → test d ≡ true
      → info.acquired_cnt < info.total_cnt
      → Transfer info
          (record info { acquired_cnt = add32 info.acquired_cnt 1 })
          (test (descs z))
          (test d)
  acquired_counter before after avail =
      let w = c.word in
      record { balance = ground (arith, before, after); total = refl; within = ground arith }
