-- ===== src/Zns/Account.antt =====
-- The accounts of the zone resources: the counters against the states of the zones, which are the
-- abstract view of the FTL.
pub mod Moved
use wild_cat.Common.{
  ℕ, zero, suc, ◌+◌, ◌*◌, ◌/◌, ◌^◌, ◌≤◌, ◌<◌, ◌≡◌, refl, Bool, true, false, ◌&&◌, ◌==◌,
  if◌then◌else◌, update, arith, ltb, inl, inr, Bool-cases, ltb→lt, mul32,
}
use wild_cat.Zns.State.{
  ZoneState, state_empty, state_opened_impl, state_opened_expl, state_closed, state_read_only,
  state_full, state_offline, ZoneDescriptor, ZoneResourceInfo, ZnsFtl, active_zone, open_zone,
  zrwa_zone,
}

abbrev pub is_open : ZoneDescriptor → Bool
is_open d = elim d.state [ state_opened_impl ↦ true | state_opened_expl ↦ true | _ ↦ false ]

abbrev pub is_active : ZoneDescriptor → Bool
is_active d = elim d.state [
  | state_opened_impl ↦ true
  | state_opened_expl ↦ true
  | state_closed ↦ true
  | _ ↦ false
]

-- an active zone with a write area
abbrev pub holds_zrwa : ZoneDescriptor → Bool
holds_zrwa d = is_active d && d.zrwav

abbrev pub unit_of : Bool → ℕ
unit_of b = if b then 1 else 0

-- how many of the zones `0 .. n - 1` satisfy the test
unfoldable pub zones_with : (ZoneDescriptor → Bool) → (ℕ → ZoneDescriptor) → ℕ → ℕ
zones_with test descs zero = 0
zones_with test descs (suc n) = zones_with test descs n + unit_of (test (descs n))

module _ (test : ZoneDescriptor → Bool) (descs : ℕ → ZoneDescriptor) (z : ℕ)
    (d : ZoneDescriptor) where
  zones_with-above :
      (n : ℕ) → n ≤ z → zones_with test (update descs z d) n ≡ zones_with test descs n
  unfolding zones_with
  zones_with-above zero h = refl
  zones_with-above (suc n) h = let rest = zones_with-above n (omega arith) in ground (arith, rest)

  -- one changed zone changes the count by what it counted before and counts now
  pub zones_with-update :
      (n : ℕ)
      → z < n
      → zones_with test (update descs z d) n + unit_of (test (descs z))
        ≡ zones_with test descs n + unit_of (test d)
  unfolding zones_with
  zones_with-update zero h = elim h [ ]
  zones_with-update (suc n) h = elim (Bool-cases (ltb z n)) [
    | inl below ↦ let rest = zones_with-update n (ltb→lt z n below) in ground (arith, rest)
    | inr other ↦
        let same : z ≡ n = ground (arith, other) in
        let rest = zones_with-above n (omega (arith, same)) in ground (arith, rest, same)
  ]

pub unit-le-zones_with :
    (test : ZoneDescriptor → Bool)
    → (descs : ℕ → ZoneDescriptor) → (z n : ℕ) → z < n
    → unit_of (test (descs z)) ≤ zones_with test descs n
unfolding zones_with
unit-le-zones_with test descs z zero h = elim h [ ]
unit-le-zones_with test descs z (suc n) h = elim (Bool-cases (ltb z n)) [
  | inl below ↦
      let rest = unit-le-zones_with test descs z n (ltb→lt z n below) in omega (arith, rest)
  | inr other ↦ let same : z ≡ n = ground (arith, other) in rw same (omega arith)
]

-- A zone of `size` blocks, the one of index `z`: its write pointer lies in it, before its end as
-- long as it is active, and at its start while it is empty, where it has no write area.
pub record IsZone (size z : ℕ) (d : ZoneDescriptor) : Type 0 where
  pub start : d.zslba ≡ mul32 z size
  pub capacity : d.zone_capacity ≡ size
  pub lower : d.zslba ≤ d.wp
  pub upper : d.wp + unit_of (is_active d) ≤ d.zslba + size
  pub plain : d.state ≡ state_empty → d.zrwav ≡ false
  pub fresh : d.state ≡ state_empty → d.wp ≡ d.zslba

-- The counter of a resource is the number of the zones that hold one, and within its limit.
pub record IsCounter (info : ZoneResourceInfo) (held : ℕ) : Type 0 where
  pub exact : info.acquired_cnt ≡ held
  pub within : info.acquired_cnt ≤ info.total_cnt
  pub word : info.total_cnt < 2 ^ 32

pub record Accounts (n size : ℕ) (res : ℕ → ZoneResourceInfo) (descs : ℕ → ZoneDescriptor)
    : Type 0 where
  pub zones : (z : ℕ) → z < n → IsZone size z (descs z)
  pub active_counter : IsCounter (res active_zone) (zones_with is_active descs n)
  pub open_counter : IsCounter (res open_zone) (zones_with is_open descs n)
  pub zrwa_counter : IsCounter (res zrwa_zone) (zones_with holds_zrwa descs n)
  pub small : size < 2 ^ 32
  pub positive : 0 < size
  pub whole : n * size ≤ 2 ^ 32

-- The blocks of a zone are `zone_size / secsz`.
abbrev pub zone_blocks : ZnsFtl → ℕ
zone_blocks f = f.zp.zone_size / f.ssd.sp.secsz

abbrev pub IsAccounted : ZnsFtl → Type 0
IsAccounted f = Accounts f.zp.nr_zones (zone_blocks f) f.res_infos f.zone_descs
