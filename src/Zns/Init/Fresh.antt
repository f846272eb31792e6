-- ===== src/Zns/Init/Fresh.antt =====
-- The initial state of a zoned namespace is accounted: every zone is empty.
use native.Mathlib.Nat.{div-mul-le_self, mul-le-mul_right, mul-le-mul_left}
use wild_cat.Common.{
  ℕ, zero, suc, ◌+◌, ◌*◌, ◌/◌, ◌%◌, ◌^◌, ◌≤◌, ◌<◌, ◌≡◌, refl, Bool, true, false, sym, [], some,
  ◌==◌, arith, w32,
}
use wild_cat.World.{World}
use wild_cat.Ssd.Buffer.{Buffer}
use wild_cat.Ssd.Channel.{ChannelModel}
use wild_cat.Ssd.Nand.{Ssd}
use wild_cat.Ssd.Params.{SsdParams}
use wild_cat.Zns.State.{ZoneDescriptor, ZnsParams}
use wild_cat.Zns.Account.{
  is_open, is_active, holds_zrwa, zones_with, IsZone, IsCounter, IsAccounted,
}
use wild_cat.Zns.Namespace.{ZnsNamespace}
use wild_cat.Zns.Init.{
  ZnsConfig, start_lba, init_descriptor, init_resource, zns_params, zns_init_params, zns_init_ftl,
  zns_init_namespace,
}

start_lba-mul :
    (zone_size i : ℕ)
    → i * (zone_size / 512) < 2 ^ 32
    → start_lba zone_size i ≡ i * (zone_size / 512)
unfolding start_lba
start_lba-mul zone_size zero h = omega arith
start_lba-mul zone_size (suc i) h =
    let rest = start_lba-mul zone_size i (ground arith) in ground (arith, rest)

none-empty :
    (zp : ZnsParams) (test : ZoneDescriptor → Bool)
    → ((i : ℕ) → test (init_descriptor zp i) ≡ false)
    → (n : ℕ) → zones_with test (init_descriptor zp) n ≡ 0
unfolding zones_with
none-empty zp test h zero = refl
none-empty zp test h (suc n) = let rest = none-empty zp test h n in rw h (omega (arith, rest))

-- what the parameters of the zones satisfy
pub record IsZnsParams (zp : ZnsParams) : Type 0 where
  pub filled : 512 ≤ zp.zone_size
  pub word : zp.zone_size < 2 ^ 32
  pub count_word : zp.nr_zones < 2 ^ 32
  pub small : zp.nr_zones * (zp.zone_size / 512) ≤ 2 ^ 32

module _ (zp : ZnsParams) (ok : IsZnsParams zp) where
  fresh-IsZone : (z : ℕ) → z < zp.nr_zones → IsZone (zp.zone_size / 512) z (init_descriptor zp z)
  unfolding init_descriptor
  fresh-IsZone z lt =
      let filled = ok.filled in
      let row : (z + 1) * (zp.zone_size / 512) ≤ zp.nr_zones * (zp.zone_size / 512) =
        mul-le-mul_right (zp.zone_size / 512) (omega arith) in
      let small = ok.small in
      let block : 1 ≤ zp.zone_size / 512 = omega (arith, filled) in
      let below : z * (zp.zone_size / 512) < 2 ^ 32 = ground (arith, row, small, block) in
      let start = start_lba-mul zp.zone_size z below in
      record {
        start = omega (arith, start, below);
        capacity = refl;
        lower = omega arith;
        upper = omega arith;
        plain = λ _. refl;
        fresh = λ _. refl;
      }

  fresh-IsCounter :
      (test : ZoneDescriptor → Bool)
      → ((i : ℕ) → test (init_descriptor zp i) ≡ false)
      → IsCounter (init_resource zp 0) (zones_with test (init_descriptor zp) zp.nr_zones)
  fresh-IsCounter test h = record {
    exact = sym (none-empty zp test h zp.nr_zones);
    within = omega arith;
    word = ok.count_word;
  }

  pub fresh-Accounts :
      (ssd : Ssd) (buf : Buffer) (mapped : ℕ → ℕ)
      → ssd.sp.secsz ≡ 512
      → IsAccounted (zns_init_ftl zp ssd buf mapped)
  unfolding zns_init_ftl init_descriptor
  fresh-Accounts ssd buf mapped sec =
      let filled = ok.filled in
      let word = ok.word in
      rw sec (record {
        zones = fresh-IsZone;
        active_counter = fresh-IsCounter is_active (λ i. refl);
        open_counter = fresh-IsCounter is_open (λ i. refl);
        zrwa_counter = fresh-IsCounter holds_zrwa (λ i. refl);
        small = omega (arith, word);
        positive = omega (arith, filled);
        whole = ok.small;
      })

-- A configuration whose zones have a whole number of pages, for a device of less than 2 TiB that
-- they fill.
pub record IsConfig (c : ZnsConfig) (pgsz capacity : ℕ) : Type 0 where
  pub sector : 512 ≤ c.zone_size_cfg
  pub word : c.zone_size_cfg < 2 ^ 32
  pub zones_fill : capacity % c.zone_size_cfg ≡ 0
  pub pages_fill : c.zone_size_cfg % pgsz ≡ 0
  pub limit : capacity < 2 ^ 41

config_zones :
    (c : ZnsConfig) (pgsz capacity : ℕ)
    → IsConfig c pgsz capacity
    → capacity / c.zone_size_cfg < 2 ^ 32
config_zones c pgsz capacity ok =
    let sector = ok.sector in
    let limit = ok.limit in
    let part : capacity / c.zone_size_cfg * c.zone_size_cfg ≤ capacity =
      div-mul-le_self capacity c.zone_size_cfg in
    let row : capacity / c.zone_size_cfg * 512 ≤ capacity / c.zone_size_cfg * c.zone_size_cfg =
      mul-le-mul_left (capacity / c.zone_size_cfg) sector in
    omega (arith, row, part, limit)

config_blocks :
    (c : ZnsConfig) (pgsz capacity : ℕ)
    → IsConfig c pgsz capacity
    → capacity / c.zone_size_cfg * (c.zone_size_cfg / 512) ≤ 2 ^ 32
config_blocks c pgsz capacity ok =
    let limit = ok.limit in
    let n = capacity / c.zone_size_cfg in
    let part : n * c.zone_size_cfg ≤ capacity = div-mul-le_self capacity c.zone_size_cfg in
    let block : c.zone_size_cfg / 512 * 512 ≤ c.zone_size_cfg =
      div-mul-le_self c.zone_size_cfg 512 in
    let row : n * (c.zone_size_cfg / 512 * 512) ≤ n * c.zone_size_cfg = mul-le-mul_left n block in
    ground (arith, row, part, limit)

pub zns_params-IsZnsParams :
    (c : ZnsConfig) (spp : SsdParams) (capacity : ℕ)
    → IsConfig c spp.pgsz capacity
    → IsZnsParams (zns_params c spp capacity)
zns_params-IsZnsParams c spp capacity ok =
    let word = ok.word in
    let sector = ok.sector in
    let blocks = config_blocks c spp.pgsz capacity ok in
    let zones = config_zones c spp.pgsz capacity ok in
    let same : w32 c.zone_size_cfg ≡ c.zone_size_cfg = omega (arith, word) in
    let count : w32 (capacity / c.zone_size_cfg) ≡ capacity / c.zone_size_cfg =
      omega (arith, zones) in
    record {
      filled = omega (arith, same, sector);
      word = omega arith;
      count_word = omega arith;
      small = rw (same, count) blocks;
    }

-- A configuration whose zones are of whole pages and fill a device of less than 2 TiB initialises
-- the namespace, in an accounted state.
pub zns_init_namespace-IsAccounted :
    (c : ZnsConfig) (ssd : Ssd) (pcie : ChannelModel) (buf : Buffer) (world : World)
    (mapped : ℕ → ℕ) (capacity : ℕ)
    → IsConfig c ssd.sp.pgsz capacity
    → ssd.sp.secsz ≡ 512
    → (ns : ZnsNamespace) × (zns_init_namespace c ssd pcie buf world mapped capacity ≡ some ns)
      × IsAccounted ns.ftl
unfolding zns_init_namespace zns_init_params
zns_init_namespace-IsAccounted c ssd pcie buf world mapped capacity ok sec =
    let word = ok.word in
    let same : w32 c.zone_size_cfg ≡ c.zone_size_cfg = omega (arith, word) in
    let zones_fill : (capacity % w32 c.zone_size_cfg == 0) ≡ true = rw (same, ok.zones_fill) refl in
    let pages_fill : (w32 c.zone_size_cfg % ssd.sp.pgsz == 0) ≡ true =
      rw (same, ok.pages_fill) refl in
    (
      record {
        ftl = zns_init_ftl (zns_params c ssd.sp capacity) ssd buf mapped;
        pcie = pcie;
        world = world;
        scheduled = [];
      },
      rw (zones_fill, pages_fill) refl,
      fresh-Accounts _ (zns_params-IsZnsParams c ssd.sp capacity ok) ssd buf mapped sec,
    )
