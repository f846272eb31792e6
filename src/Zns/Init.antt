-- ===== src/Zns/Init.antt =====
-- zns_ftl.c: the initial state of a zoned namespace. The constants of the target's configuration
-- (ssd_config.h) are a parameter.
pub mod Fresh
use wild_cat.Common.{
  ℕ, zero, suc, ◌+◌, ◌*◌, ◌/◌, ◌%◌, Bool, true, false, Option, some, [], ◌==◌, if◌then◌else◌, ◌>>=◌,
  check, w32, w64, add64,
}
use wild_cat.World.{World}
use wild_cat.Ssd.Buffer.{Buffer, buffer_init}
use wild_cat.Ssd.Channel.{ChannelModel}
use wild_cat.Ssd.Params.{SsdParams}
use wild_cat.Ssd.Nand.{Ssd}
use wild_cat.Zns.State.{state_empty, ZoneDescriptor, ZnsParams, ZoneResourceInfo, ZnsFtl}
use wild_cat.Zns.Namespace.{ZnsNamespace}

-- ssd_config.h: `ZONE_SIZE`, `DIES_PER_ZONE`, `MAX_ZRWA_ZONES` and the sizes
pub record ZnsConfig : Type 0 where
  pub zone_size_cfg : ℕ
  pub dies_per_zone_cfg : ℕ
  pub max_zrwa_zones : ℕ
  pub zone_wb_size_cfg : ℕ
  pub zrwa_size_cfg : ℕ
  pub zrwafg_size_cfg : ℕ
  pub zrwa_buffer_size_cfg : ℕ

-- what `zns_init_params` assigns
abbrev pub zns_params : ZnsConfig → SsdParams → ℕ → ZnsParams
zns_params c spp capacity = record {
  nr_zones = w32 (capacity / c.zone_size_cfg);
  nr_active_zones = w32 (capacity / c.zone_size_cfg);
  nr_open_zones = w32 (capacity / c.zone_size_cfg);
  dies_per_zone = w32 c.dies_per_zone_cfg;
  zone_size = w32 c.zone_size_cfg;
  zone_wb_size = w32 c.zone_wb_size_cfg;
  nr_zrwa_zones = w32 c.max_zrwa_zones;
  zrwafg_size = w32 c.zrwafg_size_cfg;
  zrwa_size = w32 c.zrwa_size_cfg;
  zrwa_buffer_size = w32 c.zrwa_buffer_size_cfg;
  lbas_per_zrwafg = w32 (c.zrwafg_size_cfg / spp.secsz);
  lbas_per_zrwa = w32 (c.zrwa_size_cfg / spp.secsz);
}

-- Two failed assertions, on the capacity and on the pages of a zone, are `none`.
unfoldable pub zns_init_params : ZnsConfig → SsdParams → ℕ → Option ZnsParams
zns_init_params c spp capacity =
    let zpp = zns_params c spp capacity in
    check (capacity % zpp.zone_size == 0) (check (zpp.zone_size % spp.pgsz == 0) (some zpp))

-- `BYTE_TO_LBA`
abbrev pub byte_to_lba : ℕ → ℕ
byte_to_lba b = b / 512

-- `zslba` at the start of round `i`
start_lba : ℕ → ℕ → ℕ
start_lba zone_size zero = 0
start_lba zone_size (suc i) = add64 (start_lba zone_size i) (byte_to_lba zone_size)

-- the descriptor of zone `i`
unfoldable pub init_descriptor : ZnsParams → ℕ → ZoneDescriptor
unfolding start_lba
init_descriptor zp i = record {
  zone_type = 2;
  state = state_empty;
  zrwav = false;
  zone_capacity = byte_to_lba zp.zone_size;
  zslba = start_lba zp.zone_size i;
  wp = start_lba zp.zone_size i;
}

-- every resource has as many units as there are zones
abbrev pub init_resource : ZnsParams → ℕ → ZoneResourceInfo
init_resource zp type = record { acquired_cnt = 0; total_cnt = zp.nr_zones }

-- A buffer that the parameters do not ask for is not allocated, and not used.
unfoldable pub zns_init_ftl : ZnsParams → Ssd → Buffer → (ℕ → ℕ) → ZnsFtl
unfolding init_descriptor buffer_init
zns_init_ftl zp ssd write_buffer mapped = record {
  ssd = ssd;
  zp = zp;
  res_infos = init_resource zp;
  zone_descs = init_descriptor zp;
  zone_write_buffer = λ i. buffer_init zp.zone_wb_size;
  zrwa_buffer = λ i. buffer_init zp.zrwa_buffer_size;
  write_buffer = write_buffer;
  storage = mapped;
}

-- `ssd` is the device that `ssd_init` returns for the parameters of the namespace.
unfoldable pub zns_init_namespace :
    ZnsConfig → Ssd → ChannelModel → Buffer → World → (ℕ → ℕ) → ℕ → Option ZnsNamespace
unfolding zns_init_params zns_init_ftl
zns_init_namespace c ssd pcie write_buffer world mapped size =
    zns_init_params c ssd.sp size >>= λ zp. some (record {
      ftl = zns_init_ftl zp ssd write_buffer mapped;
      pcie = pcie;
      world = world;
      scheduled = [];
    })
