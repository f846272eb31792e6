-- ===== src/Ssd/Nand.antt =====
-- ssd.h and ssd.c: physical page addresses, and the tree of channels, LUNs, planes, blocks and
-- pages. An array of the C code is a map from its indices; its length stands in `SsdParams`.
pub mod Access
use wild_cat.Common.{ℕ, ◌+◌, ◌-◌, ◌*◌, ◌/◌, ◌%◌, ◌^◌, Bool, false, update, add32, w32, mul64}
use wild_cat.Ssd.Params.{SsdParams}
use wild_cat.Ssd.Channel.{ChannelModel, chmodel_init, unit_xfer_size}

-- `struct ppa`, by its bit fields: 16, 16, 8, 8, 8 and 8 bits
pub record Ppa : Type 0 where
  pub pg : ℕ
  pub blk : ℕ
  pub pl : ℕ
  pub lun : ℕ
  pub ch : ℕ
  pub rsv : ℕ

-- the member `ppa` of the union
unfoldable pub ppa_bits : Ppa → ℕ
ppa_bits p = p.pg + 2 ^ 16 * p.blk + 2 ^ 32 * p.pl + 2 ^ 40 * p.lun + 2 ^ 48 * p.ch + 2 ^ 56 * p.rsv

-- the member `h.blk_in_ssd` of the union
unfoldable pub blk_in_ssd : Ppa → ℕ
blk_in_ssd p = p.blk + 2 ^ 16 * p.pl + 2 ^ 24 * p.lun + 2 ^ 32 * p.ch

-- all bits set
abbrev pub unmapped_ppa : Ppa
unmapped_ppa = record { pg = 65535; blk = 65535; pl = 255; lun = 255; ch = 255; rsv = 255 }

abbrev pub invalid_lpn : ℕ
invalid_lpn = 2 ^ 64 - 1

pub data PageStatus : Type 0 where
  pg_free pg_invalid pg_valid : PageStatus

-- `nand_page` (its sector states are set once and never read), `nand_block`, `nand_plane`,
-- `nand_lun` and `ssd_channel`
pub record NandPage : Type 0 where
  pub status : PageStatus
  pub nsecs : ℕ

pub record NandBlock : Type 0 where
  pub pgs : ℕ → NandPage
  pub npgs : ℕ
  pub ipc : ℕ
  pub vpc : ℕ
  pub erase_cnt : ℕ
  pub wp : ℕ

pub record NandPlane : Type 0 where
  pub blks : ℕ → NandBlock
  pub nblks : ℕ

pub record NandLun : Type 0 where
  pub pls : ℕ → NandPlane
  pub npls : ℕ
  pub next_lun_avail_time : ℕ
  pub busy : Bool
  pub gc_endtime : ℕ

pub record SsdChannel : Type 0 where
  pub luns : ℕ → NandLun
  pub nluns : ℕ
  pub gc_endtime : ℕ
  pub perf_model : ChannelModel

-- `struct ssd` but for the PCIe model and the write buffer, which the partitions share
pub record Ssd : Type 0 where
  pub sp : SsdParams
  pub chs : ℕ → SsdChannel
  pub cpu_nr_dispatcher : ℕ

abbrev pub get_ch : Ssd → Ppa → SsdChannel
get_ch ssd p = ssd.chs p.ch

abbrev pub get_lun : Ssd → Ppa → NandLun
get_lun ssd p = (get_ch ssd p).luns p.lun

abbrev pub get_pl : Ssd → Ppa → NandPlane
get_pl ssd p = (get_lun ssd p).pls p.pl

abbrev pub get_blk : Ssd → Ppa → NandBlock
get_blk ssd p = (get_pl ssd p).blks p.blk

abbrev pub get_pg : Ssd → Ppa → NandPage
get_pg ssd p = (get_blk ssd p).pgs p.pg

unfoldable pub get_cell : Ssd → Ppa → ℕ
get_cell ssd p = (p.pg / ssd.sp.pgs_per_flashpg) % ssd.sp.cell_mode

-- writes through the pointers that these functions return
abbrev pub set_ch : Ssd → Ppa → SsdChannel → Ssd
set_ch ssd p c = record ssd { chs = update ssd.chs p.ch c }

abbrev pub set_lun : Ssd → Ppa → NandLun → Ssd
set_lun ssd p l = set_ch ssd p (record (get_ch ssd p) { luns = update (get_ch ssd p).luns p.lun l })

abbrev pub set_pl : Ssd → Ppa → NandPlane → Ssd
set_pl ssd p q = set_lun ssd p (record (get_lun ssd p) { pls = update (get_lun ssd p).pls p.pl q })

abbrev pub set_blk : Ssd → Ppa → NandBlock → Ssd
set_blk ssd p b = set_pl ssd p (record (get_pl ssd p) { blks = update (get_pl ssd p).blks p.blk b })

abbrev pub set_pg : Ssd → Ppa → NandPage → Ssd
set_pg ssd p g = set_blk ssd p (record (get_blk ssd p) { pgs = update (get_blk ssd p).pgs p.pg g })

unfoldable pub ssd_init_nand_page : SsdParams → NandPage
ssd_init_nand_page spp = record { status = pg_free; nsecs = spp.secs_per_pg }

unfoldable pub ssd_init_nand_blk : SsdParams → NandBlock
unfolding ssd_init_nand_page
ssd_init_nand_blk spp = record {
  pgs = λ _. ssd_init_nand_page spp;
  npgs = spp.pgs_per_blk;
  ipc = 0;
  vpc = 0;
  erase_cnt = 0;
  wp = 0;
}

unfoldable pub ssd_init_nand_plane : SsdParams → NandPlane
unfolding ssd_init_nand_blk
ssd_init_nand_plane spp = record { blks = λ _. ssd_init_nand_blk spp; nblks = spp.blks_per_pl }

-- `gc_endtime` is not set by the C code, and is zero here.
unfoldable pub ssd_init_nand_lun : SsdParams → NandLun
unfolding ssd_init_nand_plane
ssd_init_nand_lun spp = record {
  pls = λ _. ssd_init_nand_plane spp;
  npls = spp.pls_per_lun;
  next_lun_avail_time = 0;
  busy = false;
  gc_endtime = 0;
}

unfoldable pub ssd_init_ch : SsdParams → SsdChannel
unfolding ssd_init_nand_lun chmodel_init
ssd_init_ch spp =
    let model = chmodel_init spp.ch_bandwidth in
    let overhead = mul64 spp.fw_ch_xfer_lat unit_xfer_size / 4096 in
    record {
      luns = λ _. ssd_init_nand_lun spp;
      nluns = spp.luns_per_ch;
      gc_endtime = 0;
      perf_model = record model { xfer_lat = add32 model.xfer_lat (w32 overhead) };
    }

-- `ssd_init`; the PCIe model and the buffer are made beside it
unfoldable pub ssd_init : SsdParams → ℕ → Ssd
unfolding ssd_init_ch
ssd_init spp cpu = record { sp = spp; chs = λ _. ssd_init_ch spp; cpu_nr_dispatcher = cpu }

unfoldable pub ssd_init_pcie : SsdParams → ChannelModel
ssd_init_pcie spp = chmodel_init spp.pcie_bandwidth
