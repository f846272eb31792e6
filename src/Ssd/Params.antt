-- ===== src/Ssd/Params.antt =====
-- ssd.h and ssd.c: the geometry and the timing of the device, with the constants that
-- ssd_config.h gives SAMSUNG_970PRO (the target that Kbuild selects).
-- An `int` field is its 32-bit pattern, an `unsigned long` field a 64-bit word.
pub mod Geometry
use wild_cat.Common.{
  ℕ, ◌*◌, ◌/◌, ◌%◌, Bool, true, ◌&&◌, Option, some, ltb, ◌==◌, if◌then◌else◌, check, w32, mul32,
  mul64, sub64, sext,
}
use wild_cat.Ssd.Channel.{div_round_up}

abbrev pub lba_size : ℕ
lba_size = 512

abbrev pub ssd_partitions : ℕ
ssd_partitions = 4

abbrev nand_channels : ℕ
nand_channels = 4

abbrev luns_per_nand_ch : ℕ
luns_per_nand_ch = 2

abbrev plns_per_lun : ℕ
plns_per_lun = 1

abbrev blks_per_pln : ℕ
blks_per_pln = 2048

-- KB(16)
abbrev flash_page_size : ℕ
flash_page_size = 16 * 1024

abbrev pub oneshot_page_size : ℕ
oneshot_page_size = flash_page_size * 3

-- KB(FLASH_PAGE_SIZE), where FLASH_PAGE_SIZE is itself in bytes
abbrev pub slc_oneshot_page_size : ℕ
slc_oneshot_page_size = flash_page_size * 1024

abbrev slc_portion : ℕ
slc_portion = 10

abbrev slc_blks : ℕ
slc_blks = blks_per_pln * slc_portion / 100

abbrev global_wb_size : ℕ
global_wb_size = nand_channels * luns_per_nand_ch * oneshot_page_size * 2

-- `struct ssdparams`
pub record SsdParams : Type 0 where
  pub secsz : ℕ
  pub secs_per_pg : ℕ
  pub pgsz : ℕ
  pub pgs_per_flashpg : ℕ
  pub flashpgs_per_blk : ℕ
  pub slc_flashpgs_per_blk : ℕ
  pub pgs_per_oneshotpg : ℕ
  pub slc_pgs_per_oneshotpg : ℕ
  pub oneshotpgs_per_blk : ℕ
  pub slc_oneshotpgs_per_blk : ℕ
  pub pgs_per_blk : ℕ
  pub slc_pgs_per_blk : ℕ
  pub blks_per_pl : ℕ
  pub slc_blks_per_pl : ℕ
  pub pls_per_lun : ℕ
  pub luns_per_ch : ℕ
  pub nchs : ℕ
  pub cell_mode : ℕ
  pub write_unit_size : ℕ
  pub write_early_completion : Bool
  pub pg_4kb_rd_lat : ℕ → ℕ
  pub pg_rd_lat : ℕ → ℕ
  pub pg_wr_lat : ℕ
  pub blk_er_lat : ℕ
  pub max_ch_xfer_size : ℕ
  pub fw_4kb_rd_lat : ℕ
  pub fw_rd_lat : ℕ
  pub fw_wbuf_lat0 : ℕ
  pub fw_wbuf_lat1 : ℕ
  pub fw_ch_xfer_lat : ℕ
  pub ch_bandwidth : ℕ
  pub pcie_bandwidth : ℕ
  pub secs_per_blk : ℕ
  pub slc_secs_per_blk : ℕ
  pub secs_per_pl : ℕ
  pub slc_secs_per_pl : ℕ
  pub secs_per_lun : ℕ
  pub slc_secs_per_lun : ℕ
  pub secs_per_ch : ℕ
  pub tt_secs : ℕ
  pub slc_tt_secs : ℕ
  pub tlc_tt_secs : ℕ
  pub pgs_per_pl : ℕ
  pub slc_pgs_per_pl : ℕ
  pub pgs_per_lun : ℕ
  pub slc_pgs_per_lun : ℕ
  pub pgs_per_ch : ℕ
  pub slc_pgs_per_ch : ℕ
  pub tt_pgs : ℕ
  pub slc_tt_pgs : ℕ
  pub tlc_tt_pgs : ℕ
  pub blks_per_lun : ℕ
  pub blks_per_ch : ℕ
  pub tt_blks : ℕ
  pub secs_per_line : ℕ
  pub slc_secs_per_line : ℕ
  pub pgs_per_line : ℕ
  pub slc_pgs_per_line : ℕ
  pub blks_per_line : ℕ
  pub tt_lines : ℕ
  pub slc_tt_lines : ℕ
  pub tlc_tt_lines : ℕ
  pub pls_per_ch : ℕ
  pub tt_pls : ℕ
  pub tt_luns : ℕ
  pub write_buffer_size : ℕ

-- the latencies by cell type: LSB, MSB, CSB
abbrev read_4kb_latency : ℕ → ℕ
read_4kb_latency cell = if cell == 0 then 29760 else if cell == 1 then 41760 else 35760

abbrev read_latency : ℕ → ℕ
read_latency cell = if cell == 0 then 30013 else if cell == 1 then 42013 else 36013

-- `unsigned long` * `int`
abbrev scaled : ℕ → ℕ → ℕ
scaled a n = mul64 a (sext n)

-- The part of `ssd_init_params` that follows from the size of a block: everything else is a
-- constant of the configuration.
unfoldable pub params_of_blk_size : ℕ → ℕ → SsdParams
params_of_blk_size nchs blk_size =
    let secs_per_pg : ℕ = 4096 / lba_size in
    let pgsz : ℕ = mul32 lba_size secs_per_pg in
    let pgs_per_oneshotpg : ℕ = oneshot_page_size / pgsz in
    let slc_pgs_per_oneshotpg : ℕ = slc_oneshot_page_size / pgsz in
    let oneshotpgs_per_blk : ℕ = w32 (div_round_up blk_size oneshot_page_size) in
    let slc_oneshotpgs_per_blk : ℕ = w32 (div_round_up blk_size slc_oneshot_page_size) in
    let pgs_per_blk = mul32 pgs_per_oneshotpg oneshotpgs_per_blk in
    let slc_pgs_per_blk = mul32 slc_pgs_per_oneshotpg slc_oneshotpgs_per_blk in
    let secs_per_blk = sext (mul32 secs_per_pg pgs_per_blk) in
    let slc_secs_per_blk = sext (mul32 secs_per_pg slc_pgs_per_blk) in
    let secs_per_pl = scaled secs_per_blk blks_per_pln in
    let slc_secs_per_pl = scaled slc_secs_per_blk blks_per_pln in
    let secs_per_lun = scaled secs_per_pl plns_per_lun in
    let slc_secs_per_lun = scaled slc_secs_per_pl plns_per_lun in
    -- the assignment to `secs_per_ch` that stands
    let secs_per_ch = scaled slc_secs_per_lun luns_per_nand_ch in
    let tt_secs = scaled secs_per_ch nchs in
    let slc_tt_secs = mul64 tt_secs slc_portion / 100 in
    let pgs_per_pl = sext (mul32 pgs_per_blk blks_per_pln) in
    let slc_pgs_per_pl = sext (mul32 slc_pgs_per_blk blks_per_pln) in
    let pgs_per_lun = scaled pgs_per_pl plns_per_lun in
    let slc_pgs_per_lun = scaled slc_pgs_per_pl plns_per_lun in
    let pgs_per_ch = scaled pgs_per_lun luns_per_nand_ch in
    let tt_pgs = scaled pgs_per_ch nchs in
    let slc_tt_pgs = mul64 tt_pgs slc_portion / 100 in
    let blks_per_lun = sext (mul32 blks_per_pln plns_per_lun) in
    let blks_per_ch = scaled blks_per_lun luns_per_nand_ch in
    let pls_per_ch = sext (mul32 plns_per_lun luns_per_nand_ch) in
    let tt_luns = sext (mul32 luns_per_nand_ch nchs) in
    let pgs_per_line = scaled tt_luns pgs_per_blk in
    let slc_pgs_per_line = scaled tt_luns slc_pgs_per_blk in
    let slc_tt_lines = mul64 blks_per_lun slc_portion / 100 in
    record {
      secsz = lba_size;
      secs_per_pg = secs_per_pg;
      pgsz = pgsz;
      pgs_per_flashpg = flash_page_size / pgsz;
      flashpgs_per_blk = mul32 (oneshot_page_size / flash_page_size) oneshotpgs_per_blk;
      slc_flashpgs_per_blk = mul32 (slc_oneshot_page_size / flash_page_size) slc_oneshotpgs_per_blk;
      pgs_per_oneshotpg = pgs_per_oneshotpg;
      slc_pgs_per_oneshotpg = slc_pgs_per_oneshotpg;
      oneshotpgs_per_blk = oneshotpgs_per_blk;
      slc_oneshotpgs_per_blk = slc_oneshotpgs_per_blk;
      pgs_per_blk = pgs_per_blk;
      slc_pgs_per_blk = slc_pgs_per_blk;
      blks_per_pl = blks_per_pln;
      slc_blks_per_pl = slc_blks;
      pls_per_lun = plns_per_lun;
      luns_per_ch = luns_per_nand_ch;
      nchs = nchs;
      cell_mode = 3;
      write_unit_size = 512;
      write_early_completion = true;
      pg_4kb_rd_lat = read_4kb_latency;
      pg_rd_lat = read_latency;
      pg_wr_lat = 185000;
      blk_er_lat = 0;
      max_ch_xfer_size = 16 * 1024;
      fw_4kb_rd_lat = 21500;
      fw_rd_lat = 30490;
      fw_wbuf_lat0 = 4000;
      fw_wbuf_lat1 = 460;
      fw_ch_xfer_lat = 0;
      ch_bandwidth = 800;
      pcie_bandwidth = 3360;
      secs_per_blk = secs_per_blk;
      slc_secs_per_blk = slc_secs_per_blk;
      secs_per_pl = secs_per_pl;
      slc_secs_per_pl = slc_secs_per_pl;
      secs_per_lun = secs_per_lun;
      slc_secs_per_lun = slc_secs_per_lun;
      secs_per_ch = secs_per_ch;
      tt_secs = tt_secs;
      slc_tt_secs = slc_tt_secs;
      tlc_tt_secs = sub64 tt_secs slc_tt_secs;
      pgs_per_pl = pgs_per_pl;
      slc_pgs_per_pl = slc_pgs_per_pl;
      pgs_per_lun = pgs_per_lun;
      slc_pgs_per_lun = slc_pgs_per_lun;
      pgs_per_ch = pgs_per_ch;
      slc_pgs_per_ch = scaled slc_pgs_per_lun luns_per_nand_ch;
      tt_pgs = tt_pgs;
      slc_tt_pgs = slc_tt_pgs;
      tlc_tt_pgs = sub64 tt_pgs slc_tt_pgs;
      blks_per_lun = blks_per_lun;
      blks_per_ch = blks_per_ch;
      tt_blks = scaled blks_per_ch nchs;
      secs_per_line = scaled pgs_per_line secs_per_pg;
      slc_secs_per_line = scaled slc_pgs_per_line secs_per_pg;
      pgs_per_line = pgs_per_line;
      slc_pgs_per_line = slc_pgs_per_line;
      blks_per_line = tt_luns;
      tt_lines = blks_per_lun;
      slc_tt_lines = slc_tt_lines;
      tlc_tt_lines = sub64 blks_per_lun slc_tt_lines;
      pls_per_ch = pls_per_ch;
      tt_pls = scaled pls_per_ch nchs;
      tt_luns = tt_luns;
      write_buffer_size = global_wb_size;
    }

-- `none` where the assertion on the channels fails, or for a division by zero. The other
-- assertions of the C function are between constants that satisfy them.
pub ssd_init_params : ℕ → ℕ → Option SsdParams
ssd_init_params capacity nparts = check (ltb 0 nparts && (nand_channels % nparts == 0)) (
    let nchs = nand_channels / nparts in
    let blks = mul32 (mul32 (mul32 blks_per_pln plns_per_lun) luns_per_nand_ch) nchs in
    some (params_of_blk_size nchs (div_round_up (capacity / nparts) (sext blks))))
