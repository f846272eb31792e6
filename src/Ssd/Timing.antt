-- ===== src/Ssd/Timing.antt =====
-- ssd.c: simulated time. An operation returns the time of its completion, and moves the times at
-- which the LUN, its channel and the PCIe link are free.
pub mod Idle
use wild_cat.Common.{
  ℕ, zero, suc, ◌-◌, Bool, true, false, Option, none, some, ◌==◌, if◌then◌else◌, ◌>>=◌, min, max,
  add64, mul64,
}
use wild_cat.World.{World, now, tick}
use wild_cat.Ssd.Params.{SsdParams}
use wild_cat.Ssd.Channel.{ChannelModel, chmodel_request, div_round_up}
use wild_cat.Ssd.Nand.{
  Ppa, ppa_bits, unmapped_ppa, Ssd, NandLun, SsdChannel, get_ch, get_lun, get_cell, set_ch, set_lun,
}

-- what a timed operation reads and writes
pub record Sim : Type 0 where
  pub ssd : Ssd
  pub pcie : ChannelModel
  pub world : World

pub data NandOp : Type 0 where
  nand_read nand_write nand_erase nand_nop : NandOp

-- `struct nand_cmd`; its `type` is not read
pub record NandCmd : Type 0 where
  pub cmd : NandOp
  pub xfer_size : ℕ
  pub stime : ℕ
  pub interleave_pci_dma : Bool
  pub ppa : Ppa

pub ssd_advance_pcie : Sim → ℕ → ℕ → Option (ℕ × Sim)
ssd_advance_pcie s request_time len =
    chmodel_request s.pcie (now s.world) request_time len >>= λ (t, pcie).
    some (t, record s { pcie = pcie; world = tick s.world })

unfoldable pub ssd_advance_write_buffer : Sim → ℕ → ℕ → Option (ℕ × Sim)
unfolding ssd_advance_pcie
ssd_advance_write_buffer s request_time len =
    let spp = s.ssd.sp in
    let fw = add64 request_time spp.fw_wbuf_lat0 in
    let start = add64 fw (mul64 spp.fw_wbuf_lat1 (div_round_up len 4096)) in
    ssd_advance_pcie s start len

-- `chmodel_request` on the channel of an address
advance_channel : Sim → Ppa → ℕ → ℕ → Option (ℕ × Sim)
advance_channel s p request_time len =
    let c = get_ch s.ssd p in
    chmodel_request c.perf_model (now s.world) request_time len >>= λ (t, model).
    some
      (t, record s { ssd = set_ch s.ssd p (record c { perf_model = model }); world = tick s.world })

-- The `while (remaining)` of a read: the channel's last end time and the completion time. A read
-- of no bytes would leave both unset (`none`).
pub read_transfer : ℕ → Sim → NandCmd → ℕ → ℕ → Option (ℕ × ℕ × Sim)
unfolding advance_channel ssd_advance_pcie
read_transfer zero s c chnl_stime remaining = none
read_transfer (suc fuel) s c chnl_stime remaining =
    let xfer_size = min remaining s.ssd.sp.max_ch_xfer_size in
    let left = remaining - xfer_size in
    elim (advance_channel s c.ppa chnl_stime xfer_size) [
      | none ↦ none
      | some (chnl_etime, s₁) ↦
          elim (if c.interleave_pci_dma
            then ssd_advance_pcie s₁ chnl_etime xfer_size
            else some (chnl_etime, s₁)) [
              | none ↦ none
              | some (completed, s₂) ↦ elim (left == 0) [
                | true ↦ some (chnl_etime, completed, s₂)
                | false ↦ read_transfer fuel s₂ c chnl_etime left
              ]
            ]
    ]

-- `lun->next_lun_avail_time = t`
abbrev pub set_lun_avail : Sim → Ppa → ℕ → Sim
set_lun_avail s p t = record s {
  ssd = set_lun s.ssd p (record (get_lun s.ssd p) { next_lun_avail_time = t });
}

-- the `switch` of `ssd_advance_nand`, from the command's start time
nand_operation : NandOp → Sim → NandCmd → ℕ → Option (ℕ × Sim)
unfolding read_transfer advance_channel get_cell
nand_operation nand_read s c cmd_stime =
    let spp = s.ssd.sp in
    let nand_stime = max (get_lun s.ssd c.ppa).next_lun_avail_time cmd_stime in
    let cell = get_cell s.ssd c.ppa in
    let nand_etime =
      add64 nand_stime
        (if c.xfer_size == 4096 then spp.pg_4kb_rd_lat cell else spp.pg_rd_lat cell) in
    if c.xfer_size == 0
    then none
    else (read_transfer c.xfer_size s c nand_etime c.xfer_size >>= λ (chnl_etime, completed, s').
        some (completed, set_lun_avail s' c.ppa chnl_etime))
nand_operation nand_write s c cmd_stime =
    let chnl_stime = max (get_lun s.ssd c.ppa).next_lun_avail_time cmd_stime in
    advance_channel s c.ppa chnl_stime c.xfer_size >>= λ (chnl_etime, s').
    let nand_etime = add64 chnl_etime s.ssd.sp.pg_wr_lat in
    some (nand_etime, set_lun_avail s' c.ppa nand_etime)
nand_operation nand_erase s c cmd_stime =
    let nand_stime = max (get_lun s.ssd c.ppa).next_lun_avail_time cmd_stime in
    let nand_etime = add64 nand_stime s.ssd.sp.blk_er_lat in
    some (nand_etime, set_lun_avail s c.ppa nand_etime)
nand_operation nand_nop s c cmd_stime =
    let nand_stime = max (get_lun s.ssd c.ppa).next_lun_avail_time cmd_stime in
    some (nand_stime, set_lun_avail s c.ppa nand_stime)

unfoldable pub ssd_advance_nand : Sim → NandCmd → Option (ℕ × Sim)
unfolding nand_operation ppa_bits
ssd_advance_nand s c =
    let from_clock = c.stime == 0 in
    let cmd_stime = if from_clock then now s.world else c.stime in
    let s' = if from_clock then record s { world = tick s.world } else s in
    if ppa_bits c.ppa == ppa_bits unmapped_ppa
    then some (cmd_stime, s')
    else nand_operation c.cmd s' c cmd_stime

-- the latest of the times at which the LUNs `0 .. n - 1` are free
latest_lun : ℕ → (ℕ → NandLun) → ℕ → ℕ
latest_lun zero luns latest = latest
latest_lun (suc n) luns latest = max (latest_lun n luns latest) (luns n).next_lun_avail_time

latest_channel : ℕ → SsdParams → (ℕ → SsdChannel) → ℕ → ℕ
unfolding latest_lun
latest_channel zero spp chs latest = latest
latest_channel (suc n) spp chs latest =
    latest_lun spp.luns_per_ch (chs n).luns (latest_channel n spp chs latest)

-- `clock` is what `__get_ioclock` reads
pub ssd_next_idle_time : Ssd → ℕ → ℕ
unfolding latest_channel
ssd_next_idle_time ssd clock = latest_channel ssd.sp.nchs ssd.sp ssd.chs clock
