-- ===== src/Zns/Namespace.antt =====
-- zns_ftl.h and nvmev.h: a zoned namespace with what it shares with the device model, its read and
-- write commands and their replies.
use wild_cat.Common.{ℕ, suc, ◌*◌, Bool, true, not, ◌||◌, Option, some, List, ◌>>=◌, if◌then◌else◌}
use wild_cat.World.{World}
use wild_cat.Ssd.Channel.{ChannelModel}
use wild_cat.Ssd.Timing.{Sim, NandCmd, ssd_advance_nand, ssd_advance_write_buffer, ssd_advance_pcie}
use wild_cat.Zns.State.{ZnsStatus, ZnsFtl}

-- the buffers of an FTL: the drive's own, and those of a zone
pub data BufferRef : Type 0 where
  drive_buffer : BufferRef
  zone_buffer zrwa_area : ℕ → BufferRef

-- a call of `schedule_internal_operation` (io.c)
pub record ZnsRelease : Type 0 where
  pub buffer : BufferRef
  pub target : ℕ
  pub released : ℕ

-- A zoned namespace has one FTL.
pub record ZnsNamespace : Type 0 where
  pub ftl : ZnsFtl
  pub pcie : ChannelModel
  pub world : World
  pub scheduled : List ZnsRelease

-- The fields of a read, write or append command that are used, and the start time of its request;
-- `len` is one less than the number of blocks.
pub record ZnsRequest : Type 0 where
  pub append : Bool
  pub slba : ℕ
  pub len : ℕ
  pub fua : Bool
  pub nsecs_start : ℕ

-- What the handler returns, `nvmev_result`, and the start block that the command names afterwards
pub record ZnsReply : Type 0 where
  pub handled : Bool
  pub status : ZnsStatus
  pub nsecs_target : ℕ
  pub assigned : ℕ

abbrev pub nr_lbas_from_rw_cmd : ZnsRequest → ℕ
nr_lbas_from_rw_cmd req = suc req.len

-- `LBA_TO_BYTE`, of at most 2 ^ 55 blocks
abbrev pub lba_to_byte : ℕ → ℕ
lba_to_byte n = n * 512

abbrev pub sim_of : ZnsNamespace → Sim
sim_of ns = record { ssd = ns.ftl.ssd; pcie = ns.pcie; world = ns.world }

abbrev pub with_sim : ZnsNamespace → Sim → ZnsNamespace
with_sim ns s = record ns { ftl = record (ns.ftl) { ssd = s.ssd }; pcie = s.pcie; world = s.world }

unfoldable pub advance_nand : ZnsNamespace → NandCmd → Option (ℕ × ZnsNamespace)
advance_nand ns c = ssd_advance_nand (sim_of ns) c >>= λ (t, s). some (t, with_sim ns s)

unfoldable pub advance_write_buffer : ZnsNamespace → ℕ → ℕ → Option (ℕ × ZnsNamespace)
advance_write_buffer ns t bytes =
    ssd_advance_write_buffer (sim_of ns) t bytes >>= λ (t', s). some (t', with_sim ns s)

unfoldable pub advance_pcie : ZnsNamespace → ℕ → ℕ → Option (ℕ × ZnsNamespace)
advance_pcie ns t bytes =
    ssd_advance_pcie (sim_of ns) t bytes >>= λ (t', s). some (t', with_sim ns s)

-- the end of a write, at the label `out`
abbrev pub finish_write : ZnsNamespace → ZnsRequest → ℕ → ZnsStatus → ℕ → ℕ → ZnsReply
finish_write ns req slba status latest xfer_completed = record {
  handled = true;
  status = status;
  nsecs_target =
      if req.fua || not ns.ftl.ssd.sp.write_early_completion then latest else xfer_completed;
  assigned = slba;
}
