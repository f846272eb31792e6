-- ===== src/ConvFtl/Namespace.antt =====
-- conv_ftl.c and nvmev.h: a namespace of several FTLs, its requests and its replies. Logical page
-- `lpn` lies in the FTL `lpn % nr_parts`, as its page `lpn / nr_parts`.
use wild_cat.Common.{ℕ, ◌+◌, ◌/◌, Bool, false, List, update, add64, mul64}
use wild_cat.World.{World}
use wild_cat.Ssd.Buffer.{Buffer}
use wild_cat.Ssd.Channel.{ChannelModel}
use wild_cat.Ssd.Params.{SsdParams}
use wild_cat.ConvFtl.State.{ConvFtl}
use wild_cat.ConvFtl.Copy.{Dev}

-- a call of `schedule_internal_operation` (io.c): the write buffer gets `released` bytes back at
-- the time `target`
pub record Release : Type 0 where
  pub target : ℕ
  pub released : ℕ

-- the namespace: its FTLs, and what they share
pub record Namespace : Type 0 where
  pub ftls : ℕ → ConvFtl
  pub nr_parts : ℕ
  pub pcie : ChannelModel
  pub world : World
  pub write_buffer : Buffer
  pub scheduled : List Release

-- the fields of a read or write command, and of its request, that are used
pub record Request : Type 0 where
  pub slba : ℕ
  pub len : ℕ
  pub fua : Bool
  pub nsecs_start : ℕ

pub data Status : Type 0 where
  success lba_range internal_error : Status

-- `nvmev_result`; the flag is what the handler returns
pub record Reply : Type 0 where
  pub handled : Bool
  pub status : Status
  pub nsecs_target : ℕ

abbrev pub dev_of : Namespace → ℕ → Dev
dev_of ns k = record { ftl = ns.ftls k; pcie = ns.pcie; world = ns.world }

abbrev pub with_dev : Namespace → ℕ → Dev → Namespace
with_dev ns k v = record ns { ftls = update ns.ftls k v.ftl; pcie = v.pcie; world = v.world }

-- what stays to do where a command fails
abbrev pub refused : Status → Namespace → Reply × Namespace
refused status ns = (record { handled = false; status = status; nsecs_target = 0 }, ns)

-- the first and the last logical page of a request
abbrev pub start_lpn : SsdParams → Request → ℕ
start_lpn spp req = req.slba / spp.secs_per_pg

abbrev pub end_lpn : SsdParams → Request → ℕ
end_lpn spp req = add64 req.slba req.len / spp.secs_per_pg

-- `LBA_TO_BYTE(nr_lba)`
abbrev pub request_bytes : Request → ℕ
request_bytes req = mul64 (req.len + 1) 512
