-- ===== src/ConvFtl/Io.antt =====
-- conv_ftl.c: `conv_flush`, and the dispatch of the commands of a namespace.
use wild_cat.Common.{ℕ, zero, suc, true, Option, some, max}
use wild_cat.World.{now, tick}
use wild_cat.Ssd.Timing.{ssd_next_idle_time}
use wild_cat.ConvFtl.State.{GcMode}
use wild_cat.ConvFtl.Namespace.{Namespace, Request, success, Reply}
use wild_cat.ConvFtl.Read.{conv_read}
use wild_cat.ConvFtl.Write.{conv_write}

-- the time of `conv_flush`: the latest at which one of the first `n` FTLs is idle
latest_idle : ℕ → Namespace → ℕ → ℕ × Namespace
latest_idle zero ns latest = (latest, ns)
latest_idle (suc n) ns latest =
    let (t, ns') = latest_idle n ns latest in
    (
      max t (ssd_next_idle_time (ns'.ftls n).ssd (now ns'.world)),
      record ns' { world = tick ns'.world },
    )

-- `conv_flush`, but for the statistics that it prints
pub conv_flush : Namespace → Reply × Namespace
unfolding latest_idle
conv_flush ns =
    let start = now ns.world in
    let (latest, ns') = latest_idle ns.nr_parts (record ns { world = tick ns.world }) start in
    (record { handled = true; status = success; nsecs_target = latest }, ns')

pub data Command : Type 0 where
  write_cmd read_cmd : Request → Command
  flush_cmd : Command
  -- an opcode that is only reported; the result is left as it was
  other_cmd : Reply → Command

unfoldable pub conv_proc_nvme_io_cmd : GcMode → Namespace → Command → Option (Reply × Namespace)
unfolding conv_write conv_read conv_flush
conv_proc_nvme_io_cmd mode ns (write_cmd req) = conv_write mode ns req
conv_proc_nvme_io_cmd mode ns (read_cmd req) = conv_read ns req
conv_proc_nvme_io_cmd mode ns flush_cmd = some (conv_flush ns)
conv_proc_nvme_io_cmd mode ns (other_cmd reply) = some (record reply { handled = true }, ns)
