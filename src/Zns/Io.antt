-- ===== src/Zns/Io.antt =====
-- zns_ftl.c and zns_read_write.c: `zns_write`, `zns_flush` and the dispatch of the commands.
use wild_cat.Common.{ℕ, Option, some, ◌>>=◌, if◌then◌else◌, max}
use wild_cat.World.{now, tick}
use wild_cat.Ssd.Timing.{ssd_next_idle_time}
use wild_cat.Zns.State.{lpn_to_zone, lba_to_lpn}
use wild_cat.Zns.Manage.{SendRequest, SendReply, zns_zmgmt_send}
use wild_cat.Zns.Namespace.{ZnsNamespace, ZnsRequest, ZnsReply}
use wild_cat.Zns.Write.{write_plain}
use wild_cat.Zns.Zrwa.{write_zrwa}
use wild_cat.Zns.Read.{zns_read}
use wild_cat.Zns.Report.{ZoneReport, RecvRequest, RecvReply, zns_zmgmt_recv}

unfoldable pub zns_write : ZnsNamespace → ZnsRequest → Option (ZnsReply × ZnsNamespace)
unfolding write_plain write_zrwa
zns_write ns req =
    let f = ns.ftl in
    if (f.zone_descs (lpn_to_zone f (lba_to_lpn f req.slba))).zrwav
    then write_zrwa ns req
    else write_plain ns req

-- the completion time of a flush
unfoldable pub zns_flush : ZnsNamespace → ℕ × ZnsNamespace
zns_flush ns =
    let start = now ns.world in
    let w = tick ns.world in
    (max start (ssd_next_idle_time ns.ftl.ssd (now w)), record ns { world = tick w })

pub data ZnsCommand : Type 0 where
  write_cmd read_cmd : ZnsRequest → ZnsCommand
  flush_cmd : ZnsCommand
  send_cmd : SendRequest → ZnsCommand
  recv_cmd : RecvRequest → (ℕ → ℕ) → ZnsCommand
  -- an opcode that is only reported; the result is left as it was
  other_cmd : ZnsCommand

-- what a command leaves in the result
pub data ZnsResult : Type 0 where
  io_result : ZnsReply → ZnsResult
  flush_result : ℕ → ZnsResult
  send_result : SendReply → ZnsResult
  recv_result : RecvReply → ZnsResult
  unset : ZnsResult

unfoldable pub zns_proc_nvme_io_cmd :
    ZnsNamespace → ZoneReport → ZnsCommand → Option (ZnsResult × ZnsNamespace × ZoneReport)
unfolding zns_write zns_read zns_flush zns_zmgmt_send zns_zmgmt_recv
zns_proc_nvme_io_cmd ns buffer (write_cmd req) =
    zns_write ns req >>= λ (r, ns'). some (io_result r, ns', buffer)
zns_proc_nvme_io_cmd ns buffer (read_cmd req) =
    zns_read ns req >>= λ (r, ns'). some (io_result r, ns', buffer)
zns_proc_nvme_io_cmd ns buffer flush_cmd =
    let (t, ns') = zns_flush ns in some (flush_result t, ns', buffer)
zns_proc_nvme_io_cmd ns buffer (send_cmd req) =
    zns_zmgmt_send ns.ftl req >>= λ (r, f). some (send_result r, record ns { ftl = f }, buffer)
zns_proc_nvme_io_cmd ns buffer (recv_cmd req entries) =
    zns_zmgmt_recv ns.ftl buffer entries req >>= λ (r, buffer'). some (recv_result r, ns, buffer')
zns_proc_nvme_io_cmd ns buffer other_cmd = some (unset, ns, buffer)
