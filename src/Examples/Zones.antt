-- ===== src/Examples/Zones.antt =====
-- The theorems on zoned namespaces, on a device of four zones of 128 blocks.
use wild_cat.Zns.State.{ZnsFtl}
use wild_cat.Zns.Manage.{SendReply}
use wild_cat.Common.{ℕ, ◌*◌, ◌≡◌, ◌<◌, refl, true, false, some, List, [], ◌∷◌, arith}
use wild_cat.World.{World}
use wild_cat.Ssd.Buffer.{buffer_init}
use wild_cat.Ssd.Channel.{ChannelModel, chmodel_init}
use wild_cat.Ssd.Params.{params_of_blk_size}
use wild_cat.Ssd.Nand.{Ssd, ssd_init}
use wild_cat.Zns.State.{invalid_write, ZnsFtl, active_zone, open_zone, zrwa_zone}
use wild_cat.Zns.Account.{IsAccounted}
use wild_cat.Zns.Machine.{write, Outcome, IsSameDevice}
use wild_cat.Zns.Namespace.{ZnsNamespace, ZnsRequest}
use wild_cat.Zns.Init.{ZnsConfig, zns_params, init_descriptor, zns_init_ftl, zns_init_namespace}
use wild_cat.Zns.Init.Fresh.{
  IsConfig, fresh-Accounts, zns_params-IsZnsParams, zns_init_namespace-IsAccounted,
}
use wild_cat.Zns.Manage.{zsa_reset, send_all, SendRequest, zns_zmgmt_send, with_status}
use wild_cat.Zns.Manage.Actions.{zns_zmgmt_send-IsAccounted}
use wild_cat.Zns.Manage.ResetAll.{AllUsable, send_all-reset}
use wild_cat.Zns.Manage.Surrender.{emptied}
use wild_cat.Zns.Write.{admit_write, write_plain}
use wild_cat.Zns.Write.Refused.{charged, refusal, write_plain-refused}
use wild_cat.Zns.Write.Admit.{admit_write-Outcome}
use wild_cat.Zns.Report.{PrpCopy, io_size_at, prp_transfer_data}
use wild_cat.Zns.Report.Copies.{Tiles, AreAt, address_of_round, prp_transfer_data-Tiles}
use wild_cat.Examples.Device.{small}

abbrev zone_config : ZnsConfig
zone_config = record {
  zone_size_cfg = 65536;
  dies_per_zone_cfg = 1;
  max_zrwa_zones = 4;
  zone_wb_size_cfg = 0;
  zrwa_size_cfg = 16384;
  zrwafg_size_cfg = 4096;
  zrwa_buffer_size_cfg = 32768;
}

abbrev zone_ssd : Ssd
zone_ssd = ssd_init small 0

zone_config-IsConfig : IsConfig zone_config zone_ssd.sp.pgsz 262144
unfolding ssd_init params_of_blk_size
zone_config-IsConfig = record {
  sector = omega arith;
  word = omega arith;
  zones_fill = refl;
  pages_fill = refl;
  limit = omega arith;
}

abbrev zoned : ZnsFtl
zoned =
    zns_init_ftl (zns_params zone_config zone_ssd.sp 262144) zone_ssd (buffer_init 65536) (λ a. 0)

zoned-IsAccounted : IsAccounted zoned
unfolding ssd_init params_of_blk_size
zoned-IsAccounted =
    fresh-Accounts (zns_params zone_config zone_ssd.sp 262144)
      (zns_params-IsZnsParams zone_config zone_ssd.sp 262144 zone_config-IsConfig) zone_ssd
      (buffer_init 65536) (λ a. 0) refl

zone_inside : 1 < zoned.zp.nr_zones
unfolding zns_init_ftl
zone_inside = omega arith

abbrev reset_all : SendRequest
reset_all = record { zsa = zsa_reset; select_all = true; zsaso = false; slba = 0; nsecs_start = 5 }

link : ChannelModel
link = chmodel_init 4000

clocks : World
clocks = record { clock = λ n. 100 * n; clock_reads = 0; random = λ n. n; random_reads = 0 }

zns_zmgmt_send-IsAccounted_example :
    (reply : SendReply) × (f' : ZnsFtl) × (zns_zmgmt_send zoned reset_all ≡ some (reply, f'))
    × IsAccounted f'
    × IsSameDevice zoned f'
zns_zmgmt_send-IsAccounted_example =
    zns_zmgmt_send-IsAccounted zoned reset_all zoned-IsAccounted (λ e. ground (arith, e)) (λ e. cc)

-- a write of 8 blocks at the start of zone 1
admit_write-Outcome_example : Outcome zoned 1 (write 8) (with_status (admit_write zoned 1 128 8))
unfolding zns_init_ftl init_descriptor
admit_write-Outcome_example =
    admit_write-Outcome zoned 1 8 zone_inside (omega arith) (omega arith) 128 zoned-IsAccounted refl

zns_init_namespace-IsAccounted_example :
    (ns : ZnsNamespace) × (zns_init_namespace zone_config zone_ssd link
        (buffer_init 65536)
        clocks
        (λ a. 0)
        262144
      ≡ some ns)
    × IsAccounted ns.ftl
unfolding ssd_init params_of_blk_size
zns_init_namespace-IsAccounted_example =
    zns_init_namespace-IsAccounted zone_config zone_ssd link (buffer_init 65536) clocks (λ a. 0)
      262144 zone_config-IsConfig refl

-- 6000 bytes to a page, from its byte 512 on, and to the page at 12288
prp_transfer_data-Tiles_example :
    (cs : List PrpCopy) × (prp_transfer_data (λ k. 0) 8704 12288 6000 ≡ some cs)
    × Tiles 0 6000 cs
    × AreAt (address_of_round (λ k. 0) 8704 12288 6000) 0 cs
unfolding io_size_at
prp_transfer_data-Tiles_example =
    prp_transfer_data-Tiles (λ k. 0) 8704 12288 6000
      (record { single = λ _. refl; whole = λ l k. omega arith; room = λ l. omega arith })

-- and the copies are these
two_copies :
    prp_transfer_data (λ k. 0) 8704 12288 6000
    ≡ some (
        record { paddr = 8704; offset = 0; size = 3584 }
        ∷ record { paddr = 12288; offset = 3584; size = 2416 }
        ∷ [])
unfolding prp_transfer_data io_size_at
two_copies = refl

zoned-AllUsable : AllUsable zoned
unfolding zns_init_ftl init_descriptor
zoned-AllUsable z lt = (λ e. ground (arith, e), λ e. ground (arith, e))

send_all-reset_example :
    (f' : ZnsFtl) × (send_all zoned.zp.nr_zones zoned zsa_reset false ≡ some f')
    × ((z : ℕ) → z < zoned.zp.nr_zones → f'.zone_descs z ≡ emptied (zoned.zone_descs z))
    × ((f'.res_infos active_zone).acquired_cnt ≡ 0)
    × ((f'.res_infos open_zone).acquired_cnt ≡ 0)
    × ((f'.res_infos zrwa_zone).acquired_cnt ≡ 0)
send_all-reset_example = send_all-reset zoned false zoned-IsAccounted zoned-AllUsable

abbrev zoned_namespace : ZnsNamespace
zoned_namespace = record { ftl = zoned; pcie = link; world = clocks; scheduled = [] }

-- eight blocks, eight blocks behind the write pointer of zone 1
abbrev skipping_write : ZnsRequest
skipping_write = record { append = false; slba = 136; len = 7; fua = false; nsecs_start = 40 }

skipping_write-refused : (admit_write (charged zoned skipping_write) 1 136 8).0 ≡ invalid_write
unfolding zns_init_ftl init_descriptor admit_write ssd_init params_of_blk_size
skipping_write-refused = refl

write_plain-refused_example :
    write_plain zoned_namespace skipping_write
    ≡ some (
      refusal skipping_write 136 invalid_write,
      record zoned_namespace { ftl = charged zoned skipping_write },
    )
unfolding zns_init_ftl init_descriptor ssd_init params_of_blk_size
write_plain-refused_example =
    write_plain-refused zoned_namespace skipping_write zoned-IsAccounted (omega arith) refl
      (omega arith) (omega arith) (omega arith) invalid_write (λ e. ground (arith, e))
      skipping_write-refused
