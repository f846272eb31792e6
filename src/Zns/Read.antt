-- ===== src/Zns/Read.antt =====
-- zns_read_write.c: reads. A read that is refused is timed like one that is not.
use wild_cat.Common.{
  ℕ, zero, suc, ◌+◌, ◌-◌, ◌%◌, max, true, false, Option, none, some, leb, if◌then◌else◌, ◌>>=◌,
  add64, sub64, mul64, sext,
}
use wild_cat.Ssd.Timing.{nand_read}
use wild_cat.Zns.State.{
  state_offline, ZnsStatus, success, err_boundary, err_offline, ZnsFtl, lpn_to_zone, lba_to_lpn,
}
use wild_cat.Zns.Namespace.{
  ZnsNamespace, ZnsRequest, ZnsReply, nr_lbas_from_rw_cmd, lba_to_byte, advance_nand, advance_pcie,
}
use wild_cat.Zns.Write.{check_boundary_error, lpn_to_ppa, pgs_in_unit}

unfoldable pub read_status : ZnsFtl → ZnsRequest → ZnsStatus
read_status f req =
    let in_zone = check_boundary_error f req.slba (nr_lbas_from_rw_cmd req) in
    elim (f.zone_descs (lpn_to_zone f (lba_to_lpn f req.slba))).state [
      | state_offline ↦ err_offline
      | _ ↦ if in_zone then success else err_boundary
    ]

-- The loop over the pages `lpn .. elpn`, one flash page at a time. Without fuel it has no result.
read_units : ℕ → ZnsNamespace → ℕ → ℕ → ℕ → ℕ → Option (ℕ × ZnsNamespace)
unfolding advance_nand lpn_to_ppa
read_units zero ns elpn lpn stime latest = if leb lpn elpn then none else some (latest, ns)
read_units (suc fuel) ns elpn lpn stime latest = elim (leb lpn elpn) [
  | false ↦ some (latest, ns)
  | true ↦
      let spp = ns.ftl.ssd.sp in
      let p = lpn_to_ppa ns.ftl lpn in
      let pgs = pgs_in_unit spp.pgs_per_flashpg (p.pg % spp.pgs_per_flashpg) (elpn - lpn + 1) in
      advance_nand ns (record {
        cmd = nand_read;
        xfer_size = mul64 pgs (sext spp.pgsz);
        stime = stime;
        interleave_pci_dma = false;
        ppa = p;
      })
      >>= λ (t, ns'). read_units fuel ns' elpn (add64 lpn pgs) stime (max t latest)
]

unfoldable pub zns_read : ZnsNamespace → ZnsRequest → Option (ZnsReply × ZnsNamespace)
unfolding read_status read_units advance_pcie
zns_read ns req =
    let f = ns.ftl in
    let spp = f.ssd.sp in
    let nr_lba = nr_lbas_from_rw_cmd req in
    let slpn = lba_to_lpn f req.slba in
    let elpn = lba_to_lpn f (sub64 (add64 req.slba nr_lba) 1) in
    let fw = if leb (lba_to_byte nr_lba) 4096 then spp.fw_4kb_rd_lat else spp.fw_rd_lat in
    let stime = add64 req.nsecs_start fw in
    read_units (elpn + 1 - slpn) ns elpn slpn stime stime >>= λ (latest, ns₁).
    advance_pcie ns₁ latest (mul64 nr_lba (sext spp.secsz)) >>= λ (t, ns₂). some (
      record {
        handled = true;
        status = read_status f req;
        nsecs_target = max t latest;
        assigned = req.slba;
      },
      ns₂,
    )
