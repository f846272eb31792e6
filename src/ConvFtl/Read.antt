-- ===== src/ConvFtl/Read.antt =====
-- conv_ftl.c: `conv_read`.
use wild_cat.Common.{
  ℕ, zero, suc, ◌+◌, ◌-◌, ◌*◌, ◌/◌, ◌%◌, true, false, ◌&&◌, ◌||◌, not, Option, some, leb, ltb,
  if◌then◌else◌, ◌>>=◌, add32, add64, max,
}
use wild_cat.Ssd.Nand.{Ppa}
use wild_cat.Ssd.Timing.{nand_read}
use wild_cat.ConvFtl.Mapping.{get_maptbl_ent, mapped_ppa, valid_ppa, is_same_flash_page}
use wild_cat.ConvFtl.Copy.{advance_nand}
use wild_cat.ConvFtl.Namespace.{
  Namespace, Request, success, lba_range, Reply, dev_of, with_dev, refused, start_lpn, end_lpn,
  request_bytes,
}

-- the variables of `conv_read`'s inner loop
pub record Reading : Type 0 where
  pub ns : Namespace
  pub prev : Ppa
  pub xfer_size : ℕ
  pub latest : ℕ

-- The read that has been put together is issued, if there is one.
issue_read : ℕ → ℕ → Reading → Option Reading
issue_read part stime r =
    if ltb 0 r.xfer_size
    then (advance_nand (dev_of r.ns part) (record {
      cmd = nand_read;
      xfer_size = r.xfer_size;
      stime = stime;
      interleave_pci_dma = true;
      ppa = r.prev;
    })
        >>= λ (t, v). some (record r { ns = with_dev r.ns part v; latest = max t r.latest }))
    else some r

-- one round of the inner loop
read_page : ℕ → ℕ → Reading → ℕ → Option Reading
unfolding issue_read
read_page part stime r local_lpn =
    let ftl = r.ns.ftls part in
    let spp = ftl.ssd.sp in
    let cur = get_maptbl_ent ftl local_lpn in
    if not (mapped_ppa cur) || not (valid_ppa spp cur)
    then some r
    else if mapped_ppa r.prev && is_same_flash_page spp cur r.prev
    then some (record r { xfer_size = add32 r.xfer_size spp.pgsz })
    else (issue_read part stime r >>= λ r'. some (record r' { xfer_size = spp.pgsz; prev = cur }))

read_pages : ℕ → ℕ → ℕ → Reading → ℕ → Option Reading
unfolding read_page
read_pages zero part stime r lpn = some r
read_pages (suc n) part stime r lpn = read_page part stime r (lpn / r.ns.nr_parts) >>= λ r'.
    read_pages n part stime r' (lpn + r.ns.nr_parts)

-- The outer loop: `n` more parts, from the page `start` on.
read_parts : ℕ → ℕ → ℕ → ℕ → Namespace → ℕ → Option (ℕ × Namespace)
unfolding read_pages
read_parts zero stime start end_lpn ns latest = some (latest, ns)
read_parts (suc n) stime start end_lpn ns latest =
    let part = start % ns.nr_parts in
    let first : Reading = record {
      ns = ns;
      prev = get_maptbl_ent (ns.ftls part) (start / ns.nr_parts);
      xfer_size = 0;
      latest = latest;
    } in
    let rounds = (end_lpn - start) / ns.nr_parts + 1 in
    elim (leb start end_lpn) [
      | false ↦ some (latest, ns)
      | true ↦ read_pages rounds part stime first start >>= λ r.
          issue_read part stime r >>= λ r'. read_parts n stime (start + 1) end_lpn r'.ns r'.latest
    ]

unfoldable pub conv_read : Namespace → Request → Option (Reply × Namespace)
unfolding read_parts
conv_read ns req =
    let spp = (ns.ftls 0).ssd.sp in
    let fw =
      if leb (request_bytes req) (4096 * ns.nr_parts) then spp.fw_4kb_rd_lat else spp.fw_rd_lat in
    if leb spp.tt_pgs (end_lpn spp req / ns.nr_parts)
    then some (refused lba_range ns)
    else (read_parts ns.nr_parts (add64 req.nsecs_start fw) (start_lpn spp req) (end_lpn spp req) ns
          req.nsecs_start
        >>= λ (latest, ns').
            some (record { handled = true; status = success; nsecs_target = latest }, ns'))
