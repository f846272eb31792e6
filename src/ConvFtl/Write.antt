-- ===== src/ConvFtl/Write.antt =====
-- conv_ftl.c: `conv_write`.
use wild_cat.Common.{
  ℕ, zero, suc, ◌+◌, ◌-◌, ◌/◌, ◌%◌, true, false, ◌&&◌, ◌||◌, not, Option, some, ◌∷◌, leb, ltb,
  if◌then◌else◌, ◌>>=◌, update, add32, add64, mul32, mul64, sext, max,
}
use wild_cat.World.{now}
use wild_cat.Ssd.Buffer.{buffer_allocate}
use wild_cat.Ssd.Nand.{Ppa}
use wild_cat.Ssd.Timing.{nand_write, ssd_advance_write_buffer}
use wild_cat.ConvFtl.State.{GcMode, greedy, cb, cat, rl, user_io, PageMeta, RlConfig, ConvFtl}
use wild_cat.ConvFtl.Score.{th_hot, calc_hot_degree}
use wild_cat.ConvFtl.Mapping.{get_maptbl_ent, mapped_ppa, last_pg_in_wordline}
use wild_cat.ConvFtl.WritePointer.{advance_write_pointer}
use wild_cat.ConvFtl.Remap.{remap}
use wild_cat.ConvFtl.Copy.{Dev, with_ftl, ticked, advance_nand}
use wild_cat.ConvFtl.Gc.{consume_write_credit, check_and_refill_write_credit}
use wild_cat.ConvFtl.Namespace.{
  Namespace, Request, success, lba_range, internal_error, Reply, dev_of, with_dev, refused,
  start_lpn, end_lpn, request_bytes,
}

-- the agent's window of hot writes
pub count_hot_write : RlConfig → PageMeta → ℕ → ℕ → RlConfig
count_hot_write r pm cur_time pgs_per_line =
    let repeated = ltb 0 pm.update_cnt in
    let recent = ltb pm.last_write_time cur_time && ltb (cur_time - pm.last_write_time) th_hot in
    let hot = if repeated && recent then add32 r.window_hot 1 else r.window_hot in
    let total = add32 r.window_total 1 in
    if leb pgs_per_line total
    then record r { prev_hot_pct = mul32 hot 100 / total; window_hot = 0; window_total = 0 }
    else record r { window_hot = hot; window_total = total }

abbrev pub watch_write : GcMode → Dev → ℕ → Dev
watch_write rl v local_lpn =
    let ftl = v.ftl in
    with_ftl (ticked v) (record ftl {
      rl = count_hot_write ftl.rl (ftl.page_meta local_lpn) (now v.world) ftl.ssd.sp.pgs_per_line;
    })
watch_write greedy v local_lpn = v
watch_write cb v local_lpn = v
watch_write cat v local_lpn = v

-- the update of `page_meta` and of the moving average of hot degrees
heat_page : ConvFtl → ℕ → ℕ → ConvFtl
heat_page ftl local_lpn time =
    let pm : PageMeta = record {
      update_cnt = add32 (ftl.page_meta local_lpn).update_cnt 1;
      last_write_time = time;
    } in
    let degree = calc_hot_degree pm time in
    record ftl {
      page_meta = update ftl.page_meta local_lpn pm;
      avg_hot_degree = add64 (mul64 ftl.avg_hot_degree 15) (mul64 degree 16) / 16;
    }

-- The write of a whole word line, with the release of its part of the buffer.
program_wordline : Namespace → ℕ → Ppa → ℕ → ℕ → Option (ℕ × Namespace)
program_wordline ns part p stime latest =
    let spp = (ns.ftls part).ssd.sp in
    if last_pg_in_wordline spp p
    then (advance_nand (dev_of ns part) (record {
      cmd = nand_write;
      xfer_size = sext (mul32 spp.pgsz spp.pgs_per_oneshotpg);
      stime = stime;
      interleave_pci_dma = false;
      ppa = p;
    })
        >>= λ (t, v). some (
          max t latest,
          record (with_dev ns part v) {
            scheduled =
                record { target = t; released = sext (mul32 spp.pgs_per_oneshotpg spp.pgsz) }
                ∷ ns.scheduled;
          },
        ))
    else some (latest, ns)

-- the body of `conv_write`'s loop
write_page : GcMode → Namespace → ℕ → ℕ → ℕ → Option (ℕ × Namespace)
unfolding remap count_hot_write heat_page program_wordline
write_page mode ns lpn stime latest =
    let part = lpn % ns.nr_parts in
    let local_lpn = lpn / ns.nr_parts in
    let v = dev_of ns part in
    let v' = if mapped_ppa (get_maptbl_ent v.ftl local_lpn) then ticked v else v in
    remap v.ftl local_lpn (now v.world) >>= λ (p, ftl₁).
    let v₁ = watch_write mode (with_ftl v' ftl₁) local_lpn in
    let v₂ = with_ftl (ticked v₁) (heat_page v₁.ftl local_lpn (now v₁.world)) in
    advance_write_pointer v₂.ftl user_io >>= λ ftl₃.
    program_wordline (with_dev ns part (with_ftl v₂ ftl₃)) part p stime latest >>= λ (latest', ns').
    let v₄ = dev_of ns' part in
    check_and_refill_write_credit mode (with_ftl v₄ (consume_write_credit v₄.ftl)) >>= λ v₅.
    some (latest', with_dev ns' part v₅)

write_pages : ℕ → GcMode → Namespace → ℕ → ℕ → ℕ → Option (ℕ × Namespace)
unfolding write_page
write_pages zero mode ns lpn stime latest = some (latest, ns)
write_pages (suc n) mode ns lpn stime latest =
    write_page mode ns lpn stime latest >>= λ (latest', ns').
    write_pages n mode ns' (lpn + 1) stime latest'

unfoldable pub conv_write : GcMode → Namespace → Request → Option (Reply × Namespace)
unfolding write_pages
conv_write mode ns req =
    let ftl = ns.ftls 0 in
    let spp = ftl.ssd.sp in
    let bytes = request_bytes req in
    if leb spp.tt_pgs (end_lpn spp req / ns.nr_parts)
    then some (refused lba_range ns)
    else (buffer_allocate ns.write_buffer bytes >>= λ (alloc, buf).
        if ltb alloc bytes
        then some (refused internal_error (record ns { write_buffer = buf }))
        else (ssd_advance_write_buffer (record { ssd = ftl.ssd; pcie = ns.pcie; world = ns.world })
              req.nsecs_start bytes
            >>= λ (xfer, s).
                write_pages (end_lpn spp req + 1 - start_lpn spp req) mode
                  (record ns { write_buffer = buf; pcie = s.pcie; world = s.world })
                  (start_lpn spp req) xfer xfer
                >>= λ (latest, ns'). some (
                  record {
                    handled = true;
                    status = success;
                    nsecs_target =
                        if req.fua || not spp.write_early_completion then latest else xfer;
                  },
                  ns',
                )))
