-- ===== src/ConvFtl/Copy.antt =====
-- conv_ftl.c: the copy of valid pages to the open lines for hot and for cold pages.
use wild_cat.Common.{
  ℕ, zero, suc, ◌+◌, ◌%◌, ◌^◌, false, Option, none, some, ◌==◌, if◌then◌else◌, ◌>>=◌, check, add64,
  mul32, sext,
}
use wild_cat.World.{World, now, tick}
use wild_cat.Ssd.Channel.{ChannelModel}
use wild_cat.Ssd.Nand.{Ppa, Ssd, get_pg}
use wild_cat.Ssd.Timing.{NandOp, nand_read, nand_write, nand_nop, NandCmd, ssd_advance_nand}
use wild_cat.ConvFtl.State.{IoType, gc_io_hot, gc_io_cold, ConvFtl}
use wild_cat.ConvFtl.Score.{page_is_hot}
use wild_cat.ConvFtl.Mapping.{get_rmap_ent, valid_lpn, last_pg_in_wordline}
use wild_cat.ConvFtl.WritePointer.{get_new_page, advance_write_pointer}
use wild_cat.ConvFtl.Pages.{is_free, is_valid}
use wild_cat.ConvFtl.Remap.{map_page}

-- one FTL, with what it shares with the others
pub record Dev : Type 0 where
  pub ftl : ConvFtl
  pub pcie : ChannelModel
  pub world : World

abbrev pub with_ftl : Dev → ConvFtl → Dev
with_ftl v ftl = record v { ftl = ftl }

-- `ktime_get_ns` moves on to the next reading
abbrev pub ticked : Dev → Dev
ticked v = record v { world = tick v.world }

-- `ssd_advance_nand` on the FTL's device
pub advance_nand : Dev → NandCmd → Option (ℕ × Dev)
advance_nand v c =
    ssd_advance_nand (record { ssd = v.ftl.ssd; pcie = v.pcie; world = v.world }) c >>= λ (t, s).
    some (t, record v { ftl = record (v.ftl) { ssd = s.ssd }; pcie = s.pcie; world = s.world })

-- The same where `enable_gc_delay` asks for it, without the time.
unfoldable pub gc_delay : Dev → NandOp → ℕ → Ppa → Option Dev
unfolding advance_nand
gc_delay v op xfer_size p =
    if v.ftl.cp.enable_gc_delay
    then (advance_nand v (record {
      cmd = op;
      xfer_size = xfer_size;
      stime = 0;
      interleave_pci_dma = false;
      ppa = p;
    })
        >>= λ (_, v'). some v')
    else some v

-- the part of `gc_write_page` on the tables: the page moves to `new_ppa`
move_page : ConvFtl → ℕ → IoType → Ppa → Option ConvFtl
move_page ftl lpn t new_ppa = map_page ftl lpn new_ppa >>= λ ftl₁.
    advance_write_pointer (record ftl₁ { gc_copied_pages = add64 ftl₁.gc_copied_pages 1 }) t

pub gc_write_page : Dev → Ppa → Option Dev
unfolding move_page gc_delay
gc_write_page v old_ppa =
    let spp = v.ftl.ssd.sp in
    get_rmap_ent v.ftl old_ppa >>= λ lpn. check (valid_lpn spp lpn) (
      let t = if page_is_hot v.ftl lpn (now v.world) then gc_io_hot else gc_io_cold in
      get_new_page v.ftl t >>= λ new_ppa. move_page v.ftl lpn t new_ppa >>= λ ftl.
      if last_pg_in_wordline spp new_ppa
      then gc_delay (ticked (with_ftl v ftl)) nand_write
          (sext (mul32 spp.pgsz spp.pgs_per_oneshotpg)) new_ppa
      else gc_delay (ticked (with_ftl v ftl)) nand_nop 0 new_ppa)

-- `copy.g.pg++`
abbrev pub next_pg : Ppa → Ppa
next_pg p = record p { pg = (p.pg + 1) % 2 ^ 16 }

-- The first loop of `clean_one_flashpg`: the number of valid pages among the `n` from `p` on.
count_valid : ℕ → Ssd → Ppa → Option ℕ
count_valid zero ssd p = some 0
count_valid (suc n) ssd p =
    let st = (get_pg ssd p).status in
    let rest = count_valid n ssd (next_pg p) in
    if is_free st then none else (rest >>= λ k. some (if is_valid st then k + 1 else k))

-- its second loop
copy_valid : ℕ → Dev → Ppa → Option Dev
unfolding gc_write_page
copy_valid zero v p = some v
copy_valid (suc n) v p =
    (if is_valid (get_pg v.ftl.ssd p).status then gc_write_page v p else some v) >>= λ v'.
    copy_valid n v' (next_pg p)

unfoldable pub clean_one_flashpg : Dev → Ppa → Option Dev
unfolding count_valid copy_valid gc_delay
clean_one_flashpg v p =
    let spp = v.ftl.ssd.sp in
    count_valid spp.pgs_per_flashpg v.ftl.ssd p >>= λ cnt.
    if cnt == 0
    then some v
    else (gc_delay v nand_read (sext (mul32 spp.pgsz cnt)) p >>= λ v'.
        copy_valid spp.pgs_per_flashpg v' p)
