-- ===== src/Examples/Device.antt =====
-- A device of one channel whose blocks are one word line of 12 pages, and an FTL in which the
-- logical page 3 is at the first page of the line 0.
use wild_cat.Common.{ℕ, ◌<◌, ◌≡◌, refl, true, false, arith}
use wild_cat.Ssd.Params.{SsdParams, params_of_blk_size}
use wild_cat.Ssd.Params.Geometry.{IsGeometry, params-IsGeometry}
use wild_cat.Ssd.Nand.{
  Ppa, ppa_bits, ssd_init, ssd_init_ch, ssd_init_nand_lun, ssd_init_nand_plane, ssd_init_nand_blk,
  ssd_init_nand_page, pg_free, get_pg,
}
use wild_cat.ConvFtl.State.{WritePointer, ConvFtl}
use wild_cat.ConvFtl.Lines.{init_lines}
use wild_cat.ConvFtl.Mapping.{init_maptbl, init_rmap, valid_ppa, mapped_ppa}
use wild_cat.ConvFtl.Pages.{validate_page}
use wild_cat.ConvFtl.Remap.Consistent.{
  IsConsistent, IsConsistentBut, remapped, remapped-IsConsistent,
}
use wild_cat.ConvFtl.Init.{init_page_meta, init_wear_gap, init_write_flow_control, conv_init_params}
use wild_cat.ConvFtl.Rl.{init_rl}

abbrev pub small : SsdParams
small = params_of_blk_size 1 4096

pub small-IsGeometry : IsGeometry small
small-IsGeometry = params-IsGeometry 4096 (omega arith)

false_apart : ¬ (false ≡ true)
false_apart = λ e. cc

abbrev pub at_page : ℕ → Ppa
at_page pg = record { pg = pg; blk = 0; pl = 0; lun = 0; ch = 0; rsv = 0 }

abbrev pub pointer : ℕ → WritePointer
pointer pg = record { curline = 0; ch = 0; lun = 0; pg = pg; blk = 0; pl = 0 }

abbrev pub empty_ftl : ConvFtl
empty_ftl = record {
  ssd = ssd_init small 0;
  cp = conv_init_params small;
  maptbl = init_maptbl;
  rmap = init_rmap;
  wp = pointer 1;
  gc_wp_hot = record (pointer 0) { curline = 1; blk = 1 };
  gc_wp_cold = record (pointer 0) { curline = 2; blk = 2 };
  lm = init_lines small;
  wfc = init_write_flow_control small;
  page_meta = init_page_meta;
  avg_hot_degree = 16;
  rl = init_rl;
  wgs = init_wear_gap;
  gc_count = 0;
  gc_copied_pages = 0;
  host_written_pages = 0;
}

empty-IsConsistentBut : IsConsistentBut empty_ftl 3
unfolding IsConsistentBut init_maptbl mapped_ppa ppa_bits
empty-IsConsistentBut l lt differs is_mapped = elim (false_apart is_mapped) [ ]

pub at_page-in_device : (pg : ℕ) → pg < 12 → valid_ppa small (at_page pg) ≡ true
unfolding valid_ppa params_of_blk_size
at_page-in_device pg lt = ground arith

pub three_inside : 3 < small.tt_pgs
unfolding params_of_blk_size
three_inside = omega arith

empty_free : (get_pg empty_ftl.ssd (at_page 0)).status ≡ pg_free
unfolding ssd_init ssd_init_ch ssd_init_nand_lun ssd_init_nand_plane ssd_init_nand_blk
    ssd_init_nand_page
empty_free = refl

-- the FTL with the logical page 3 at the page 0
abbrev pub used_ftl : ConvFtl
used_ftl = remapped empty_ftl 3 (at_page 0)

pub used-IsConsistent : IsConsistent used_ftl
unfolding ssd_init
used-IsConsistent =
    remapped-IsConsistent empty_ftl 3 (at_page 0) small-IsGeometry three_inside
      (at_page-in_device 0 (omega arith)) empty_free empty-IsConsistentBut

pub used_ssd : used_ftl.ssd.sp ≡ small
unfolding remapped validate_page ssd_init
used_ssd = refl

pub used_free : (get_pg used_ftl.ssd (at_page 1)).status ≡ pg_free
unfolding remapped validate_page ssd_init ssd_init_ch ssd_init_nand_lun ssd_init_nand_plane
    ssd_init_nand_blk ssd_init_nand_page
used_free = refl
