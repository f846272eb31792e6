-- ===== src/ConvFtl/Init.antt =====
-- conv_ftl.c: the initial state of an FTL and of a namespace.
pub mod Ready
use wild_cat.Common.{ℕ, ◌/◌, true, false, Option, some, [], ◌>>=◌, mul64, w32}
use wild_cat.Common.Int.{pos}
use wild_cat.World.{World}
use wild_cat.Ssd.Buffer.{buffer_init}
use wild_cat.Ssd.Params.{SsdParams, ssd_init_params, ssd_partitions}
use wild_cat.Ssd.Nand.{Ssd, ssd_init, ssd_init_pcie}
use wild_cat.ConvFtl.State.{
  user_io, gc_io_hot, gc_io_cold, ConvParams, PageMeta, WearGapStats, WriteFlowControl,
  WritePointer, ConvFtl,
}
use wild_cat.ConvFtl.Lines.{init_lines}
use wild_cat.ConvFtl.Mapping.{init_maptbl, init_rmap}
use wild_cat.ConvFtl.WritePointer.{prepare_write_pointer}
use wild_cat.ConvFtl.Rl.{init_rl}
use wild_cat.ConvFtl.Namespace.{Namespace}

-- `OP_AREA_PERCENT` is 0.28, so `pba_pcent` is 128.
pub conv_init_params : SsdParams → ConvParams
conv_init_params spp = record {
  gc_thres_lines = 3;
  gc_thres_lines_high = w32 (mul64 spp.tlc_tt_lines 15 / 100);
  enable_gc_delay = true;
  pba_pcent = 128;
}

unfoldable pub init_page_meta : ℕ → PageMeta
init_page_meta _ = record { update_cnt = 0; last_write_time = 0 }

unfoldable pub init_wear_gap : WearGapStats
init_wear_gap = record { prev_range = 0; accum_diff = pos 0; samples = 0; initialized = false }

unfoldable pub init_write_flow_control : SsdParams → WriteFlowControl
init_write_flow_control spp = record {
  write_credits = w32 spp.pgs_per_line;
  credits_to_refill = w32 spp.pgs_per_line;
}

-- a write pointer before `prepare_write_pointer`
abbrev pub unset : WritePointer
unset = record { curline = 0; ch = 0; lun = 0; pg = 0; blk = 0; pl = 0 }

-- the FTL before its write pointers are prepared
abbrev pub fresh_ftl : ConvParams → Ssd → ConvFtl
fresh_ftl cpp ssd = record {
  ssd = ssd;
  cp = cpp;
  maptbl = init_maptbl;
  rmap = init_rmap;
  wp = unset;
  gc_wp_hot = unset;
  gc_wp_cold = unset;
  lm = init_lines ssd.sp;
  wfc = init_write_flow_control ssd.sp;
  page_meta = init_page_meta;
  avg_hot_degree = 16;
  rl = init_rl;
  wgs = init_wear_gap;
  gc_count = 0;
  gc_copied_pages = 0;
  host_written_pages = 0;
}

pub conv_init_ftl : ConvParams → Ssd → Option ConvFtl
conv_init_ftl cpp ssd = prepare_write_pointer (fresh_ftl cpp ssd) user_io >>= λ ftl₁.
    prepare_write_pointer ftl₁ gc_io_hot >>= λ ftl₂. prepare_write_pointer ftl₂ gc_io_cold

-- `conv_init_namespace`: the namespace and its logical size. The parts share the PCIe model and
-- the write buffer of part 0.
unfoldable conv_init_namespace : ℕ → World → ℕ → Option (Namespace × ℕ)
unfolding conv_init_ftl conv_init_params
conv_init_namespace size world cpu = ssd_init_params size ssd_partitions >>= λ spp.
    conv_init_ftl (conv_init_params spp) (ssd_init spp cpu) >>= λ ftl. some (
      record {
        ftls = λ _. ftl;
        nr_parts = ssd_partitions;
        pcie = ssd_init_pcie spp;
        world = world;
        write_buffer = buffer_init spp.write_buffer_size;
        scheduled = [];
      },
      mul64 size 100 / (conv_init_params spp).pba_pcent,
    )
