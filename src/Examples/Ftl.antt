-- ===== src/Examples/Ftl.antt =====
-- The theorems on the tables and the write pointer, on the device of `Examples.Device`.
use wild_cat.Common.{ℕ, ◌≡◌, refl, true, some, arith, ◌<◌, ◌≤◌, Bool, ◌*◌}
use wild_cat.Ssd.Params.{SsdParams, params_of_blk_size, ssd_init_params, ssd_partitions}
use wild_cat.Ssd.Params.Geometry.{IsGeometry, ssd_init_params-IsGeometry}
use wild_cat.Ssd.Nand.{ppa_bits, ssd_init, pg_invalid, get_pg}
use wild_cat.Ssd.Nand.Access.{SamePage}
use wild_cat.ConvFtl.State.{ConvFtl, WritePointer}
use wild_cat.ConvFtl.Mapping.{get_maptbl_ent, ppa2pgidx, mapped_ppa}
use wild_cat.ConvFtl.Mapping.Index.{ppa2pgidx_numbers}
use wild_cat.ConvFtl.WritePointer.{step_pointer}
use wild_cat.ConvFtl.WritePointer.Walk.{InLine, Stepped, step_pointer-Stepped}
use wild_cat.ConvFtl.Pages.{validate_page}
use wild_cat.ConvFtl.Remap.{remap, map_page}
use wild_cat.ConvFtl.Remap.Consistent.{remapped}
use wild_cat.ConvFtl.Remap.Move.{Moved, remap-Moved, map_page-Moved}
use wild_cat.ConvFtl.Numeric.{isqrt_u64}
use wild_cat.ConvFtl.Numeric.Sqrt.{IsSqrt, isqrt_u64-IsSqrt}
use wild_cat.ConvFtl.Mapping.{valid_ppa}
use wild_cat.ConvFtl.Init.{conv_init_params, conv_init_ftl}
use wild_cat.ConvFtl.Init.Ready.{first_page, IsReady, conv_init_ftl-IsReady}
use wild_cat.Ssd.Timing.{ssd_next_idle_time}
use wild_cat.Ssd.Timing.Idle.{IsIdleTime, ssd_next_idle_time-IsIdleTime}
use wild_cat.ConvFtl.Pages.{mark_block_free}
use wild_cat.ConvFtl.Pages.Erase.{Erased, mark_block_free-Erased}
use wild_cat.Examples.Device.{
  small, small-IsGeometry, at_page, pointer, at_page-in_device, three_inside, used_ftl,
  used-IsConsistent, used_free,
}

-- the logical page 3 moves from the page 0 to the page 1
remap-Moved_example :
    (ftl' : ConvFtl) × (remap used_ftl 3 7 ≡ some (at_page 1, ftl'))
    × Moved used_ftl ftl' 3 (at_page 1)
    × (mapped_ppa (get_maptbl_ent used_ftl 3) ≡ true
        → (get_pg ftl'.ssd (get_maptbl_ent used_ftl 3)).status ≡ pg_invalid)
unfolding remapped validate_page ssd_init
remap-Moved_example =
    remap-Moved used_ftl 3 7 small-IsGeometry three_inside (at_page-in_device 1 (omega arith))
      used_free used-IsConsistent

-- that page was mapped
used_mapped : mapped_ppa (get_maptbl_ent used_ftl 3) ≡ true
unfolding remapped mapped_ppa get_maptbl_ent ppa_bits
used_mapped = refl

-- the collector copies it to the page 1
map_page-Moved_example :
    (ftl' : ConvFtl) × (map_page used_ftl 3 (at_page 1) ≡ some ftl')
    × Moved used_ftl ftl' 3 (at_page 1)
unfolding remapped validate_page ssd_init
map_page-Moved_example =
    map_page-Moved used_ftl 3 (at_page 1) small-IsGeometry three_inside
      (at_page-in_device 1 (omega arith)) used_free used-IsConsistent

ppa2pgidx_numbers_example :
    (i : ℕ) × (j : ℕ) × (ppa2pgidx used_ftl (at_page 0) ≡ some i)
    × (ppa2pgidx used_ftl (at_page 1) ≡ some j)
    × (i < used_ftl.ssd.sp.tt_pgs)
    × (i ≡ j → SamePage (at_page 0) (at_page 1))
unfolding remapped validate_page ssd_init
ppa2pgidx_numbers_example =
    ppa2pgidx_numbers used_ftl (at_page 0) (at_page 1) small-IsGeometry
      (at_page-in_device 0 (omega arith)) (at_page-in_device 1 (omega arith))

-- the last page of a line
last_of_line : WritePointer
last_of_line = record { curline = 0; ch = 0; lun = 1; pg = 11; blk = 0; pl = 0 }

last-InLine : InLine small last_of_line
unfolding last_of_line params_of_blk_size
last-InLine = record { pg = omega arith; ch = omega arith; lun = omega arith }

step_pointer-Stepped_example :
    (w' : WritePointer) × (at_end : Bool) × Stepped small last_of_line w' at_end
step_pointer-Stepped_example = step_pointer-Stepped small last_of_line small-IsGeometry last-InLine

step_at_end : step_pointer small last_of_line ≡ some (pointer 0, true)
unfolding step_pointer last_of_line params_of_blk_size
step_at_end = refl

-- a device of 64 GiB
ssd_init_params-IsGeometry_example :
    (p : SsdParams) × (ssd_init_params 68719476736 ssd_partitions ≡ some p)
    × IsGeometry p
    × (17179869184 ≤ p.tt_pgs * p.pgsz)
ssd_init_params-IsGeometry_example = ssd_init_params-IsGeometry 68719476736 (omega arith)

isqrt_u64-IsSqrt_example : (r : ℕ) × (isqrt_u64 1000 ≡ some r) × IsSqrt 1000 r
isqrt_u64-IsSqrt_example = isqrt_u64-IsSqrt 1000 (omega arith)

isqrt_1000 : isqrt_u64 1000 ≡ some 31
unfolding isqrt_u64
isqrt_1000 = refl

small_has_three : valid_ppa small (first_page 2) ≡ true
unfolding valid_ppa params_of_blk_size
small_has_three = refl

conv_init_ftl-IsReady_example :
    (ftl : ConvFtl) × (conv_init_ftl (conv_init_params small) (ssd_init small 1) ≡ some ftl)
    × (ftl.ssd.sp ≡ small)
    × IsReady ftl small.tt_lines
conv_init_ftl-IsReady_example =
    conv_init_ftl-IsReady (conv_init_params small) small 1 small-IsGeometry small_has_three

ssd_next_idle_time-IsIdleTime_example :
    IsIdleTime used_ftl.ssd.sp.nchs used_ftl.ssd.sp.luns_per_ch used_ftl.ssd.chs 40
      (ssd_next_idle_time used_ftl.ssd 40)
ssd_next_idle_time-IsIdleTime_example = ssd_next_idle_time-IsIdleTime used_ftl.ssd 40

mark_block_free-Erased_example : Erased used_ftl (mark_block_free used_ftl (at_page 0)) (at_page 0)
mark_block_free-Erased_example = mark_block_free-Erased used_ftl (at_page 0)
