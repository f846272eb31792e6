-- ===== src/Ssd/Params/Geometry.antt =====
-- The geometry that `ssd_init_params` computes: which of its totals fit together.
use wild_cat.Common.{ℕ, ◌-◌, ◌*◌, ◌/◌, ◌^◌, ◌≤◌, ◌<◌, ◌≡◌, refl, some, arith, w32}
use wild_cat.Ssd.Channel.{div_round_up}
use wild_cat.Ssd.Params.{
  SsdParams, params_of_blk_size, ssd_init_params, ssd_partitions, oneshot_page_size,
}

-- The page totals are products of the counts at each level, every block is whole word lines, and
-- the largest numbers fit their types.
pub record IsGeometry (p : SsdParams) : Type 0 where
  pub pl : p.pgs_per_pl ≡ p.blks_per_pl * p.pgs_per_blk
  pub lun : p.pgs_per_lun ≡ p.pls_per_lun * p.pgs_per_pl
  pub ch : p.pgs_per_ch ≡ p.luns_per_ch * p.pgs_per_lun
  pub all : p.tt_pgs ≡ p.nchs * p.pgs_per_ch
  pub line : p.pgs_per_line ≡ p.nchs * p.luns_per_ch * p.pgs_per_blk
  pub wordlines : p.pgs_per_blk ≡ p.oneshotpgs_per_blk * p.pgs_per_oneshotpg
  pub some_pages : 0 < p.pgs_per_oneshotpg
  pub one_plane : p.pls_per_lun ≡ 1
  pub lines : p.tt_lines ≡ p.blks_per_pl
  pub pgs_fit : p.pgs_per_blk ≤ 2 ^ 16
  pub blks_fit : p.blks_per_pl < 2 ^ 16
  pub chs_fit : p.nchs < 2 ^ 8
  pub luns_fit : p.luns_per_ch < 2 ^ 8
  pub plane_fits : p.blks_per_pl * p.pgs_per_blk < 2 ^ 31
  pub line_fits : p.pgs_per_line < 2 ^ 31

-- the word lines of a block, of which `params_of_blk_size` makes everything else
words_bound :
    (blk_size : ℕ)
    → blk_size ≤ 2 ^ 28 - 2 ^ 16
    → let w = w32 (div_round_up blk_size oneshot_page_size) in
      (w ≤ 5461) × (blk_size ≤ w * oneshot_page_size)
words_bound blk_size small = omega arith

pub params-IsGeometry :
    (blk_size : ℕ) → blk_size ≤ 2 ^ 28 - 2 ^ 16 → IsGeometry (params_of_blk_size 1 blk_size)
unfolding params_of_blk_size
params-IsGeometry blk_size small =
    let words = (words_bound blk_size small).0 in
    record {
      pl = ground (arith, words);
      lun = ground (arith, words);
      ch = ground (arith, words);
      all = ground (arith, words);
      line = ground (arith, words);
      wordlines = ground (arith, words);
      some_pages = omega arith;
      one_plane = refl;
      lines = refl;
      pgs_fit = ground (arith, words);
      blks_fit = omega arith;
      chs_fit = omega arith;
      luns_fit = omega arith;
      plane_fits = ground (arith, words);
      line_fits = ground (arith, words);
    }

params_cover :
    (blk_size : ℕ)
    → blk_size ≤ 2 ^ 28 - 2 ^ 16
    → let p = params_of_blk_size 1 blk_size in blk_size * 4096 ≤ p.tt_pgs * p.pgsz
unfolding params_of_blk_size
params_cover blk_size small = ground (arith, words_bound blk_size small)

-- For a device of at most 2 TiB and its four partitions, `ssd_init_params` succeeds: the totals of its
-- pages are the products of the counts at each level without wrap-around, a block is made of whole
-- word lines, the counts fit the fields of an address, and the pages hold at least the capacity of a
-- partition. Totals of sectors and of SLC pages are not stated.
pub ssd_init_params-IsGeometry :
    (capacity : ℕ)
    → capacity ≤ 2 ^ 41
    → (p : SsdParams) × (ssd_init_params capacity ssd_partitions ≡ some p)
      × IsGeometry p
      × (capacity / ssd_partitions ≤ p.tt_pgs * p.pgsz)
unfolding ssd_init_params
ssd_init_params-IsGeometry capacity small =
    let blk_size = div_round_up (capacity / 4) 4096 in
    let bound : blk_size ≤ 2 ^ 28 - 2 ^ 16 = omega arith in
    let covered : capacity / 4 ≤ blk_size * 4096 = omega arith in
    (
      params_of_blk_size 1 blk_size,
      refl,
      params-IsGeometry blk_size bound,
      omega (arith, covered, params_cover blk_size bound),
    )
