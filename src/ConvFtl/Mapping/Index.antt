-- ===== src/ConvFtl/Mapping/Index.antt =====
-- `ppa2pgidx` numbers the physical pages of a consistent geometry without gaps or collisions.
use native.Mathlib.Nat.{mul-le-mul}
use wild_cat.Common.{ℕ, ◌+◌, ◌*◌, ◌^◌, ◌≤◌, ◌<◌, ◌≡◌, sym, ◌∙◌, true, some, arith}
use wild_cat.Common.Radix.{digits_eq, digits-lt}
use wild_cat.Ssd.Params.{SsdParams}
use wild_cat.Ssd.Params.Geometry.{IsGeometry}
use wild_cat.Ssd.Nand.{Ppa}
use wild_cat.ConvFtl.State.{ConvFtl}
use wild_cat.ConvFtl.Mapping.{page_index, ppa2pgidx, valid_ppa}

-- the coordinates of an address lie in the device
pub record InDevice (spp : SsdParams) (p : Ppa) : Type 0 where
  pub ch : p.ch < spp.nchs
  pub lun : p.lun < spp.luns_per_ch
  pub pl : p.pl < spp.pls_per_lun
  pub blk : p.blk < spp.blks_per_pl
  pub pg : p.pg < spp.pgs_per_blk

pub valid_ppa-InDevice : (spp : SsdParams) (p : Ppa) → valid_ppa spp p ≡ true → InDevice spp p
unfolding valid_ppa
valid_ppa-InDevice spp p h = ground arith

pub InDevice-valid_ppa : (spp : SsdParams) (p : Ppa) → InDevice spp p → valid_ppa spp p ≡ true
unfolding valid_ppa
InDevice-valid_ppa spp p h = ground arith

-- the place of a page, by rows of LUNs, of blocks and of pages
abbrev pub place : SsdParams → Ppa → ℕ
place spp p = ((p.ch * spp.luns_per_ch + p.lun) * spp.blks_per_pl + p.blk) * spp.pgs_per_blk + p.pg

place-lt :
    (spp : SsdParams) (p : Ppa)
    → InDevice spp p
    → place spp p < spp.nchs * spp.luns_per_ch * spp.blks_per_pl * spp.pgs_per_blk
place-lt spp p h = digits-lt _ _ _ _ (digits-lt _ _ _ _ (digits-lt _ _ _ _ h.ch h.lun) h.blk) h.pg

module _ (spp : SsdParams) (g : IsGeometry spp) where
  total_lem : spp.tt_pgs ≡ spp.nchs * spp.luns_per_ch * spp.blks_per_pl * spp.pgs_per_blk
  total_lem = rw (g.all, g.ch, g.lun, g.pl, g.one_plane) (omega arith)

  total_small : spp.tt_pgs < 2 ^ 48
  total_small =
      let plane = spp.blks_per_pl * spp.pgs_per_blk in
      let sides : spp.nchs * spp.luns_per_ch ≤ 2 ^ 8 * 2 ^ 8 =
        mul-le-mul {n₂ = 2 ^ 8} {m₂ = 2 ^ 8} (omega (arith, g.chs_fit))
          (omega (arith, g.luns_fit)) in
      let whole : spp.nchs * spp.luns_per_ch * plane ≤ 2 ^ 8 * 2 ^ 8 * 2 ^ 31 =
        mul-le-mul {m₂ = 2 ^ 31} sides (omega (arith, g.plane_fits)) in
      omega (arith, whole, total_lem)

  module _ (p : Ppa) (h : InDevice spp p) where
    -- the products of the sum, below the total
    terms :
        p.ch * spp.pgs_per_ch
          + p.lun * spp.pgs_per_lun
          + p.pl * spp.pgs_per_pl
          + p.blk * spp.pgs_per_blk
          + p.pg
        ≡ place spp p
    terms =
        let first : p.pl ≡ 0 = omega (arith, h.pl, g.one_plane) in
        rw (first, g.ch, g.lun, g.pl, g.one_plane) (omega arith)

    block_small : p.blk * spp.pgs_per_blk < 2 ^ 31
    block_small =
        let le : p.blk * spp.pgs_per_blk ≤ spp.blks_per_pl * spp.pgs_per_blk =
          mul-le-mul {m₁ = spp.pgs_per_blk} (omega (arith, h.blk)) (omega arith) in
        omega (arith, le, g.plane_fits)

    page_index_lem : page_index spp p ≡ place spp p
    page_index_lem =
        let bound : place spp p < 2 ^ 48 =
          omega (arith, place-lt spp p h, total_lem, total_small) in
        ground (arith, terms, bound, block_small)

    -- The index is in the table, so the assertion of `ppa2pgidx` holds.
    pub page_index-lt : page_index spp p < spp.tt_pgs
    page_index-lt = omega (arith, page_index_lem, place-lt spp p h, total_lem)

  -- Two addresses with one index are the same page.
  pub page_index-injective :
      (p q : Ppa)
      → InDevice spp p
      → InDevice spp q
      → page_index spp p ≡ page_index spp q
      → (p.ch ≡ q.ch) × (p.lun ≡ q.lun) × (p.pl ≡ q.pl) × (p.blk ≡ q.blk) × (p.pg ≡ q.pg)
  page_index-injective p q hp hq e =
      let same : place spp p ≡ place spp q = sym (page_index_lem p hp) ∙ e ∙ page_index_lem q hq in
      let (rows, pg) = digits_eq _ _ _ _ spp.pgs_per_blk hp.pg hq.pg same in
      let (luns, blk) = digits_eq _ _ _ _ spp.blks_per_pl hp.blk hq.blk rows in
      let (ch, lun) = digits_eq _ _ _ _ spp.luns_per_ch hp.lun hq.lun luns in
      (ch, lun, omega (arith, hp.pl, hq.pl, g.one_plane), blk, pg)

-- In a consistent geometry, `ppa2pgidx` succeeds on every address in the device, its index is
-- below the number of pages, and no two pages share an index.
pub ppa2pgidx_numbers :
    (ftl : ConvFtl) (p q : Ppa)
    → IsGeometry ftl.ssd.sp
    → valid_ppa ftl.ssd.sp p ≡ true
    → valid_ppa ftl.ssd.sp q ≡ true
    → (i : ℕ) × (j : ℕ) × (ppa2pgidx ftl p ≡ some i)
      × (ppa2pgidx ftl q ≡ some j)
      × (i < ftl.ssd.sp.tt_pgs)
      × (i ≡ j → (p.ch ≡ q.ch) × (p.lun ≡ q.lun) × (p.pl ≡ q.pl) × (p.blk ≡ q.blk) × (p.pg ≡ q.pg))
unfolding ppa2pgidx
ppa2pgidx_numbers ftl p q g hp hq =
    let spp = ftl.ssd.sp in
    let ip = valid_ppa-InDevice spp p hp in
    let iq = valid_ppa-InDevice spp q hq in
    let lp = page_index-lt spp g p ip in
    let lq = page_index-lt spp g q iq in
    (
      page_index spp p,
      page_index spp q,
      ground (arith, lp),
      ground (arith, lq),
      lp,
      page_index-injective spp g p q ip iq,
    )
