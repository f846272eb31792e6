-- ===== src/ConvFtl/Mapping.antt =====
-- conv_ftl.c: the table from logical to physical pages, its inverse, and tests on addresses.
pub mod Index
use wild_cat.Common.{
  ℕ, ◌-◌, ◌/◌, ◌%◌, Bool, ◌&&◌, not, Option, some, ltb, ◌==◌, ◌>>=◌, check, update, add64, mul64,
  mul32, sext,
}
use wild_cat.Ssd.Params.{SsdParams}
use wild_cat.Ssd.Nand.{Ppa, ppa_bits, blk_in_ssd, unmapped_ppa, invalid_lpn}
use wild_cat.ConvFtl.State.{ConvFtl}

unfoldable pub get_maptbl_ent : ConvFtl → ℕ → Ppa
get_maptbl_ent ftl lpn = ftl.maptbl lpn

unfoldable pub set_maptbl_ent : ConvFtl → ℕ → Ppa → Option ConvFtl
set_maptbl_ent ftl lpn p =
    check (ltb lpn ftl.ssd.sp.tt_pgs) (some (record ftl { maptbl = update ftl.maptbl lpn p }))

-- The sum of `ppa2pgidx`. The block's term is a product of `int`s, the others are 64 bits wide.
abbrev pub page_index : SsdParams → Ppa → ℕ
page_index spp p =
    let ch = mul64 p.ch spp.pgs_per_ch in
    let lun = mul64 p.lun spp.pgs_per_lun in
    let pl = mul64 p.pl spp.pgs_per_pl in
    let blk = sext (mul32 p.blk spp.pgs_per_blk) in add64 (add64 (add64 (add64 ch lun) pl) blk) p.pg

unfoldable pub ppa2pgidx : ConvFtl → Ppa → Option ℕ
ppa2pgidx ftl p = let idx = page_index ftl.ssd.sp p in check (ltb idx ftl.ssd.sp.tt_pgs) (some idx)

unfoldable pub get_rmap_ent : ConvFtl → Ppa → Option ℕ
get_rmap_ent ftl p = ppa2pgidx ftl p >>= λ idx. some (ftl.rmap idx)

unfoldable pub set_rmap_ent : ConvFtl → ℕ → Ppa → Option ConvFtl
set_rmap_ent ftl lpn p =
    ppa2pgidx ftl p >>= λ idx. some (record ftl { rmap = update ftl.rmap idx lpn })

unfoldable pub init_maptbl : ℕ → Ppa
init_maptbl _ = unmapped_ppa

unfoldable pub init_rmap : ℕ → ℕ
init_rmap _ = invalid_lpn

unfoldable pub valid_ppa : SsdParams → Ppa → Bool
valid_ppa spp p =
    ltb p.ch spp.nchs
    && (ltb p.lun spp.luns_per_ch
        && (ltb p.pl spp.pls_per_lun && (ltb p.blk spp.blks_per_pl && ltb p.pg spp.pgs_per_blk)))

unfoldable pub valid_lpn : SsdParams → ℕ → Bool
valid_lpn spp lpn = ltb lpn spp.tt_pgs

unfoldable pub mapped_ppa : Ppa → Bool
mapped_ppa p = not (ppa_bits p == ppa_bits unmapped_ppa)

unfoldable pub last_pg_in_wordline : SsdParams → Ppa → Bool
last_pg_in_wordline spp p = p.pg % spp.pgs_per_oneshotpg == spp.pgs_per_oneshotpg - 1

unfoldable pub is_same_flash_page : SsdParams → Ppa → Ppa → Bool
is_same_flash_page spp p q =
    (blk_in_ssd p == blk_in_ssd q) && (p.pg / spp.pgs_per_flashpg == q.pg / spp.pgs_per_flashpg)
