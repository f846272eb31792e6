-- ===== src/ConvFtl/Remap.antt =====
-- conv_ftl.c: the steps of `conv_write` and `gc_write_page` on the tables of the FTL.
pub mod Consistent
pub mod Move
use wild_cat.Common.{ℕ, Option, some, if◌then◌else◌, ◌>>=◌, add64}
use wild_cat.Ssd.Nand.{Ppa, invalid_lpn}
use wild_cat.ConvFtl.State.{user_io, ConvFtl}
use wild_cat.ConvFtl.Mapping.{get_maptbl_ent, set_maptbl_ent, set_rmap_ent, mapped_ppa}
use wild_cat.ConvFtl.WritePointer.{get_new_page}
use wild_cat.ConvFtl.Pages.{mark_page_invalid, mark_page_valid}

-- `conv_write` on the old page; `time` is what the clock reads
pub unmap_page : ConvFtl → Ppa → ℕ → Option ConvFtl
unmap_page ftl old time =
    mark_page_invalid ftl old time >>= λ ftl₁. set_rmap_ent ftl₁ invalid_lpn old

-- `conv_write` and `gc_write_page` on the new page
pub map_page : ConvFtl → ℕ → Ppa → Option ConvFtl
map_page ftl lpn p =
    set_maptbl_ent ftl lpn p >>= λ ftl₁. set_rmap_ent ftl₁ lpn p >>= λ ftl₂. mark_page_valid ftl₂ p

-- The part of `conv_write` that moves the logical page to a new physical page, which it returns.
-- `time` is what the clock reads if an old page is invalidated.
unfoldable pub remap : ConvFtl → ℕ → ℕ → Option (Ppa × ConvFtl)
unfolding unmap_page map_page
remap ftl local_lpn time =
    let old = get_maptbl_ent ftl local_lpn in
    (if mapped_ppa old then unmap_page ftl old time else some ftl) >>= λ ftl₀.
    get_new_page ftl₀ user_io >>= λ p. map_page ftl₀ local_lpn p >>= λ ftl₁.
    some (p, record ftl₁ { host_written_pages = add64 ftl₁.host_written_pages 1 })
