-- ===== src/ConvFtl/WritePointer.antt =====
-- conv_ftl.c: the three write pointers, which go through the pages of an open line.
mod Digits
pub mod Walk
use wild_cat.Common.{
  ℕ, ◌%◌, ◌^◌, Bool, true, false, ◌&&◌, Option, some, ltb, ◌==◌, if◌then◌else◌, ◌>>=◌, check, add32,
  sub32,
}
use wild_cat.Ssd.Params.{SsdParams}
use wild_cat.Ssd.Nand.{Ppa}
use wild_cat.ConvFtl.State.{IoType, user_io, gc_io_hot, gc_io_cold, WritePointer, ConvFtl}
use wild_cat.ConvFtl.Lines.{get_next_free_line, close_line}

-- `__get_wp`, and the write through the pointer that it returns
unfoldable pub get_wp : ConvFtl → IoType → WritePointer
get_wp ftl user_io = ftl.wp
get_wp ftl gc_io_hot = ftl.gc_wp_hot
get_wp ftl gc_io_cold = ftl.gc_wp_cold

unfoldable pub set_wp : ConvFtl → IoType → WritePointer → ConvFtl
set_wp ftl user_io w = record ftl { wp = w }
set_wp ftl gc_io_hot w = record ftl { gc_wp_hot = w }
set_wp ftl gc_io_cold w = record ftl { gc_wp_cold = w }

-- the assertion of `check_addr`, on two `int`s
pub check_addr : ℕ → ℕ → Bool
check_addr a max = ltb a (2 ^ 31) && (ltb max (2 ^ 31) && ltb a max)

unfoldable pub prepare_write_pointer : ConvFtl → IoType → Option ConvFtl
prepare_write_pointer ftl t = get_next_free_line ftl.lm >>= λ (cur, lm). some (
    set_wp (record ftl { lm = lm }) t
      (record { curline = cur; ch = 0; lun = 0; pg = 0; blk = (lm.lines cur).id; pl = 0 }))

-- The part of `advance_write_pointer` that moves inside a line. The flag says that the end of the
-- line is reached, and then `pg` is 0 again.
unfoldable pub step_pointer : SsdParams → WritePointer → Option (WritePointer × Bool)
unfolding check_addr
step_pointer spp w = check (check_addr w.pg spp.pgs_per_blk) (
    let w₁ = record w { pg = add32 w.pg 1 } in
    if w₁.pg % spp.pgs_per_oneshotpg == 0
    then (let w₂ = record w₁ { pg = sub32 w₁.pg spp.pgs_per_oneshotpg } in
        check (check_addr w₂.ch spp.nchs) (
          let w₃ = record w₂ { ch = add32 w₂.ch 1 } in
          if w₃.ch == spp.nchs
          then check (check_addr w₃.lun spp.luns_per_ch) (
              let w₄ = record w₃ { ch = 0; lun = add32 w₃.lun 1 } in
              if w₄.lun == spp.luns_per_ch
              then (let w₅ = record w₄ { lun = 0; pg = add32 w₄.pg spp.pgs_per_oneshotpg } in
                  if w₅.pg == spp.pgs_per_blk
                  then some (record w₅ { pg = 0 }, true)
                  else some (w₅, false))
              else some (w₄, false))
          else some (w₃, false)))
    else some (w₁, false))

-- A NULL from `get_next_free_line` is dereferenced (`none`).
unfoldable pub advance_write_pointer : ConvFtl → IoType → Option ConvFtl
advance_write_pointer ftl t =
    let spp = ftl.ssd.sp in
    step_pointer spp (get_wp ftl t) >>= λ (w, at_end).
    if at_end
    then (close_line spp ftl.lm w.curline >>= λ closed. check (check_addr w.blk spp.blks_per_pl) (
        get_next_free_line closed >>= λ (cur, lm).
        let blk = (lm.lines cur).id in
        check (check_addr blk spp.blks_per_pl) (
          check ((w.pg == 0) && ((w.lun == 0) && ((w.ch == 0) && (w.pl == 0))))
            (some (set_wp (record ftl { lm = lm }) t (record w { curline = cur; blk = blk }))))))
    else some (set_wp ftl t w)

-- The page that a write pointer stands at; the bit fields cut its coordinates.
abbrev pub page_at : WritePointer → Ppa
page_at w = record {
  pg = w.pg % 2 ^ 16;
  blk = w.blk % 2 ^ 16;
  pl = w.pl % 2 ^ 8;
  lun = w.lun % 2 ^ 8;
  ch = w.ch % 2 ^ 8;
  rsv = 0;
}

unfoldable pub get_new_page : ConvFtl → IoType → Option Ppa
get_new_page ftl t = let p = page_at (get_wp ftl t) in check (p.pl == 0) (some p)
