-- ===== src/ConvFtl/Pages.antt =====
-- conv_ftl.c: the states of a page, free to valid to invalid and back by an erase, with the counts
-- of its block and its line.
pub mod Status
pub mod Erase
use wild_cat.Common.{
  ℕ, Bool, true, false, Option, some, [], ◌∷◌, ◌++◌, ltb, ◌==◌, if◌then◌else◌, check, update, erase,
  add32, sub32, sext,
}
use wild_cat.Pqueue.{pqueue_change_priority}
use wild_cat.Ssd.Params.{SsdParams}
use wild_cat.Ssd.Nand.{
  Ppa, PageStatus, pg_free, pg_invalid, pg_valid, NandPage, Ssd, get_pg, get_blk, set_pg, set_blk,
}
use wild_cat.ConvFtl.State.{Line, LineMgmt, ConvFtl}
use wild_cat.ConvFtl.Lines.{line_ops, victim_heap, with_heap, add_victim}

abbrev pub is_free : PageStatus → Bool
is_free pg_free = true
is_free pg_invalid = false
is_free pg_valid = false

abbrev pub is_valid : PageStatus → Bool
is_valid pg_free = false
is_valid pg_invalid = false
is_valid pg_valid = true

abbrev pub set_line : LineMgmt → ℕ → Line → LineMgmt
set_line lm x l = record lm { lines = update lm.lines x l }

-- the part of `mark_page_invalid` on the page and its block
unfoldable pub invalidate_page : Ssd → Ppa → Ssd
invalidate_page ssd p =
    let ssd₁ = set_pg ssd p (record (get_pg ssd p) { status = pg_invalid }) in
    let blk = get_blk ssd₁ p in
    set_blk ssd₁ p (record blk { ipc = add32 blk.ipc 1; vpc = sub32 blk.vpc 1 })

-- the part of `mark_page_invalid` on the line: its counts, its place in the queue, and the move
-- from the full list
unfoldable pub invalidate_in_line : SsdParams → LineMgmt → ℕ → ℕ → LineMgmt
invalidate_in_line spp lm x now =
    let was_full = sext (lm.lines x).vpc == spp.pgs_per_line in
    let lm₁ = set_line lm x (record (lm.lines x) { ipc = add32 (lm.lines x).ipc 1 }) in
    let line = lm₁.lines x in
    let lm₂ =
      if line.pos == 0
      then set_line lm₁ x (record line { vpc = sub32 line.vpc 1 })
      else with_heap lm₁
          (pqueue_change_priority line_ops (victim_heap lm₁) (sext (sub32 line.vpc 1)) x) in
    let lm₃ =
      if was_full
      then add_victim
          (record lm₂ {
            full_line_list = erase x lm₂.full_line_list;
            full_line_cnt = sub32 lm₂.full_line_cnt 1;
          })
          x
      else lm₂ in
    set_line lm₃ x (record (lm₃.lines x) { last_modified_time = now })

-- `now` is what `ktime_get_ns` reads at the end
unfoldable pub mark_page_invalid : ConvFtl → Ppa → ℕ → Option ConvFtl
mark_page_invalid ftl p now = check (is_valid (get_pg ftl.ssd p).status) (
    some (record ftl {
      ssd = invalidate_page ftl.ssd p;
      lm = invalidate_in_line ftl.ssd.sp ftl.lm p.blk now;
    }))

-- the part of `mark_page_valid` on the page and its block
unfoldable pub validate_page : Ssd → Ppa → Ssd
validate_page ssd p =
    let ssd₁ = set_pg ssd p (record (get_pg ssd p) { status = pg_valid }) in
    let blk = get_blk ssd₁ p in set_blk ssd₁ p (record blk { vpc = add32 blk.vpc 1 })

unfoldable pub mark_page_valid : ConvFtl → Ppa → Option ConvFtl
mark_page_valid ftl p =
    let line = ftl.lm.lines p.blk in
    check (is_free (get_pg ftl.ssd p).status) (
      some (record ftl {
        ssd = validate_page ftl.ssd p;
        lm = set_line ftl.lm p.blk (record line { vpc = add32 line.vpc 1 });
      }))

-- the loop over the pages of the block
pub free_pages : ℕ → (ℕ → NandPage) → ℕ → NandPage
free_pages n pgs i = if ltb i n then record (pgs i) { status = pg_free } else pgs i

pub mark_block_free : ConvFtl → Ppa → ConvFtl
mark_block_free ftl p =
    let blk = get_blk ftl.ssd p in
    record ftl {
      ssd = set_blk ftl.ssd p (record blk {
        pgs = free_pages ftl.ssd.sp.pgs_per_blk blk.pgs;
        ipc = 0;
        vpc = 0;
        erase_cnt = add32 blk.erase_cnt 1;
      });
    }

unfoldable pub mark_line_free : ConvFtl → Ppa → ConvFtl
mark_line_free ftl p =
    let line = ftl.lm.lines p.blk in
    let lm =
      set_line ftl.lm p.blk
        (record line { ipc = 0; vpc = 0; erase_cnt = add32 line.erase_cnt 1 }) in
    record ftl {
      lm = record lm {
        free_line_list = lm.free_line_list ++ p.blk ∷ [];
        free_line_cnt = add32 lm.free_line_cnt 1;
      };
    }
