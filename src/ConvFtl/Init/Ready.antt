-- ===== src/ConvFtl/Init/Ready.antt =====
-- conv_ftl.c: the state that `conv_init_ftl` makes.
use wild_cat.Common.{
  ℕ, suc, ◌+◌, ◌-◌, ◌^◌, ◌<◌, ◌≡◌, refl, ap, true, not, ◌==◌, some, List, ◌∷◌, arith, w32, sub32,
}
use wild_cat.Pqueue.{pqueue_init}
use wild_cat.Ssd.Params.{SsdParams}
use wild_cat.Ssd.Params.Geometry.{IsGeometry}
use wild_cat.Ssd.Nand.{
  Ppa, pg_free, get_pg, ppa_bits, unmapped_ppa, ssd_init, ssd_init_ch, ssd_init_nand_lun,
  ssd_init_nand_plane, ssd_init_nand_blk, ssd_init_nand_page,
}
use wild_cat.ConvFtl.State.{IoType, user_io, gc_io_hot, gc_io_cold, ConvParams, ConvFtl}
use wild_cat.ConvFtl.Lines.{init_lines, indices, get_next_free_line}
use wild_cat.ConvFtl.Mapping.{init_maptbl, valid_ppa, mapped_ppa}
use wild_cat.ConvFtl.Mapping.Index.{valid_ppa-InDevice}
use wild_cat.ConvFtl.WritePointer.{page_at, set_wp, prepare_write_pointer}
use wild_cat.ConvFtl.Remap.Consistent.{IsConsistent}
use wild_cat.ConvFtl.Victim.Greedy.{QueueIsValid}
use wild_cat.ConvFtl.Init.{fresh_ftl, conv_init_ftl}

-- the first page of a line
abbrev pub first_page : ℕ → Ppa
first_page line = record { pg = 0; blk = line; pl = 0; lun = 0; ch = 0; rsv = 0 }

-- what `prepare_write_pointer` returns where `cur` heads the free list
prepared : ConvFtl → IoType → ℕ → List ℕ → ConvFtl
prepared ftl t cur rest =
    set_wp
      (record ftl {
        lm = record (ftl.lm) {
          free_line_list = rest;
          free_line_cnt = sub32 ftl.lm.free_line_cnt 1;
        };
      })
      t (record { curline = cur; ch = 0; lun = 0; pg = 0; blk = (ftl.lm.lines cur).id; pl = 0 })

prepare_lem :
    (ftl : ConvFtl) (t : IoType) (cur : ℕ) (rest : List ℕ)
    → ftl.lm.free_line_list ≡ cur ∷ rest
    → prepare_write_pointer ftl t ≡ some (prepared ftl t cur rest)
unfolding prepare_write_pointer get_next_free_line prepared
prepare_lem ftl t cur rest e = rw e refl

-- the FTL is consistent, and the pointers stand at free pages of three lines, which left the free
-- list; no line is in the victim queue
pub record IsReady (ftl : ConvFtl) (n : ℕ) : Type 0 where
  pub consistent : IsConsistent ftl
  pub user : page_at ftl.wp ≡ first_page 0
  pub hot : page_at ftl.gc_wp_hot ≡ first_page 1
  pub cold : page_at ftl.gc_wp_cold ≡ first_page 2
  pub all_free : (p : Ppa) → (get_pg ftl.ssd p).status ≡ pg_free
  pub free_lines : ftl.lm.free_line_list ≡ indices (n - 3) 3
  pub counted : ftl.lm.free_line_cnt ≡ n - 3
  pub queue : QueueIsValid ftl.lm

false_apart : ¬ (not (ppa_bits unmapped_ppa == ppa_bits unmapped_ppa) ≡ true)
unfolding ppa_bits
false_apart = λ e. cc

module _ (cpp : ConvParams) (spp : SsdParams) (cpu m : ℕ)
    (lines : w32 spp.tt_lines ≡ suc (suc (suc m))) where
  start : ConvFtl
  start = fresh_ftl cpp (ssd_init spp cpu)

  started : ConvFtl
  started =
      prepared
        (prepared (prepared start user_io 0 (1 ∷ 2 ∷ indices m 3)) gc_io_hot 1 (2 ∷ indices m 3))
        gc_io_cold 2 (indices m 3)

  free_lem : start.lm.free_line_list ≡ 0 ∷ 1 ∷ 2 ∷ indices m 3
  unfolding start init_lines indices ssd_init
  free_lem = rw lines refl

  started_lem : conv_init_ftl cpp (ssd_init spp cpu) ≡ some started
  unfolding conv_init_ftl started start prepared set_wp
  started_lem =
      rw
        (
          prepare_lem start user_io 0 (1 ∷ 2 ∷ indices m 3) free_lem,
          prepare_lem (prepared start user_io 0 (1 ∷ 2 ∷ indices m 3)) gc_io_hot 1 (2 ∷ indices m 3)
              refl,
          prepare_lem
              (prepared (prepared start user_io 0 (1 ∷ 2 ∷ indices m 3)) gc_io_hot 1
                (2 ∷ indices m 3))
              gc_io_cold 2 (indices m 3) refl,
        )
        refl

  all_free_lem : (p : Ppa) → (get_pg started.ssd p).status ≡ pg_free
  unfolding started start prepared set_wp ssd_init ssd_init_ch ssd_init_nand_lun ssd_init_nand_plane
      ssd_init_nand_blk ssd_init_nand_page
  all_free_lem p = refl

  started_sp : started.ssd.sp ≡ spp
  unfolding started start prepared set_wp ssd_init
  started_sp = refl

  started-IsReady : (n : ℕ) → n ≡ m + 3 → m < 2 ^ 16 → IsReady started n
  unfolding started start prepared set_wp init_lines ssd_init IsConsistent init_maptbl mapped_ppa
      pqueue_init
  started-IsReady n total small = record {
    consistent = λ l lt is_mapped. elim (false_apart is_mapped) [ ];
    user = refl;
    hot = refl;
    cold = refl;
    all_free = all_free_lem;
    free_lines = ap (λ k. indices k 3) (omega arith);
    counted = rw lines (omega (arith, small));
    queue = record {
      sized = omega arith;
      fits = omega arith;
      ordered = λ c two inside. absurd (omega arith);
      known = λ j low inside. absurd (omega arith);
    };
  }

-- On a consistent geometry whose third line has a page in the device, `conv_init_ftl` succeeds. The
-- tables are consistent, every page is free, the three write pointers stand at the first pages of the
-- lines 0, 1 and 2, the other lines are the free list, and the victim queue is valid.
pub conv_init_ftl-IsReady :
    (cpp : ConvParams) (spp : SsdParams) (cpu : ℕ)
    → IsGeometry spp
    → valid_ppa spp (first_page 2) ≡ true
    → (ftl : ConvFtl) × (conv_init_ftl cpp (ssd_init spp cpu) ≡ some ftl)
      × (ftl.ssd.sp ≡ spp)
      × IsReady ftl spp.tt_lines
conv_init_ftl-IsReady cpp spp cpu g has_three =
    let i = valid_ppa-InDevice spp (first_page 2) has_three in
    let m = spp.tt_lines - 3 in
    let total : spp.tt_lines ≡ m + 3 = omega (arith, i.blk, g.lines) in
    let small : m < 2 ^ 16 = omega (arith, g.lines, g.blks_fit) in
    let lines : w32 spp.tt_lines ≡ suc (suc (suc m)) = omega (arith, total, small) in
    (
      started cpp spp cpu m lines,
      started_lem cpp spp cpu m lines,
      started_sp cpp spp cpu m lines,
      started-IsReady cpp spp cpu m lines spp.tt_lines total small,
    )
