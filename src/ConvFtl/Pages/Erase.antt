-- ===== src/ConvFtl/Pages/Erase.antt =====
-- conv_ftl.c: what the erase of a block, `mark_block_free`, does to the pages.
use wild_cat.Common.{ℕ, ◌<◌, ◌≡◌, refl, ap, ◌∙◌, true, ltb, arith, add32, ◌⊎◌}
use wild_cat.Ssd.Nand.{Ppa, NandBlock, NandPage, pg_free, get_blk, get_pg}
use wild_cat.Ssd.Nand.Access.{SameBlock, get_blk-set_blk, get_blk-other}
use wild_cat.ConvFtl.State.{ConvFtl}
use wild_cat.ConvFtl.Pages.{free_pages, mark_block_free}

-- `ftl'` is `ftl` with the block of `p` erased
pub record Erased (ftl ftl' : ConvFtl) (p : Ppa) : Type 0 where
  pub freed :
      (q : Ppa)
      → SameBlock p q
      → q.pg < ftl.ssd.sp.pgs_per_blk
      → (get_pg ftl'.ssd q).status ≡ pg_free
  pub counts :
      ((get_blk ftl'.ssd p).vpc ≡ 0)
      × ((get_blk ftl'.ssd p).ipc ≡ 0)
      × ((get_blk ftl'.ssd p).erase_cnt ≡ add32 (get_blk ftl.ssd p).erase_cnt 1)
  pub others : (q : Ppa) → (get_blk ftl'.ssd q ≡ get_blk ftl.ssd q) ⊎ SameBlock p q

free_pages_lem : (n i : ℕ) (pgs : ℕ → NandPage) → i < n → (free_pages n pgs i).status ≡ pg_free
unfolding free_pages
free_pages_lem n i pgs lt = let test : ltb i n ≡ true = ground (arith, lt) in rw test refl

-- `mark_block_free` makes every page of the block free, resets its counts, counts one erase, and
-- leaves every other block as it is.
pub mark_block_free-Erased : (ftl : ConvFtl) (p : Ppa) → Erased ftl (mark_block_free ftl p) p
unfolding mark_block_free
mark_block_free-Erased ftl p =
    let blk = get_blk ftl.ssd p in
    let b : NandBlock = record blk {
      pgs = free_pages ftl.ssd.sp.pgs_per_blk blk.pgs;
      ipc = 0;
      vpc = 0;
      erase_cnt = add32 blk.erase_cnt 1;
    } in
    let here = get_blk-set_blk ftl.ssd p p b (refl, refl, refl, refl) in
    record {
      freed = λ q same lt.
          ap (λ x. (x.pgs q.pg).status) (get_blk-set_blk ftl.ssd p q b same)
          ∙ free_pages_lem ftl.ssd.sp.pgs_per_blk q.pg blk.pgs lt;
      counts = (ap (λ x. x.vpc) here, ap (λ x. x.ipc) here, ap (λ x. x.erase_cnt) here);
      others = λ q. get_blk-other ftl.ssd p q b;
    }
