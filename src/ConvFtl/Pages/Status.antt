-- ===== src/ConvFtl/Pages/Status.antt =====
-- conv_ftl.c: what `mark_page_invalid` and `mark_page_valid` do to the states of pages.
use wild_cat.Common.{update_here, ℕ, ◌≡◌, refl, ap, ◌∙◌, update, arith, ◌⊎◌, inl, inr}
use wild_cat.Ssd.Nand.{
  Ppa, Ssd, PageStatus, pg_valid, pg_invalid, NandBlock, NandPage, get_blk, get_pg, set_blk, set_pg,
}
use wild_cat.Ssd.Nand.Access.{SameBlock, SamePage, get_blk-set_blk, get_blk-other, block_lem}
use wild_cat.ConvFtl.Pages.{invalidate_page, validate_page}

-- the state of the page is `st` at `p`, and as before everywhere else
pub record HasStatus (ssd ssd' : Ssd) (p : Ppa) (st : PageStatus) : Type 0 where
  pub here : (get_pg ssd' p).status ≡ st
  pub others : (q : Ppa) → ((get_pg ssd' q).status ≡ (get_pg ssd q).status) ⊎ SamePage p q

update-cases : (f : ℕ → NandPage) (i j : ℕ) (v : NandPage) → (update f i v j ≡ f j) ⊎ (i ≡ j)
update-cases f i j v = ground arith

-- a write of a page, and then of its block by any `b` with the same pages
module _ (ssd : Ssd) (p : Ppa) (g : NandPage) (b : NandBlock)
    (h : b.pgs ≡ update (get_blk ssd p).pgs p.pg g) where
  same_block :
      (q : Ppa)
      → SameBlock p q
      → ((get_pg (set_blk (set_pg ssd p g) p b) q).status ≡ (get_pg ssd q).status) ⊎ SamePage p q
  same_block q s =
      let (ch, lun, pl, blk) = s in
      let e : get_pg (set_blk (set_pg ssd p g) p b) q ≡ update (get_blk ssd p).pgs p.pg g q.pg =
        ap (λ x. x.pgs q.pg) (get_blk-set_blk (set_pg ssd p g) p q b s) ∙ ap (λ x. x q.pg) h in
      elim (update-cases (get_blk ssd p).pgs p.pg q.pg g) [
        | inl u ↦ inl (ap (λ x. x.status) (e ∙ u ∙ ap (λ x. x.pgs q.pg) (block_lem ssd p q s)))
        | inr u ↦ inr (ch, lun, pl, blk, u)
      ]

  write_page-HasStatus : HasStatus ssd (set_blk (set_pg ssd p g) p b) p (g.status)
  write_page-HasStatus = record {
    here =
        ap (λ x. (x.pgs p.pg).status)
          (get_blk-set_blk (set_pg ssd p g) p p b (refl, refl, refl, refl))
        ∙ ap (λ x. (x p.pg).status) h
        ∙ ap (λ x. x.status) (update_here (get_blk ssd p).pgs p.pg g);
    others = λ q. elim (get_blk-other (set_pg ssd p g) p q b) [
      | inr s ↦ same_block q s
      | inl e ↦
          elim (get_blk-other ssd p q
            (record (get_blk ssd p) { pgs = update (get_blk ssd p).pgs p.pg g })) [
              | inr s ↦ same_block q s
              | inl e' ↦ inl (ap (λ x. (x.pgs q.pg).status) (e ∙ e'))
            ]
    ];
  }

-- the block read back after the write of its page has the updated pages
pages_lem :
    (ssd : Ssd) (p : Ppa) (g : NandPage)
    → (get_blk (set_pg ssd p g) p).pgs ≡ update (get_blk ssd p).pgs p.pg g
pages_lem ssd p g =
    ap (λ x. x.pgs)
      (get_blk-set_blk ssd p p (record (get_blk ssd p) { pgs = update (get_blk ssd p).pgs p.pg g })
        (refl, refl, refl, refl))

-- `invalidate_page` makes the page invalid and leaves the state of every other page.
pub invalidate_page-HasStatus :
    (ssd : Ssd) (p : Ppa) → HasStatus ssd (invalidate_page ssd p) p pg_invalid
unfolding invalidate_page
invalidate_page-HasStatus ssd p = write_page-HasStatus ssd p _ _ (pages_lem ssd p _)

-- `validate_page` makes the page valid and leaves the state of every other page.
pub validate_page-HasStatus : (ssd : Ssd) (p : Ppa) → HasStatus ssd (validate_page ssd p) p pg_valid
unfolding validate_page
validate_page-HasStatus ssd p = write_page-HasStatus ssd p _ _ (pages_lem ssd p _)
