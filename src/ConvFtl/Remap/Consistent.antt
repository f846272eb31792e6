-- ===== src/ConvFtl/Remap/Consistent.antt =====
-- conv_ftl.c: the two tables and the states of the pages agree.
use wild_cat.Common.{
  update_here, ℕ, ◌<◌, ◌≡◌, ◌≢◌, refl, sym, ap, ◌∙◌, true, ◌==◌, add32, some, update, arith, ◌⊎◌,
  inl, inr, Bool-cases, ltb,
}
use wild_cat.Ssd.Params.Geometry.{IsGeometry}
use wild_cat.Ssd.Nand.{Ppa, Ssd, PageStatus, pg_free, pg_valid, pg_invalid, get_pg, invalid_lpn}
use wild_cat.Ssd.Nand.Access.{SamePage}
use wild_cat.ConvFtl.State.{ConvFtl}
use wild_cat.ConvFtl.Mapping.{
  page_index, ppa2pgidx, set_rmap_ent, set_maptbl_ent, valid_ppa, mapped_ppa,
}
use wild_cat.ConvFtl.Mapping.Index.{valid_ppa-InDevice, page_index-lt, page_index-injective}
use wild_cat.ConvFtl.Pages.{
  set_line, invalidate_page, invalidate_in_line, validate_page, mark_page_invalid, mark_page_valid,
}
use wild_cat.ConvFtl.Pages.Status.{HasStatus, invalidate_page-HasStatus, validate_page-HasStatus}
use wild_cat.ConvFtl.Remap.{unmap_page, map_page}

-- the page of an entry is in the device and valid, and its entry in the other table is `lpn`
pub record IsEntry (ftl : ConvFtl) (lpn : ℕ) (p : Ppa) : Type 0 where
  pub in_device : valid_ppa ftl.ssd.sp p ≡ true
  pub back : ftl.rmap (page_index ftl.ssd.sp p) ≡ lpn
  pub valid : (get_pg ftl.ssd p).status ≡ pg_valid

-- every mapped logical page of the device has such an entry
unfoldable pub IsConsistent : ConvFtl → Type 0
IsConsistent ftl =
    (l : ℕ)
    → l < ftl.ssd.sp.tt_pgs
    → mapped_ppa (ftl.maptbl l) ≡ true
    → IsEntry ftl l (ftl.maptbl l)

-- every mapped logical page of the device but `lpn` has such an entry
unfoldable pub IsConsistentBut : ConvFtl → ℕ → Type 0
IsConsistentBut ftl lpn =
    (l : ℕ)
    → l < ftl.ssd.sp.tt_pgs
    → l ≢ lpn
    → mapped_ppa (ftl.maptbl l) ≡ true
    → IsEntry ftl l (ftl.maptbl l)

pub same_page_lem : (ssd : Ssd) (p q : Ppa) → SamePage p q → get_pg ssd p ≡ get_pg ssd q
same_page_lem ssd p q (ch, lun, pl, blk, pg) = rw (ch, lun, pl, blk, pg) refl

update_other : (f : ℕ → ℕ) (i j v : ℕ) → i ≢ j → update f i v j ≡ f j
update_other f i j v h = ground (arith, h)

pub update_ppa_other : (f : ℕ → Ppa) (i j : ℕ) (v : Ppa) → i ≢ j → update f i v j ≡ f j
update_ppa_other f i j v h = ground (arith, h)

pub same_or_not : (i j : ℕ) → (i ≡ j) ⊎ (i ≢ j)
same_or_not i j = elim (Bool-cases (i == j)) [
  | inl e ↦ inl (ground arith)
  | inr e ↦ inr (λ h. ground arith)
]

pub free_apart : pg_free ≢ pg_valid
free_apart = λ e. cc

module _ (ftl : ConvFtl) (g : IsGeometry ftl.ssd.sp) where
  module _ (p : Ppa) (in_device : valid_ppa ftl.ssd.sp p ≡ true) where
    pub index_lem : ppa2pgidx ftl p ≡ some (page_index ftl.ssd.sp p)
    unfolding ppa2pgidx
    index_lem =
        let lt = page_index-lt ftl.ssd.sp g p (valid_ppa-InDevice ftl.ssd.sp p in_device) in
        ground (arith, lt)

    index_same :
        (q : Ppa)
        → valid_ppa ftl.ssd.sp q ≡ true
        → page_index ftl.ssd.sp p ≡ page_index ftl.ssd.sp q
        → SamePage p q
    index_same q hq e =
        page_index-injective ftl.ssd.sp g p q (valid_ppa-InDevice ftl.ssd.sp p in_device)
          (valid_ppa-InDevice ftl.ssd.sp q hq) e

    -- an entry on another page stays one when this page and its entry are written
    IsEntry-kept :
        (ftl' : ConvFtl) (v l : ℕ) (q : Ppa) (st : PageStatus)
        → ftl'.ssd.sp ≡ ftl.ssd.sp
        → ftl'.rmap ≡ update ftl.rmap (page_index ftl.ssd.sp p) v
        → HasStatus ftl.ssd ftl'.ssd p st
        → IsEntry ftl l q
        → ¬ SamePage p q
        → IsEntry ftl' l q
    IsEntry-kept ftl' v l q st sp rmap has e apart = record {
      in_device = ap (λ x. valid_ppa x q) sp ∙ e.in_device;
      back =
          ap (λ x. ftl'.rmap (page_index x q)) sp
          ∙ ap (λ f. f (page_index ftl.ssd.sp q)) rmap
          ∙ update_other ftl.rmap (page_index ftl.ssd.sp p) (page_index ftl.ssd.sp q) v
              (λ i. apart (index_same q e.in_device i))
          ∙ e.back;
      valid = elim (has.others q) [ inl same ↦ same ∙ e.valid | inr s ↦ elim (apart s) [ ] ];
    }

    -- what `set_rmap_ent` writes on a page of the device
    set_rmap_lem :
        (v : ℕ)
        → set_rmap_ent ftl v p
          ≡ some (record ftl { rmap = update ftl.rmap (page_index ftl.ssd.sp p) v })
    unfolding set_rmap_ent
    set_rmap_lem v = rw index_lem refl

-- what `unmap_page` returns on a valid page
unfoldable pub unmapped : ConvFtl → Ppa → ℕ → ConvFtl
unmapped ftl old time = record ftl {
  ssd = invalidate_page ftl.ssd old;
  lm = invalidate_in_line ftl.ssd.sp ftl.lm old.blk time;
  rmap = update ftl.rmap (page_index ftl.ssd.sp old) invalid_lpn;
}

invalidate_page-sp : (ssd : Ssd) (p : Ppa) → (invalidate_page ssd p).sp ≡ ssd.sp
unfolding invalidate_page
invalidate_page-sp ssd p = refl

validate_page-sp : (ssd : Ssd) (p : Ppa) → (validate_page ssd p).sp ≡ ssd.sp
unfolding validate_page
validate_page-sp ssd p = refl

module _ (ftl : ConvFtl) (g : IsGeometry ftl.ssd.sp) where
  pub unmap_page_lem :
      (p : Ppa) (time : ℕ)
      → valid_ppa ftl.ssd.sp p ≡ true
      → (get_pg ftl.ssd p).status ≡ pg_valid
      → unmap_page ftl p time ≡ some (unmapped ftl p time)
  unfolding unmap_page mark_page_invalid unmapped invalidate_page
  unmap_page_lem p time in_device valid =
      rw
        (
          valid,
          set_rmap_lem
              (record ftl {
                ssd = invalidate_page ftl.ssd p;
                lm = invalidate_in_line ftl.ssd.sp ftl.lm p.blk time;
              })
              g p in_device invalid_lpn,
        )
        refl

  pub unmapped-IsConsistentBut :
      (lpn time : ℕ)
      → lpn < ftl.ssd.sp.tt_pgs
      → mapped_ppa (ftl.maptbl lpn) ≡ true
      → IsConsistent ftl
      → IsConsistentBut (unmapped ftl (ftl.maptbl lpn) time) lpn
  unfolding unmapped IsConsistent IsConsistentBut invalidate_page
  unmapped-IsConsistentBut lpn time inside is_mapped ok l l_inside differs l_mapped =
      let old = ftl.maptbl lpn in
      let entry = ok lpn inside is_mapped in
      let kept = ok l l_inside l_mapped in
      IsEntry-kept ftl g old entry.in_device (unmapped ftl old time) invalid_lpn l (ftl.maptbl l)
        pg_invalid (invalidate_page-sp ftl.ssd old) refl (invalidate_page-HasStatus ftl.ssd old)
        kept
        (λ (ch, lun, pl, blk, pg).
          differs (sym kept.back ∙ ap ftl.rmap (rw (ch, lun, pl, blk, pg) refl) ∙ entry.back))

-- what `map_page` returns on a free page
unfoldable pub remapped : ConvFtl → ℕ → Ppa → ConvFtl
remapped ftl lpn p =
    let line = ftl.lm.lines p.blk in
    record ftl {
      ssd = validate_page ftl.ssd p;
      lm = set_line ftl.lm p.blk (record line { vpc = add32 line.vpc 1 });
      maptbl = update ftl.maptbl lpn p;
      rmap = update ftl.rmap (page_index ftl.ssd.sp p) lpn;
    }

module _ (ftl : ConvFtl) (lpn : ℕ) (p : Ppa) (g : IsGeometry ftl.ssd.sp)
    (inside : lpn < ftl.ssd.sp.tt_pgs) (in_device : valid_ppa ftl.ssd.sp p ≡ true)
    (free : (get_pg ftl.ssd p).status ≡ pg_free) where
  pub map_page_lem : map_page ftl lpn p ≡ some (remapped ftl lpn p)
  unfolding map_page set_maptbl_ent mark_page_valid remapped validate_page
  map_page_lem =
      let test : ltb lpn ftl.ssd.sp.tt_pgs ≡ true = ground (arith, inside) in
      rw
        (
          test,
          set_rmap_lem (record ftl { maptbl = update ftl.maptbl lpn p }) g p in_device lpn,
          free,
        )
        refl

  pub new-IsEntry : IsEntry (remapped ftl lpn p) lpn p
  unfolding remapped validate_page
  new-IsEntry = record {
    in_device = in_device;
    back = update_here ftl.rmap (page_index ftl.ssd.sp p) lpn;
    valid = (validate_page-HasStatus ftl.ssd p).here;
  }

  pub remapped-IsConsistent : IsConsistentBut ftl lpn → IsConsistent (remapped ftl lpn p)
  unfolding remapped IsConsistent IsConsistentBut validate_page
  remapped-IsConsistent ok l l_inside l_mapped = elim (same_or_not lpn l) [
    | inl e ↦ rw (sym e, update_here ftl.maptbl lpn p) new-IsEntry
    | inr differs ↦
        let kept_at : (remapped ftl lpn p).maptbl l ≡ ftl.maptbl l =
          update_ppa_other ftl.maptbl lpn l p differs in
        let kept = ok l l_inside (λ e. differs (sym e)) (ap mapped_ppa (sym kept_at) ∙ l_mapped) in
        let there =
          IsEntry-kept ftl g p in_device (remapped ftl lpn p) lpn l (ftl.maptbl l) pg_valid
            (validate_page-sp ftl.ssd p) refl (validate_page-HasStatus ftl.ssd p) kept
            (λ s. free_apart (
              sym free
              ∙ ap (λ x. x.status) (same_page_lem ftl.ssd p (ftl.maptbl l) s)
              ∙ kept.valid)) in
        rw kept_at there
  ]
