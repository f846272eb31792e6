-- ===== src/ConvFtl/Remap/Move.antt =====
-- conv_ftl.c: `conv_write` and the collector move logical pages and keep the tables consistent.
use wild_cat.Common.{
  update_here, ℕ, ◌<◌, ◌≡◌, ◌≢◌, refl, sym, ap, ◌∙◌, true, false, ◌==◌, some, add64, arith, ◌⊎◌,
  inl, inr, Bool-cases,
}
use wild_cat.Ssd.Params.Geometry.{IsGeometry}
use wild_cat.Ssd.Nand.{Ppa, pg_free, pg_valid, pg_invalid, get_pg}
use wild_cat.Ssd.Nand.Access.{SamePage}
use wild_cat.ConvFtl.State.{ConvFtl, user_io}
use wild_cat.ConvFtl.Mapping.{
  page_index, ppa2pgidx, get_maptbl_ent, get_rmap_ent, valid_ppa, mapped_ppa,
}
use wild_cat.ConvFtl.Mapping.Index.{valid_ppa-InDevice}
use wild_cat.ConvFtl.WritePointer.{page_at, get_wp, get_new_page}
use wild_cat.ConvFtl.Pages.{invalidate_page, validate_page}
use wild_cat.ConvFtl.Pages.Status.{invalidate_page-HasStatus, validate_page-HasStatus}
use wild_cat.ConvFtl.Remap.{map_page, remap}
use wild_cat.ConvFtl.Remap.Consistent.{
  IsEntry, IsConsistent, IsConsistentBut, unmapped, remapped, unmap_page_lem,
  unmapped-IsConsistentBut, map_page_lem, remapped-IsConsistent, new-IsEntry, index_lem,
  update_ppa_other, free_apart, same_page_lem,
}

-- `lpn` is at `p`, with its entry of the inverse table, and every other logical page where it was
pub record Moved (ftl ftl' : ConvFtl) (lpn : ℕ) (p : Ppa) : Type 0 where
  pub consistent : IsConsistent ftl'
  pub here : get_maptbl_ent ftl' lpn ≡ p
  pub back : get_rmap_ent ftl' p ≡ some lpn
  pub valid : (get_pg ftl'.ssd p).status ≡ pg_valid
  pub others : (l : ℕ) → lpn ≢ l → get_maptbl_ent ftl' l ≡ get_maptbl_ent ftl l
  pub pages :
      (q : Ppa)
      → ((get_pg ftl'.ssd q).status ≡ (get_pg ftl.ssd q).status)
        ⊎ SamePage p q
        ⊎ SamePage (get_maptbl_ent ftl lpn) q

module _ (ftl : ConvFtl) (lpn : ℕ) (p : Ppa) (g : IsGeometry ftl.ssd.sp)
    (inside : lpn < ftl.ssd.sp.tt_pgs) (in_device : valid_ppa ftl.ssd.sp p ≡ true)
    (free : (get_pg ftl.ssd p).status ≡ pg_free) (ok : IsConsistentBut ftl lpn) where
  remapped-Moved : Moved ftl (remapped ftl lpn p) lpn p
  unfolding remapped get_maptbl_ent get_rmap_ent validate_page
  remapped-Moved =
      let e = new-IsEntry ftl lpn p g inside in_device free in
      record {
        consistent = remapped-IsConsistent ftl lpn p g inside in_device free ok;
        here = update_here ftl.maptbl lpn p;
        back =
            rw
              (
                index_lem (remapped ftl lpn p) g p in_device,
                update_here ftl.rmap (page_index ftl.ssd.sp p) lpn,
              )
              refl;
        valid = e.valid;
        others = λ l differs. update_ppa_other ftl.maptbl lpn l p differs;
        pages = λ q. elim ((validate_page-HasStatus ftl.ssd p).others q) [
          | inl same ↦ inl same
          | inr s ↦ inr (inl s)
        ];
      }

-- Where the tables are consistent, `map_page` on a logical page of the device and a free page of
-- the device succeeds and moves the logical page there; the tables stay consistent.
pub map_page-Moved :
    (ftl : ConvFtl) (lpn : ℕ) (p : Ppa)
    → IsGeometry ftl.ssd.sp
    → lpn < ftl.ssd.sp.tt_pgs
    → valid_ppa ftl.ssd.sp p ≡ true
    → (get_pg ftl.ssd p).status ≡ pg_free
    → IsConsistent ftl
    → (ftl' : ConvFtl) × (map_page ftl lpn p ≡ some ftl') × Moved ftl ftl' lpn p
unfolding IsConsistent IsConsistentBut
map_page-Moved ftl lpn p g inside in_device free ok = (
  remapped ftl lpn p,
  map_page_lem ftl lpn p g inside in_device free,
  remapped-Moved ftl lpn p g inside in_device free (λ l lt _. ok l lt),
)

true_apart : ¬ (true ≡ false)
true_apart = λ e. cc

-- `ftl` with the pages counted that the host has written
counted : ConvFtl → ConvFtl
counted ftl = record ftl { host_written_pages = add64 ftl.host_written_pages 1 }

counted-Moved :
    (ftl f : ConvFtl) (lpn : ℕ) (p : Ppa) → Moved ftl f lpn p → Moved ftl (counted f) lpn p
unfolding counted IsConsistent get_maptbl_ent get_rmap_ent ppa2pgidx
counted-Moved ftl f lpn p m = record {
  consistent = λ l lt is_mapped.
      let e = m.consistent l lt is_mapped in
      record { in_device = e.in_device; back = e.back; valid = e.valid };
  here = m.here;
  back = m.back;
  valid = m.valid;
  others = m.others;
  pages = m.pages;
}

module _ (ftl : ConvFtl) (lpn time : ℕ) (g : IsGeometry ftl.ssd.sp)
    (inside : lpn < ftl.ssd.sp.tt_pgs) (in_device : valid_ppa ftl.ssd.sp (page_at ftl.wp) ≡ true)
    (free : (get_pg ftl.ssd (page_at ftl.wp)).status ≡ pg_free) (ok : IsConsistent ftl) where
  new_page_lem : (f : ConvFtl) → f.wp ≡ ftl.wp → get_new_page f user_io ≡ some (page_at ftl.wp)
  unfolding get_new_page get_wp
  new_page_lem f e =
      let at = valid_ppa-InDevice ftl.ssd.sp (page_at ftl.wp) in_device in
      let first : ((page_at ftl.wp).pl == 0) ≡ true = ground (arith, at.pl, g.one_plane) in
      rw (e, first) refl

  -- the logical page has no page yet
  fresh_lem :
      mapped_ppa (get_maptbl_ent ftl lpn) ≡ false
      → (ftl' : ConvFtl) × (remap ftl lpn time ≡ some (page_at ftl.wp, ftl'))
        × Moved ftl ftl' lpn (page_at ftl.wp)
  unfolding remap counted
  fresh_lem fresh =
      let (f, e, m) = map_page-Moved ftl lpn (page_at ftl.wp) g inside in_device free ok in
      (
        counted f,
        rw (fresh, new_page_lem ftl refl, e) refl,
        counted-Moved ftl f lpn (page_at ftl.wp) m,
      )

  module _ (is_mapped : mapped_ppa (get_maptbl_ent ftl lpn) ≡ true) where
    old-IsEntry : IsEntry ftl lpn (get_maptbl_ent ftl lpn)
    unfolding IsConsistent get_maptbl_ent
    old-IsEntry = ok lpn inside is_mapped

    old_apart : ¬ SamePage (get_maptbl_ent ftl lpn) (page_at ftl.wp)
    old_apart s = free_apart (
        sym free
        ∙ ap (λ x. x.status)
            (sym (same_page_lem ftl.ssd (get_maptbl_ent ftl lpn) (page_at ftl.wp) s))
        ∙ old-IsEntry.valid)

    still_free :
        (get_pg (invalidate_page ftl.ssd (get_maptbl_ent ftl lpn)) (page_at ftl.wp)).status
        ≡ pg_free
    still_free =
        elim ((invalidate_page-HasStatus ftl.ssd (get_maptbl_ent ftl lpn)).others
          (page_at ftl.wp)) [ inl same ↦ same ∙ free | inr s ↦ elim (old_apart s) [ ] ]

    -- with its old page unmapped first, the logical page moves as from `ftl`
    module _ (f : ConvFtl)
        (m : Moved (unmapped ftl (get_maptbl_ent ftl lpn) time) f lpn (page_at ftl.wp)) where
      from_ftl : Moved ftl f lpn (page_at ftl.wp)
      unfolding unmapped get_maptbl_ent
      from_ftl = record {
        consistent = m.consistent;
        here = m.here;
        back = m.back;
        valid = m.valid;
        others = m.others;
        pages = λ q. elim (m.pages q) [
          | inr s ↦ inr s
          | inl same ↦ elim ((invalidate_page-HasStatus ftl.ssd (ftl.maptbl lpn)).others q) [
            | inl same' ↦ inl (same ∙ same')
            | inr s ↦ inr (inr s)
          ]
        ];
      }

    -- the logical page leaves its old page
    mapped_lem :
        (ftl' : ConvFtl) × (remap ftl lpn time ≡ some (page_at ftl.wp, ftl'))
        × Moved ftl ftl' lpn (page_at ftl.wp)
        × ((get_pg ftl'.ssd (get_maptbl_ent ftl lpn)).status ≡ pg_invalid)
    unfolding remap counted unmapped get_maptbl_ent invalidate_page remapped
    mapped_lem =
        let p = page_at ftl.wp in
        let f₀ = unmapped ftl (ftl.maptbl lpn) time in
        let but = unmapped-IsConsistentBut ftl g lpn time inside is_mapped ok in
        let m = remapped-Moved f₀ lpn p g inside in_device still_free but in
        (
          counted (remapped f₀ lpn p),
          rw
              (
                is_mapped,
                unmap_page_lem ftl g (ftl.maptbl lpn) time old-IsEntry.in_device old-IsEntry.valid,
                new_page_lem f₀ refl,
                map_page_lem f₀ lpn p g inside in_device still_free,
              )
              refl,
          counted-Moved ftl (remapped f₀ lpn p) lpn p (from_ftl (remapped f₀ lpn p) m),
          elim ((validate_page-HasStatus f₀.ssd p).others (ftl.maptbl lpn)) [
            | inl same ↦ same ∙ (invalidate_page-HasStatus ftl.ssd (ftl.maptbl lpn)).here
            | inr (ch, lun, pl, blk, pg) ↦
                elim (old_apart (sym ch, sym lun, sym pl, sym blk, sym pg)) [ ]
          ],
        )

-- Where the tables are consistent, `remap` on a logical page of the device, with the host's write
-- pointer at a free page of the device, succeeds: it moves the logical page to that page and makes
-- an old page invalid, moves no other logical page, and the tables stay consistent.
pub remap-Moved :
    (ftl : ConvFtl) (lpn time : ℕ)
    → IsGeometry ftl.ssd.sp
    → lpn < ftl.ssd.sp.tt_pgs
    → valid_ppa ftl.ssd.sp (page_at ftl.wp) ≡ true
    → (get_pg ftl.ssd (page_at ftl.wp)).status ≡ pg_free
    → IsConsistent ftl
    → (ftl' : ConvFtl) × (remap ftl lpn time ≡ some (page_at ftl.wp, ftl'))
      × Moved ftl ftl' lpn (page_at ftl.wp)
      × (mapped_ppa (get_maptbl_ent ftl lpn) ≡ true
          → (get_pg ftl'.ssd (get_maptbl_ent ftl lpn)).status ≡ pg_invalid)
remap-Moved ftl lpn time g inside in_device free ok =
    elim (Bool-cases (mapped_ppa (get_maptbl_ent ftl lpn))) [
      | inl is_mapped ↦
          let (f, e, m, gone) = mapped_lem ftl lpn time g inside in_device free ok is_mapped in
          (f, e, m, λ _. gone)
      | inr fresh ↦
          let (f, e, m) = fresh_lem ftl lpn time g inside in_device free ok fresh in
          (f, e, m, λ is_mapped. elim (true_apart (sym is_mapped ∙ fresh)) [ ])
    ]
