-- ===== src/ConvFtl/WritePointer/Walk.antt =====
-- conv_ftl.c: the order in which a write pointer goes through the pages of a line.
use wild_cat.Common.{
  ℕ, ◌+◌, ◌-◌, ◌*◌, ◌/◌, ◌%◌, ◌^◌, ◌≤◌, ◌<◌, ◌≡◌, ◌≢◌, refl, sym, ap, ◌∙◌, Bool, true, false, some,
  arith, ◌==◌, add32, sub32, ◌⊎◌, inl, inr, Bool-cases,
}
use wild_cat.Common.Radix.{high_digit}
use wild_cat.ConvFtl.WritePointer.Digits.{
  inside_wordline, no_wrap, zero_apart, multiple, carry_ch, carry_lun, plus_zero, zero_digits, ==→≡,
}
use wild_cat.Ssd.Params.{SsdParams}
use wild_cat.Ssd.Params.Geometry.{IsGeometry}
use wild_cat.ConvFtl.State.{WritePointer}
use wild_cat.ConvFtl.WritePointer.{check_addr, step_pointer}

-- the pointer stands in its line
pub record InLine (spp : SsdParams) (w : WritePointer) : Type 0 where
  pub pg : w.pg < spp.pgs_per_blk
  pub ch : w.ch < spp.nchs
  pub lun : w.lun < spp.luns_per_ch

-- the pages of a line before the pointer: word line by word line through the LUNs, in each word
-- line of LUN by LUN through the channels, in each page by page
pub position : SsdParams → WritePointer → ℕ
position spp w =
    let ops = spp.pgs_per_oneshotpg in
    ((w.pg / ops * spp.luns_per_ch + w.lun) * spp.nchs + w.ch) * ops + w.pg % ops

addr_lem : (a n : ℕ) → a < n → n < 2 ^ 31 → check_addr a n ≡ true
unfolding check_addr
addr_lem a n lt small = ground arith

-- the step of `w` gives `w'`, in the same line, at the next place or, at the end, at the first
pub record Stepped (spp : SsdParams) (w w' : WritePointer) (at_end : Bool) : Type 0 where
  pub step : step_pointer spp w ≡ some (w', at_end)
  pub in_line : InLine spp w'
  pub same_line : (w'.curline ≡ w.curline) × (w'.blk ≡ w.blk) × (w'.pl ≡ w.pl)
  pub next :
      ((at_end ≡ false) × (position spp w' ≡ position spp w + 1))
      ⊎ ((at_end ≡ true) × (position spp w + 1 ≡ spp.pgs_per_line) × (position spp w' ≡ 0))

module _ (spp : SsdParams) (g : IsGeometry spp) (w : WritePointer) (i : InLine spp w) where
  pg_ok : check_addr w.pg spp.pgs_per_blk ≡ true
  pg_ok = addr_lem _ _ i.pg (omega (arith, g.pgs_fit))

  pg_no_wrap : add32 w.pg 1 ≡ w.pg + 1
  pg_no_wrap = no_wrap w.pg (omega (arith, i.pg, g.pgs_fit))

  same_wordline :
      (w.pg + 1) % spp.pgs_per_oneshotpg ≡ w.pg % spp.pgs_per_oneshotpg + 1
      → (w.pg + 1) / spp.pgs_per_oneshotpg ≡ w.pg / spp.pgs_per_oneshotpg
      → Stepped spp w (record w { pg = w.pg + 1 }) false
  unfolding step_pointer position
  same_wordline m d =
      let not_end : w.pg + 1 ≢ spp.pgs_per_blk = λ e. zero_apart _ (
        sym (
          ap (λ x. x % spp.pgs_per_oneshotpg) (e ∙ g.wordlines)
          ∙ multiple spp.oneshotpgs_per_blk spp.pgs_per_oneshotpg g.some_pages)
        ∙ m) in
      let inside : w.pg + 1 < spp.pgs_per_blk = ground (arith, i.pg, not_end) in
      let test : ((w.pg % spp.pgs_per_oneshotpg + 1) == 0) ≡ false = ground arith in
      record {
        step = rw (pg_ok, pg_no_wrap, m, test) refl;
        in_line = record { pg = inside; ch = i.ch; lun = i.lun };
        same_line = (refl, refl, refl);
        next = inl (refl, rw (m, d) (omega arith));
      }

  -- The last page of a word line: `pg'` is its first one.
  module _ (z : (w.pg + 1) % spp.pgs_per_oneshotpg ≡ 0)
      (last : w.pg % spp.pgs_per_oneshotpg + 1 ≡ spp.pgs_per_oneshotpg)
      (fits : spp.pgs_per_oneshotpg ≤ w.pg + 1)
      (whole : w.pg + 1 ≡ (w.pg / spp.pgs_per_oneshotpg + 1) * spp.pgs_per_oneshotpg)
      (m : (w.pg + 1 - spp.pgs_per_oneshotpg) % spp.pgs_per_oneshotpg ≡ 0)
      (d : (w.pg + 1 - spp.pgs_per_oneshotpg) / spp.pgs_per_oneshotpg
        ≡ w.pg / spp.pgs_per_oneshotpg) where
    back : sub32 (w.pg + 1) spp.pgs_per_oneshotpg ≡ w.pg + 1 - spp.pgs_per_oneshotpg
    back = omega (arith, fits, i.pg, g.pgs_fit)

    ch_ok : check_addr w.ch spp.nchs ≡ true
    ch_ok = addr_lem _ _ i.ch (omega (arith, g.chs_fit))

    ch_no_wrap : add32 w.ch 1 ≡ w.ch + 1
    ch_no_wrap = no_wrap w.ch (omega (arith, i.ch, g.chs_fit))

    lun_ok : check_addr w.lun spp.luns_per_ch ≡ true
    lun_ok = addr_lem _ _ i.lun (omega (arith, g.luns_fit))

    lun_no_wrap : add32 w.lun 1 ≡ w.lun + 1
    lun_no_wrap = no_wrap w.lun (omega (arith, i.lun, g.luns_fit))

    next_channel :
        (w.ch + 1 == spp.nchs) ≡ false
        → Stepped spp w (record w { pg = w.pg + 1 - spp.pgs_per_oneshotpg; ch = w.ch + 1 }) false
    unfolding step_pointer position
    next_channel more = record {
      step = rw (pg_ok, pg_no_wrap, z, back, ch_ok, ch_no_wrap, more) refl;
      in_line = record {
        pg = omega (arith, i.pg, fits);
        ch = ground (arith, i.ch, more);
        lun = i.lun;
      };
      same_line = (refl, refl, refl);
      next = inl (refl, rw (m, d) (omega (arith, last)));
    }

    next_lun :
        (w.ch + 1 == spp.nchs) ≡ true
        → (w.lun + 1 == spp.luns_per_ch) ≡ false
        → Stepped spp w
            (record w { pg = w.pg + 1 - spp.pgs_per_oneshotpg; ch = 0; lun = w.lun + 1 })
            false
    unfolding step_pointer position
    next_lun round more = record {
      step =
          rw (pg_ok, pg_no_wrap, z, back, ch_ok, ch_no_wrap, round, lun_ok, lun_no_wrap, more) refl;
      in_line = record {
        pg = omega (arith, i.pg, fits);
        ch = omega (arith, i.ch);
        lun = ground (arith, i.lun, more);
      };
      same_line = (refl, refl, refl);
      next = inl (refl, rw (m, d) (carry_ch _ _ _ _ _ _ (ground (arith, round)) last));
    }

    module _ (round : (w.ch + 1 == spp.nchs) ≡ true)
        (last_lun : (w.lun + 1 == spp.luns_per_ch) ≡ true) where
      pg_back : add32 (w.pg + 1 - spp.pgs_per_oneshotpg) spp.pgs_per_oneshotpg ≡ w.pg + 1
      pg_back = omega (arith, fits, i.pg, g.pgs_fit)

      carried :
          (w.pg / spp.pgs_per_oneshotpg + 1) * spp.luns_per_ch * spp.nchs * spp.pgs_per_oneshotpg
          ≡ position spp w + 1
      unfolding position
      carried = carry_lun _ _ _ _ _ _ _ (ground (arith, last_lun)) (ground (arith, round)) last

      next_wordline :
          (w.pg + 1 == spp.pgs_per_blk) ≡ false
          → Stepped spp w (record w { pg = w.pg + 1; ch = 0; lun = 0 }) false
      unfolding step_pointer position
      next_wordline more =
          let row : (w.pg + 1) / spp.pgs_per_oneshotpg ≡ w.pg / spp.pgs_per_oneshotpg + 1 =
            ap (λ x. x / spp.pgs_per_oneshotpg) (whole ∙ plus_zero _)
            ∙ high_digit _ 0 _ g.some_pages in
          record {
            step =
                rw
                  (
                    pg_ok, pg_no_wrap, z, back, ch_ok, ch_no_wrap, round, lun_ok, lun_no_wrap,
                    last_lun, pg_back, more,
                  )
                  refl;
            in_line = record {
              pg = ground (arith, i.pg, more);
              ch = omega (arith, i.ch);
              lun = omega (arith, i.lun);
            };
            same_line = (refl, refl, refl);
            next = inl (refl, rw (z, row) (omega (arith, carried)));
          }

      origin : position spp (record w { pg = 0; ch = 0; lun = 0 }) ≡ 0
      unfolding position
      origin =
          let (row, page) = zero_digits spp.pgs_per_oneshotpg g.some_pages in
          rw (row, page) (omega arith)

      line_end :
          (w.pg + 1 == spp.pgs_per_blk) ≡ true
          → Stepped spp w (record w { pg = 0; ch = 0; lun = 0 }) true
      unfolding step_pointer position
      line_end full = record {
        step =
            rw
              (
                pg_ok, pg_no_wrap, z, back, ch_ok, ch_no_wrap, round, lun_ok, lun_no_wrap, last_lun,
                pg_back, full,
              )
              refl;
        in_line = record {
          pg = omega (arith, i.pg);
          ch = omega (arith, i.ch);
          lun = omega (arith, i.lun);
        };
        same_line = (refl, refl, refl);
        next =
            inr (refl, sym carried ∙ rw (g.line, sym (==→≡ _ _ full), whole) (omega arith), origin);
      }

-- From a page of its line, `step_pointer` moves the pointer to the next page of the same line in the
-- order of `position`, or, exactly at the last of the `pgs_per_line` pages, to the first one, and
-- then says that the line ends.
pub step_pointer-Stepped :
    (spp : SsdParams) (w : WritePointer)
    → IsGeometry spp
    → InLine spp w
    → (w' : WritePointer) × (at_end : Bool) × Stepped spp w w' at_end
step_pointer-Stepped spp w g i = elim (inside_wordline w.pg spp.pgs_per_oneshotpg g.some_pages) [
  | inl (m, d) ↦ (_, _, same_wordline spp g w i m d)
  | inr (z, last, fits, whole, m, d) ↦ elim (Bool-cases (w.ch + 1 == spp.nchs)) [
    | inr more ↦ (_, _, next_channel spp g w i z last fits whole m d more)
    | inl round ↦ elim (Bool-cases (w.lun + 1 == spp.luns_per_ch)) [
      | inr more ↦ (_, _, next_lun spp g w i z last fits whole m d round more)
      | inl last_lun ↦ elim (Bool-cases (w.pg + 1 == spp.pgs_per_blk)) [
        | inr more ↦ (_, _, next_wordline spp g w i z last fits whole m d round last_lun more)
        | inl full ↦ (_, _, line_end spp g w i z last fits whole m d round last_lun full)
      ]
    ]
  ]
]
