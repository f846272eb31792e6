-- ===== src/Zns/Write/Admit.antt =====
-- A write that is admitted stays in its zone, and is a step of the zone state machine.
use native.Mathlib.Nat.{
  div-eq_of_lt-le, div-lt_iff_lt-mul, le-div_iff_mul-le, lt-div-mul-add, mul-le-mul_left,
  mul-le-mul_right,
}
use mathlib.Core.Path.{subst}
use wild_cat.Common.{
  ℕ, ◌+◌, ◌-◌, ◌*◌, ◌/◌, ◌%◌, ◌^◌, ◌≤◌, ◌<◌, ◌≡◌, ◌≢◌, refl, ap, ◌∙◌, true, false, none, some, ◌==◌,
  arith, inl, inr, Bool-cases, w32, add64, sub64,
}
use wild_cat.Zns.State.{state_full, ZnsStatus, success, ZnsFtl}
use wild_cat.Zns.Account.{is_open, is_active, IsAccounted, zone_blocks}
use wild_cat.Zns.Manage.{with_status}
use wild_cat.Zns.Machine.Steps.{update_here, Becomes-trans}
use wild_cat.Zns.Namespace.{lba_to_byte}
use wild_cat.Zns.Machine.{
  write, write_part, write_last, zone_end, Outcome, Becomes, refused, stepped,
}
use wild_cat.Zns.Write.Open.{OpenResult, unopened, opened, open_for_write-OpenResult}
use wild_cat.Zns.Write.Pointer.{advance_part, advance_last}
use wild_cat.Zns.Write.{advance_opened, check_boundary_error, increase_write_ptr, admit_write}

index_word : (z size : ℕ) → 0 < size → (z + 1) * size ≤ 2 ^ 32 → z < 2 ^ 32
index_word z size pos fits =
    let part : (z + 1) * 1 ≤ (z + 1) * size = mul-le-mul_left (z + 1) pos in omega (arith, part)

ends_before : (z size wp k : ℕ) → 0 < size → wp < z * size + size → wp + k - 1 < (z + 1 + k) * size
ends_before z size wp k pos room =
    let part : k * 1 ≤ k * size = mul-le-mul_left k pos in ground (arith, part)

-- a range that begins in a zone and whose last block lies in the same one, by the words that the
-- code computes
pub ends_inside :
    (z size wp k : ℕ)
    → 0 < size
    → (z + 1) * size ≤ 2 ^ 32
    → z * size ≤ wp
    → wp < z * size + size
    → 1 ≤ k
    → k < 2 ^ 32
    → w32 (wp / size) ≡ w32 (sub64 (add64 wp k) 1 / size)
    → wp + k ≤ z * size + size
ends_inside z size wp k pos fits from room one small same =
    let sum : sub64 (add64 wp k) 1 ≡ wp + k - 1 = ground arith in
    let own : wp / size ≡ z = div-eq_of_lt-le size from (omega (arith, room)) in
    let far : wp + k - 1 < (z + 1 + k) * size = ends_before z size wp k pos room in
    let up : (wp + k - 1) / size < z + 1 + k = (div-lt_iff_lt-mul pos).1 far in
    let down : z ≤ (wp + k - 1) / size = (le-div_iff_mul-le pos).1 (omega arith) in
    let word : z < 2 ^ 32 = index_word z size pos fits in
    let there : w32 ((wp + k - 1) / size) ≡ z =
      omega (arith, ap (λ x. w32 (x / size)) sum, same, own, word) in
    let last : (wp + k - 1) / size ≡ z = omega (arith, there, up, down, word, small) in
    let bound : wp + k - 1 < (wp + k - 1) / size * size + size = lt-div-mul-add pos in
    omega (arith, ap (λ q. q * size) last, bound)

module _ (f : ZnsFtl) (z : ℕ) (acc : IsAccounted f) (lt : z < f.zp.nr_zones) where
  zone_fits : (z + 1) * zone_blocks f ≤ 2 ^ 32
  zone_fits =
      let whole = acc.whole in
      let row : (z + 1) * zone_blocks f ≤ f.zp.nr_zones * zone_blocks f =
        mul-le-mul_right (zone_blocks f) (omega arith) in
      omega (arith, whole, row)

  -- the start of a zone of the device does not wrap around
  zone_start : (f.zone_descs z).zslba ≡ z * zone_blocks f
  zone_start =
      let zone = acc.zones z lt in
      let start = zone.start in
      let fits = zone_fits in let pos = acc.positive in ground (arith, start, fits, pos)

advance_opened-refused :
    (z k : ℕ) (s : ZnsStatus) (f : ZnsFtl) → s ≢ success → advance_opened z k (s, f) ≡ (s, f)
advance_opened-refused z k success f h = absurd (h refl)
advance_opened-refused z k _ f h = refl

module _ (f : ZnsFtl) (z k : ℕ) (lt : z < f.zp.nr_zones) (one : 1 ≤ k) (small : k < 2 ^ 32) where
  -- in an open zone, a range that begins at the write pointer ends in the zone
  fits_zone :
      IsAccounted f
      → is_active (f.zone_descs z) ≡ true
      → check_boundary_error f (f.zone_descs z).wp k ≡ true
      → (f.zone_descs z).wp + k ≤ zone_end (f.zone_descs z)
  fits_zone acc a inside =
      let zone = acc.zones z lt in
      let start = zone_start f z acc lt in
      let fits = zone_fits f z acc lt in
      let lower = zone.lower in
      let upper = zone.upper in
      let capacity = zone.capacity in
      let room : (f.zone_descs z).wp < z * zone_blocks f + zone_blocks f =
        ground (arith, a, start, upper) in
      let end =
        ends_inside z (zone_blocks f) (f.zone_descs z).wp k acc.positive fits
          (omega (arith, start, lower)) room one small (ground (arith, inside)) in
      omega (arith, end, capacity, start)

module _ (f : ZnsFtl) (z k : ℕ) (lt : z < f.zp.nr_zones) (one : 1 ≤ k) (small : k < 2 ^ 32) where
  advance :
      (r : ZnsStatus × ZnsFtl)
      → OpenResult f z r
      → (f.zone_descs z).zrwav ≡ false
      → check_boundary_error f (f.zone_descs z).wp k ≡ true
      → Outcome f z (write k) (with_status (advance_opened z k r))
  advance _ (unopened s h) plain inside =
      rw (advance_opened-refused z k s f h)
        (refused _ (λ x. h (ap (λ o. elim o [ none ↦ s | some v ↦ v ]) x)))
  advance _ (opened f₁ s op o a b) plain inside =
      let zp = b.device.same_zp in
      let ssd = b.device.same_ssd in
      let acc = b.accounts in
      let lt₁ : z < f₁.zp.nr_zones = rw zp lt in
      let here : f₁.zone_descs z ≡ record (f.zone_descs z) { state = s } =
        b.changed z ∙ update_here f.zone_descs z (record (f.zone_descs z) { state = s }) in
      let o₁ : is_open (f₁.zone_descs z) ≡ true = rw here o in
      let a₁ : is_active (f₁.zone_descs z) ≡ true = rw here a in
      let inside₁ : check_boundary_error f₁ (f₁.zone_descs z).wp k ≡ true =
        rw (zp, ssd, here) inside in
      let fit : (f₁.zone_descs z).wp + k ≤ zone_end (f₁.zone_descs z) =
        fits_zone f₁ z k lt₁ one small acc a₁ inside₁ in
      elim (Bool-cases ((f.zone_descs z).wp + k == zone_end (f.zone_descs z))) [
        | inl last ↦ stepped _ _ (write_last k op (ground (arith, last))) (
            Becomes-trans b (
              subst
                (λ x.
                  Becomes f₁ z (record x { wp = zone_end x; state = state_full })
                    (increase_write_ptr f₁ z k))
                here (advance_last f₁ z k acc lt₁ fit o₁ a₁ (rw here plain) (rw here last))))
        | inr more ↦ stepped _ _ (write_part k op (ground (arith, more, fit, here))) (
            Becomes-trans b (
              subst (λ x. Becomes f₁ z (record x { wp = x.wp + k }) (increase_write_ptr f₁ z k))
                here (advance_part f₁ z k acc lt₁ fit o₁ a₁ (rw here more))))
      ]

  -- The checks of a write and the step of the write pointer, on a zone of an accounted FTL that has
  -- no write area: the write is refused, or it is the step of the machine for as many blocks.
  pub admit_write-Outcome :
      (slba : ℕ)
      → IsAccounted f
      → (f.zone_descs z).zrwav ≡ false
      → Outcome f z (write k) (with_status (admit_write f z slba k))
  unfolding admit_write
  admit_write-Outcome slba acc plain =
      elim (Bool-cases (lba_to_byte k % f.ssd.sp.write_unit_size == 0)) [
        | inr part ↦ rw (admit_write, part) (refused _ (λ x. ground (arith, x)))
        | inl whole ↦ elim (Bool-cases (check_boundary_error f slba k)) [
          | inr across ↦ rw (admit_write, whole, across) (refused _ (λ x. ground (arith, x)))
          | inl inside ↦ elim (Bool-cases (slba == (f.zone_descs z).wp)) [
            | inr off ↦ rw (admit_write, whole, inside, off) (refused _ (λ x. ground (arith, x)))
            | inl at_wp ↦
                let e : slba ≡ (f.zone_descs z).wp = ground (arith, at_wp) in
                rw (admit_write, whole, inside, at_wp)
                  (advance _ (open_for_write-OpenResult f z acc lt slba) plain
                    (subst (λ x. check_boundary_error f x k ≡ true) e inside))
          ]
        ]
      ]
