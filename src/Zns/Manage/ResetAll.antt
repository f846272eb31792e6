-- ===== src/Zns/Manage/ResetAll.antt =====
-- The reset of all zones.
use native.Mathlib.Nat.{mul-le-mul_right, mul-le-mul_left, mul-div_left}
use wild_cat.Common.{
  ℕ, zero, suc, ◌∙◌, ◌+◌, ◌*◌, ◌/◌, ◌^◌, ◌≤◌, ◌<◌, ◌≡◌, ◌≢◌, refl, ap, Bool, true, false, some,
  ◌==◌, ltb, if◌then◌else◌, update, arith, inl, inr, Bool-cases, w32,
}
use wild_cat.Zns.State.{
  ZoneState, state_empty, state_opened_impl, state_opened_expl, state_closed, state_read_only,
  state_full, state_offline, ZoneDescriptor, ZnsFtl, active_zone, open_zone, zrwa_zone,
  change_zone_state, lba_to_zone, zone_to_slba,
}
use wild_cat.Zns.Account.{is_open, is_active, holds_zrwa, zones_with, IsAccounted, zone_blocks}
use wild_cat.Zns.Manage.Surrender.{given, given-res_infos, emptied}
use wild_cat.Zns.Machine.{IsSameDevice}
use wild_cat.Zns.Manage.Actions.{zmgmt_send-Outcome, Outcome-IsAccounted, Outcome-IsSameDevice}
use wild_cat.Zns.Manage.{zmgmt_send, send_all, send_reset_zone, reset_zone, zsa_reset}
use wild_cat.Zns.Machine.Steps.{update_twice, unchanged_device, IsSameDevice-trans}

module _ (f : ZnsFtl) (z : ℕ) where
  twice :
      (j : ℕ)
      → update
          (update f.zone_descs z (record (f.zone_descs z) { state = state_empty }))
          z
          (record (update f.zone_descs z (record (f.zone_descs z) { state = state_empty }) z) {
            wp = (update f.zone_descs z (record (f.zone_descs z) { state = state_empty }) z).zslba;
            zrwav = false;
          })
          j
        ≡ update f.zone_descs z (emptied (f.zone_descs z)) j
  unfolding emptied
  twice =
      update_twice f.zone_descs z (record (f.zone_descs z) { state = state_empty })
        (λ x. record x { wp = x.zslba; zrwav = false })

  emptied-given :
      (held : Bool) (j : ℕ)
      → (reset_zone
            (change_zone_state (given held (f.zone_descs z).zrwav f) z state_empty)
            z).zone_descs
          j
        ≡ update f.zone_descs z (emptied (f.zone_descs z)) j
  unfolding reset_zone
  emptied-given held j = rw (given-res_infos held (f.zone_descs z).zrwav f) (twice j)

  reset_changes :
      (s : ZoneState)
      → (f.zone_descs z).state ≡ s
      → s ≢ state_read_only
      → s ≢ state_offline
      → (j : ℕ)
      → (send_reset_zone f z).1.zone_descs j ≡ update f.zone_descs z (emptied (f.zone_descs z)) j
  unfolding send_reset_zone given reset_zone emptied
  reset_changes state_opened_impl e r o j = rw (e, send_reset_zone) (emptied-given true j)
  reset_changes state_opened_expl e r o j = rw (e, send_reset_zone) (emptied-given true j)
  reset_changes state_closed e r o j = rw (e, send_reset_zone) (emptied-given false j)
  reset_changes state_full e r o j = rw (e, send_reset_zone) (twice j)
  reset_changes state_empty e r o j = rw (e, send_reset_zone) (twice j)
  reset_changes state_read_only e r o j = absurd (r refl)
  reset_changes state_offline e r o j = absurd (o refl)

-- the first block of a zone of the device lies in that zone
own_zone :
    (f : ZnsFtl) (n : ℕ) → IsAccounted f → n < f.zp.nr_zones → lba_to_zone f (zone_to_slba f n) ≡ n
own_zone f n acc lt =
    let pos = acc.positive in
    let whole = acc.whole in
    let row : (n + 1) * zone_blocks f ≤ f.zp.nr_zones * zone_blocks f =
      mul-le-mul_right (zone_blocks f) (omega arith) in
    let unit : n * 1 ≤ n * zone_blocks f = mul-le-mul_left n pos in
    let below : n * zone_blocks f < 2 ^ 32 = ground (arith, row, whole, pos) in
    let exact : zone_to_slba f n ≡ n * zone_blocks f = omega (arith, below) in
    let quotient : n * zone_blocks f / zone_blocks f ≡ n = mul-div_left n pos in
    ap (λ x. w32 (x / zone_blocks f)) exact ∙ ap w32 quotient ∙ omega (arith, unit, below)

-- the zones that can be reset
abbrev pub AllUsable : ZnsFtl → Type 0
AllUsable f =
    (z : ℕ)
    → z < f.zp.nr_zones
    → ((f.zone_descs z).state ≢ state_read_only) × ((f.zone_descs z).state ≢ state_offline)

module _ (f : ZnsFtl) (option : Bool) (acc : IsAccounted f) (usable : AllUsable f) where
  settle :
      (n z : ℕ) (d d' : ZoneDescriptor)
      → d ≡ f.zone_descs n
      → d' ≡ (if ltb z n then emptied (f.zone_descs z) else f.zone_descs z)
      → (if n == z then emptied d else d')
        ≡ (if ltb z (suc n) then emptied (f.zone_descs z) else f.zone_descs z)
  settle n z d d' e e' = elim (Bool-cases (n == z)) [
    | inl same ↦
        let index : n ≡ z = ground (arith, same) in
        let within : ltb z (suc n) ≡ true = ground (arith, index) in
        rw (same, within) (ap emptied (e ∙ ap f.zone_descs index))
    | inr other ↦
        let kin : ltb z n ≡ ltb z (suc n) = ground (arith, other) in
        rw other (e' ∙ ap (λ b. if b then emptied (f.zone_descs z) else f.zone_descs z) kin)
  ]

  -- the reset of the zones before `n`
  abbrev IsPrefix : ℕ → ZnsFtl → Type 0
  IsPrefix n f' =
      (send_all n f zsa_reset option ≡ some f')
      × IsAccounted f'
      × IsSameDevice f f'
      × ((z : ℕ) → f'.zone_descs z ≡ (if ltb z n then emptied (f.zone_descs z) else f.zone_descs z))

  reset_prefix : (n : ℕ) → n ≤ f.zp.nr_zones → (f' : ZnsFtl) × IsPrefix n f'
  unfolding send_all zmgmt_send
  reset_prefix zero le = (
    f,
    (
      refl,
      acc,
      unchanged_device f,
      λ z. let never : ltb z 0 ≡ false = ground arith in rw never refl,
    ),
  )
  reset_prefix (suc n) le =
      let (f', (e, acc', device, descs)) = reset_prefix n (omega arith) in
      let nr : n < f'.zp.nr_zones = rw device.same_zp (omega arith) in
      let own = own_zone f' n acc' nr in
      let (r, e', out) =
        zmgmt_send-Outcome f' (zone_to_slba f' n) zsa_reset option acc' (rw own nr) (λ x. cc) in
      let before : f'.zone_descs n ≡ f.zone_descs n =
        let end : ltb n n ≡ false = ground arith in
        descs n ∙ ap (λ b. if b then emptied (f.zone_descs n) else f.zone_descs n) end in
      let (ro, o) = usable n (omega arith) in
      let f'' = (send_reset_zone f' (lba_to_zone f' (zone_to_slba f' n))).1 in
      let same : r.1 ≡ f'' = cc in
      (
        f'',
        (
          rw (send_all, e) refl,
          rw⁻¹ same (Outcome-IsAccounted acc' out),
          rw⁻¹ same (IsSameDevice-trans device (Outcome-IsSameDevice out)),
          λ z.
              ap (λ k. (send_reset_zone f' k).1.zone_descs z) own
              ∙ reset_changes f' n _ refl (rw before ro) (rw before o) z
              ∙ settle n z (f'.zone_descs n) (f'.zone_descs z) before (descs z),
        ),
      )

  none_left :
      (test : ZoneDescriptor → Bool)
      → ((d : ZoneDescriptor) → test (emptied d) ≡ false)
      → (n : ℕ) → (descs : ℕ → ZoneDescriptor)
      → ((z : ℕ) → z < n → descs z ≡ emptied (f.zone_descs z))
      → zones_with test descs n ≡ 0
  unfolding zones_with
  none_left test h zero descs all = refl
  none_left test h (suc n) descs all =
      let rest = none_left test h n descs (λ z lt. all z (omega arith)) in
      rw (all n (omega arith), h) (omega (arith, rest))

  -- A reset of all zones of an accounted FTL, none of them read-only or offline, ends, makes every
  -- zone empty with its write pointer at its start, and gives every resource back.
  pub send_all-reset :
      (f' : ZnsFtl) × (send_all f.zp.nr_zones f zsa_reset option ≡ some f')
      × ((z : ℕ) → z < f.zp.nr_zones → f'.zone_descs z ≡ emptied (f.zone_descs z))
      × ((f'.res_infos active_zone).acquired_cnt ≡ 0)
      × ((f'.res_infos open_zone).acquired_cnt ≡ 0)
      × ((f'.res_infos zrwa_zone).acquired_cnt ≡ 0)
  unfolding emptied
  send_all-reset =
      let (f', (e, acc', device, descs)) = reset_prefix f.zp.nr_zones (omega arith) in
      let nr = device.same_zp in
      let all : (z : ℕ) → z < f.zp.nr_zones → f'.zone_descs z ≡ emptied (f.zone_descs z) = λ z lt.
        let within : ltb z f.zp.nr_zones ≡ true = ground arith in
        descs z ∙ ap (λ b. if b then emptied (f.zone_descs z) else f.zone_descs z) within in
      (
        f',
        e,
        all,
        acc'.active_counter.exact ∙ rw nr (none_left is_active (λ d. refl) f.zp.nr_zones _ all),
        acc'.open_counter.exact ∙ rw nr (none_left is_open (λ d. refl) f.zp.nr_zones _ all),
        acc'.zrwa_counter.exact ∙ rw nr (none_left holds_zrwa (λ d. refl) f.zp.nr_zones _ all),
      )
