-- ===== src/Ssd/Timing/Idle.antt =====
-- ssd.c: the time at which the whole device is idle.
use wild_cat.Common.{
  ℕ, zero, suc, ◌≤◌, ◌<◌, ◌≡◌, refl, ◌∙◌, ◌==◌, max, arith, leb, ◌⊎◌, inl, inr, Bool-cases,
}
use wild_cat.Ssd.Params.{SsdParams}
use wild_cat.Ssd.Nand.{NandLun, SsdChannel, Ssd}
use wild_cat.Ssd.Timing.{latest_lun, latest_channel, ssd_next_idle_time}

last_or_before : (j n : ℕ) → j < suc n → (j ≡ n) ⊎ (j < n)
last_or_before j n lt = elim (Bool-cases (j == n)) [
  | inl e ↦ inl (ground arith)
  | inr e ↦ inr (ground arith)
]

max_cases : (a b : ℕ) → (max a b ≡ a) ⊎ (max a b ≡ b)
max_cases a b = elim (Bool-cases (leb a b)) [
  | inl e ↦ inr (ground arith)
  | inr e ↦ inl (ground arith)
]

-- the LUNs are free by `t`, which is `latest` or the time of a LUN
record IsLatest (n : ℕ) (luns : ℕ → NandLun) (latest t : ℕ) : Type 0 where
  start : latest ≤ t
  each : (j : ℕ) → j < n → (luns j).next_lun_avail_time ≤ t
  reached : (t ≡ latest) ⊎ ((j : ℕ) × (j < n) × (t ≡ (luns j).next_lun_avail_time))

latest_lun-IsLatest :
    (n : ℕ) (luns : ℕ → NandLun) (latest : ℕ) → IsLatest n luns latest (latest_lun n luns latest)
unfolding latest_lun
latest_lun-IsLatest zero luns latest = record {
  start = omega arith;
  each = λ j lt. absurd (omega arith);
  reached = inl refl;
}
latest_lun-IsLatest (suc n) luns latest =
    let h = latest_lun-IsLatest n luns latest in
    let t = latest_lun n luns latest in
    record {
      start = let s = h.start in omega arith;
      each = λ j lt. elim (last_or_before j n lt) [
        | inl e ↦ rw e (omega arith)
        | inr before ↦ let b = h.each j before in omega arith
      ];
      reached = elim (max_cases t (luns n).next_lun_avail_time) [
        | inr e ↦ inr (n, omega arith, e)
        | inl e ↦ elim h.reached [
          | inl at ↦ inl (e ∙ at)
          | inr (j, lt, at) ↦ inr (j, omega arith, e ∙ at)
        ]
      ];
    }

-- every LUN of the first `n` channels is free by `t`, which is `clock` or the time of one of them
pub record IsIdleTime (n m : ℕ) (chs : ℕ → SsdChannel) (clock t : ℕ) : Type 0 where
  pub start : clock ≤ t
  pub each : (i j : ℕ) → i < n → j < m → ((chs i).luns j).next_lun_avail_time ≤ t
  pub reached :
      (t ≡ clock)
      ⊎ ((i : ℕ) × (j : ℕ) × (i < n) × (j < m) × (t ≡ ((chs i).luns j).next_lun_avail_time))

latest_channel-IsIdleTime :
    (n : ℕ) (spp : SsdParams) (chs : ℕ → SsdChannel) (clock : ℕ)
    → IsIdleTime n spp.luns_per_ch chs clock (latest_channel n spp chs clock)
unfolding latest_channel
latest_channel-IsIdleTime zero spp chs clock = record {
  start = omega arith;
  each = λ i j lt _. absurd (omega arith);
  reached = inl refl;
}
latest_channel-IsIdleTime (suc n) spp chs clock =
    let h = latest_channel-IsIdleTime n spp chs clock in
    let t = latest_channel n spp chs clock in
    let l = latest_lun-IsLatest spp.luns_per_ch (chs n).luns t in
    record {
      start = omega (arith, h.start, l.start);
      each = λ i j lt inside. elim (last_or_before i n lt) [
        | inl e ↦ rw e (l.each j inside)
        | inr before ↦ omega (arith, h.each i j before inside, l.start)
      ];
      reached = elim l.reached [
        | inr (j, inside, e) ↦ inr (n, j, omega arith, inside, e)
        | inl e ↦ elim h.reached [
          | inl at ↦ inl (e ∙ at)
          | inr (i, j, lt, inside, at) ↦ inr (i, j, omega arith, inside, e ∙ at)
        ]
      ];
    }

-- The time that `ssd_next_idle_time` returns is the latest of the clock and of the times at which
-- the LUNs of the device are free: none is later, and it is one of them.
pub ssd_next_idle_time-IsIdleTime :
    (ssd : Ssd) (clock : ℕ)
    → IsIdleTime ssd.sp.nchs ssd.sp.luns_per_ch ssd.chs clock (ssd_next_idle_time ssd clock)
unfolding ssd_next_idle_time
ssd_next_idle_time-IsIdleTime ssd clock = latest_channel-IsIdleTime ssd.sp.nchs ssd.sp ssd.chs clock
