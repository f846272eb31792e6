-- ===== src/Zns/Manage/Actions.antt =====
-- The zone management command, on one zone and on all of them.
use native.Mathlib.Nat.{mod-le, div-le_of_le-mul}
use wild_cat.Common.{
  Bool-cases, ℕ, zero, suc, ◌*◌, ◌/◌, ◌^◌, ◌≤◌, ◌<◌, ◌≡◌, refl, Bool, false, Option, some, arith,
  inl, inr,
}
use wild_cat.Zns.State.{ZnsFtl, ZnsStatus, success, lba_to_zone, zone_to_slba}
use wild_cat.Zns.Account.{IsAccounted, zone_blocks}
use wild_cat.Zns.Machine.{Event, manage, Outcome, refused, kept, stepped, IsSameDevice}
use wild_cat.Zns.Manage.{
  SendAction, zsa_close, zsa_finish, zsa_open, zsa_reset, zsa_offline, zsa_flush_expl_zrwa,
  zsa_other, zmgmt_send, send_all, SendRequest, SendReply, zns_zmgmt_send,
}
use wild_cat.Zns.Manage.Refine.{close_at, open_at, offline_at}
use wild_cat.Zns.Manage.Surrender.{finish_at, reset_at}
use wild_cat.Zns.Machine.Steps.{unchanged_device, IsSameDevice-trans}
use wild_cat.Zns.Manage.Commit.{flush-Outcome}

-- a flush of a write area has a granule to divide by
abbrev pub HasGranule : ZnsFtl → SendAction → Type 0
HasGranule f a = a ≡ zsa_flush_expl_zrwa → 0 < f.zp.lbas_per_zrwafg

module _ (f : ZnsFtl) (slba : ℕ) (a : SendAction) (option : Bool) where
  pub zmgmt_send-Outcome :
      IsAccounted f
      → lba_to_zone f slba < f.zp.nr_zones
      → HasGranule f a
      → (r : Option ZnsStatus × ZnsFtl) × (zmgmt_send f slba a option ≡ some r)
        × Outcome f (lba_to_zone f slba) (manage a) r
  unfolding zmgmt_send
  zmgmt_send-Outcome acc lt granule = go a granule
    where
      go :
          (a : SendAction)
          → HasGranule f a
          → (r : Option ZnsStatus × ZnsFtl) × (zmgmt_send f slba a option ≡ some r)
            × Outcome f (lba_to_zone f slba) (manage a) r
      go zsa_close g = (_, refl, close_at f _ acc lt _ refl)
      go zsa_finish g = (_, refl, finish_at f _ acc lt _ refl)
      go zsa_open g = (_, refl, open_at f _ acc lt option _ refl)
      go zsa_reset g = (_, refl, reset_at f _ acc lt _ refl)
      go zsa_offline g = (_, refl, offline_at f _ acc lt _ refl)
      go zsa_flush_expl_zrwa g = flush-Outcome f slba acc lt (g refl)
      go zsa_other g = (_, refl, refused _ (λ x. ground (arith, x)))

pub Outcome-IsAccounted :
    {f : ZnsFtl} {z : ℕ} {e : Event} {r : Option ZnsStatus × ZnsFtl}
    → IsAccounted f
    → Outcome f z e r
    → IsAccounted r.1
Outcome-IsAccounted acc (refused s h) = acc
Outcome-IsAccounted acc (kept h) = acc
Outcome-IsAccounted acc (stepped f' d step b) = b.accounts

pub Outcome-IsSameDevice :
    {f : ZnsFtl} {z : ℕ} {e : Event} {r : Option ZnsStatus × ZnsFtl}
    → Outcome f z e r
    → IsSameDevice f r.1
Outcome-IsSameDevice (refused s h) = unchanged_device _
Outcome-IsSameDevice (kept h) = unchanged_device _
Outcome-IsSameDevice (stepped f' d step b) = b.device

-- the first block of a zone of the device is a block of the device
pub start_below :
    (f : ZnsFtl) (n : ℕ)
    → 0 < zone_blocks f
    → n < f.zp.nr_zones
    → lba_to_zone f (zone_to_slba f n) < f.zp.nr_zones
start_below f n pos lt =
    let wrapped : zone_to_slba f n ≤ n * zone_blocks f = mod-le (n * zone_blocks f) (2 ^ 32) in
    let part : zone_to_slba f n / zone_blocks f ≤ n = div-le_of_le-mul _ (omega (arith, wrapped)) in
    let word : lba_to_zone f (zone_to_slba f n) ≤ zone_to_slba f n / zone_blocks f =
      mod-le _ (2 ^ 32) in
    omega (arith, part, word)

module _ (f : ZnsFtl) (a : SendAction) (option : Bool) (acc : IsAccounted f)
    (granule : HasGranule f a) where
  pub send_all-kept :
      (n : ℕ)
      → n ≤ f.zp.nr_zones
      → (f' : ZnsFtl) × (send_all n f a option ≡ some f') × IsAccounted f' × IsSameDevice f f'
  unfolding send_all
  send_all-kept zero le = (f, refl, acc, unchanged_device f)
  send_all-kept (suc n) le =
      let (f', e, acc', device) = send_all-kept n (omega arith) in
      let nr = device.same_zp in
      let (r, e', out) =
        zmgmt_send-Outcome f' (zone_to_slba f' n) a option acc'
          (start_below f' n acc'.positive (rw nr (omega arith))) (rw nr granule) in
      (
        r.1,
        rw (send_all, e, e') refl,
        Outcome-IsAccounted acc' out,
        IsSameDevice-trans device (Outcome-IsSameDevice out),
      )

-- A zone management command on an accounted FTL, with a granule for a flush, on a zone of the device
-- or on all zones, ends and keeps the accounts, the geometry and the limits.
pub zns_zmgmt_send-IsAccounted :
    (f : ZnsFtl) (req : SendRequest)
    → IsAccounted f
    → (req.select_all ≡ false → lba_to_zone f req.slba < f.zp.nr_zones)
    → HasGranule f req.zsa
    → (reply : SendReply) × (f' : ZnsFtl) × (zns_zmgmt_send f req ≡ some (reply, f'))
      × IsAccounted f'
      × IsSameDevice f f'
unfolding zns_zmgmt_send
zns_zmgmt_send-IsAccounted f req acc inside granule = elim (Bool-cases req.select_all) [
  | inl all ↦
      let (f', e, acc', device) =
        send_all-kept f req.zsa req.zsaso acc granule f.zp.nr_zones (omega arith) in
      (
        record { status = some success; nsecs_target = req.nsecs_start },
        f',
        simp (zns_zmgmt_send, all, e) refl,
        acc',
        device,
      )
  | inr one ↦
      let (r, e, out) = zmgmt_send-Outcome f req.slba req.zsa req.zsaso acc (inside one) granule in
      (
        record { status = r.0; nsecs_target = req.nsecs_start },
        r.1,
        simp (zns_zmgmt_send, one, e) refl,
        Outcome-IsAccounted acc out,
        Outcome-IsSameDevice out,
      )
]
