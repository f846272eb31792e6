-- ===== src/Kv/Transfer/Bytes.antt =====
-- What the copies of a transfer do to each byte.
use wild_cat.Common.{
  ℕ, ◌+◌, ◌-◌, ◌≤◌, ◌<◌, ◌≡◌, ◌≢◌, refl, sym, ◌∙◌, Bool, true, false, ◌&&◌, List, [], ◌∷◌, ltb, leb,
  if◌then◌else◌, arith, ap, inl, inr, Bool-cases,
}
use wild_cat.Zns.Report.{PrpCopy}
use wild_cat.Zns.Report.Copies.{Tiles, done, next}
use wild_cat.Kv.Transfer.{memcpy, take_in, give_out}

-- whether a byte is in a range
abbrev pub in_range : ℕ → ℕ → ℕ → Bool
in_range i s e = leb s i && ltb i e

-- the address of the host at which a byte of a transfer stands
abbrev pub address_of : List PrpCopy → ℕ → ℕ
address_of [] i = 0
address_of (c ∷ cs) i =
    if in_range i c.offset (c.offset + c.size) then c.paddr + (i - c.offset) else address_of cs i

pub Tiles-le : {s e : ℕ} (cs : List PrpCopy) → Tiles s e cs → s ≤ e
Tiles-le _ done = omega arith
Tiles-le _ (next c pos page t) = let le = Tiles-le _ t in omega (arith, le, pos)

within : (i s m e : ℕ) → s ≤ m → m ≤ e → in_range i m e ≡ true → in_range i s e ≡ true
within i s m e a b h = ground (arith, a, b, h)

-- The bytes of a transfer from the host stand at their places, and no other byte changes.
pub take_in_lem :
    {s e : ℕ} (cs : List PrpCopy) (host dst : ℕ → ℕ) (base x : ℕ)
    → Tiles s e cs
    → take_in cs host dst base x
      ≡ (if in_range x (base + s) (base + e) then host (address_of cs (x - base)) else dst x)
unfolding take_in
take_in_lem {s} {e} _ host dst base x done =
    let empty : in_range x (base + s) (base + s) ≡ false = ground arith in rw empty refl
take_in_lem {s} {e} _ host dst base x (next c {cs = cs} pos page t) =
    let le = Tiles-le cs t in
    let rest = take_in_lem cs host (memcpy dst (base + c.offset) host c.paddr c.size) base x t in
    elim (Bool-cases (in_range x (base + (c.offset + c.size)) (base + e))) [
      | inl later ↦
          let whole : in_range x (base + c.offset) (base + e) ≡ true = ground (arith, later) in
          let not_here : in_range (x - base) c.offset (c.offset + c.size) ≡ false =
            ground (arith, later) in
          rw (rest, later, whole, not_here) refl
      | inr not_later ↦
          elim (Bool-cases (in_range x (base + c.offset) (base + c.offset + c.size))) [
            | inl now ↦
                let whole : in_range x (base + c.offset) (base + e) ≡ true =
                  ground (arith, now, le) in
                let here : in_range (x - base) c.offset (c.offset + c.size) ≡ true =
                  ground (arith, now) in
                let same : x - (base + c.offset) ≡ x - base - c.offset = omega arith in
                rw (rest, not_later, now, whole, here, same) refl
            | inr not_now ↦
                let outside : in_range x (base + c.offset) (base + e) ≡ false =
                  ground (arith, not_later, not_now, le) in
                rw (rest, not_later, not_now, outside) refl
          ]
    ]

address_later :
    (c : PrpCopy) (cs : List PrpCopy) (i : ℕ)
    → c.offset + c.size ≤ i
    → address_of (c ∷ cs) i ≡ address_of cs i
address_later c cs i h =
    let past : in_range i c.offset (c.offset + c.size) ≡ false = ground (arith, h) in rw past refl

address_here :
    (c : PrpCopy) (cs : List PrpCopy) (i : ℕ)
    → in_range i c.offset (c.offset + c.size) ≡ true
    → address_of (c ∷ cs) i ≡ c.paddr + (i - c.offset)
address_here c cs i h = rw h refl

pub memcpy_here :
    (dst src : ℕ → ℕ) (d s n x : ℕ)
    → in_range x d (d + n) ≡ true
    → memcpy dst d src s n x ≡ src (s + (x - d))
memcpy_here dst src d s n x h = rw h refl

pub memcpy_other :
    (dst src : ℕ → ℕ) (d s n x : ℕ) → in_range x d (d + n) ≡ false → memcpy dst d src s n x ≡ dst x
memcpy_other dst src d s n x h = rw h refl

-- an address at which no byte of a transfer stands keeps what it has
give_out-other :
    {s e : ℕ} (cs : List PrpCopy) (host src : ℕ → ℕ) (base x : ℕ)
    → Tiles s e cs
    → ((i : ℕ) → s ≤ i → i < e → address_of cs i ≢ x)
    → give_out cs host src base x ≡ host x
unfolding give_out
give_out-other _ host src base x done apart = refl
give_out-other {e = e} _ host src base x (next c {cs = cs} pos page t) apart =
    let le = Tiles-le cs t in
    let rest =
      give_out-other cs (memcpy host c.paddr src (base + c.offset) c.size) src base x t
        (λ i lo hi same. apart i (omega (arith, lo)) hi (address_later c cs i lo ∙ same)) in
    elim (Bool-cases (in_range x c.paddr (c.paddr + c.size))) [
      | inr outside ↦ rest ∙ memcpy_other host src c.paddr (base + c.offset) c.size x outside
      | inl inside ↦
          let i = c.offset + (x - c.paddr) in
          let here : in_range i c.offset (c.offset + c.size) ≡ true = ground (arith, inside) in
          let at_x : c.paddr + (i - c.offset) ≡ x = ground (arith, inside) in
          absurd
            (apart i (omega arith) (ground (arith, here, le)) (address_here c cs i here ∙ at_x))
    ]

-- The bytes of a transfer to the host stand at their addresses, if no two have the same.
pub give_out_lem :
    {s e : ℕ} (cs : List PrpCopy) (host src : ℕ → ℕ) (base i : ℕ)
    → Tiles s e cs
    → ((i j : ℕ) → s ≤ i → i < e → s ≤ j → j < e → address_of cs i ≡ address_of cs j → i ≡ j)
    → s ≤ i
    → i < e
    → give_out cs host src base (address_of cs i) ≡ src (base + i)
unfolding give_out
give_out_lem _ host src base i done distinct lo hi = absurd (omega (arith, lo, hi))
give_out_lem {e = e} _ host src base i (next c {cs = cs} pos page t) distinct lo hi =
    let host' = memcpy host c.paddr src (base + c.offset) c.size in
    elim (Bool-cases (in_range i c.offset (c.offset + c.size))) [
      | inl now ↦
          let x = c.paddr + (i - c.offset) in
          let apart : (j : ℕ) → c.offset + c.size ≤ j → j < e → address_of cs j ≢ x =
            λ j lo' hi' same.
              let meet =
                distinct j i (omega (arith, lo')) hi' lo hi
                  (address_later c cs j lo' ∙ same ∙ sym (address_here c cs i now)) in
              ground (arith, now, lo', meet) in
          let inside : in_range x c.paddr (c.paddr + c.size) ≡ true = ground (arith, now) in
          let place : base + c.offset + (x - c.paddr) ≡ base + i = omega (arith, lo) in
          rw now (
            give_out-other cs host' src base x t apart
            ∙ memcpy_here host src c.paddr (base + c.offset) c.size x inside
            ∙ ap src place)
      | inr later ↦
          let lo' : c.offset + c.size ≤ i = ground (arith, later, lo) in
          rw later (
            give_out_lem cs host' src base i t
              (λ j k lj hj lk hk same.
                distinct j k (omega (arith, lj)) hj (omega (arith, lk)) hk
                  (address_later c cs j lj ∙ same ∙ sym (address_later c cs k lk)))
              lo' hi)
    ]
