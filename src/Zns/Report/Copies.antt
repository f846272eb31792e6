-- ===== src/Zns/Report/Copies.antt =====
-- The copies of a transfer cover the buffer in order, each within one page of the host.
use mathlib.Core.Path.{subst}
use wild_cat.Common.{
  ◌⊎◌, ◌*◌, ◌/◌, leb, true, sym, ap, ◌∙◌, if◌then◌else◌, ℕ, zero, suc, ◌+◌, ◌-◌, ◌%◌, ◌≤◌, ◌<◌, ◌≡◌,
  refl, false, Option, some, List, [], ◌∷◌, ◌==◌, ltb, arith, inl, inr, Bool-cases,
}
use wild_cat.Zns.Report.{
  page_size, PrpCopy, io_size_at, list_copies, second_copies, prp_transfer_data,
}

-- The copies take the bytes from `s` up to `e`, one after the other.
pub data Tiles : ℕ → ℕ → List PrpCopy → Type 0 where
  done : {e : ℕ} → Tiles e e []
  next :
      {e : ℕ} (c : PrpCopy) {cs : List PrpCopy}
      → 0 < c.size
      → c.paddr % page_size + c.size ≤ page_size
      → Tiles (c.offset + c.size) e cs
      → Tiles c.offset e (c ∷ cs)

-- the address of each round: the first address, then the second one or the list that it names
unfoldable pub address_of_round : (ℕ → ℕ) → ℕ → ℕ → ℕ → ℕ → ℕ
address_of_round entries prp1 prp2 length zero = prp1
address_of_round entries prp1 prp2 length (suc zero) =
    if ltb page_size (length - io_size_at prp1 length) then entries 0 else prp2
address_of_round entries prp1 prp2 length (suc (suc k)) = entries (suc k)

-- the copies from the round `k` on go to the addresses of their rounds
abbrev pub AreAt : (ℕ → ℕ) → ℕ → List PrpCopy → Type 0
AreAt address k [] = Unit {0}
AreAt address k (c ∷ cs) = (c.paddr ≡ address k) × AreAt address (suc k) cs

-- What a transfer expects of its second address, behind its first page: one page is at its start, and
-- a list is one of starts of pages and ends within its own page.
pub record IsReachable (entries : ℕ → ℕ) (prp2 rest : ℕ) : Type 0 where
  pub single : rest ≤ page_size → prp2 % page_size ≡ 0
  pub whole : page_size < rest → (k : ℕ) → entries k % page_size ≡ 0
  pub room : page_size < rest → prp2 % page_size + 8 * ((rest + 4095) / page_size) ≤ page_size

io_size_at-pos : (paddr remaining : ℕ) → 0 < remaining → 0 < io_size_at paddr remaining
unfolding io_size_at
io_size_at-pos paddr remaining pos = ground arith

io_size_at-page : (paddr remaining : ℕ) → paddr % page_size + io_size_at paddr remaining ≤ page_size
unfolding io_size_at
io_size_at-page paddr remaining = ground arith

io_size_at-le : (paddr remaining : ℕ) → io_size_at paddr remaining ≤ remaining
unfolding io_size_at
io_size_at-le paddr remaining = ground arith

-- a copy in front of copies that cover the rest
copied :
    (paddr offset remaining : ℕ) (cs : List PrpCopy)
    → 0 < remaining
    → Tiles
        (offset + io_size_at paddr remaining)
        (offset + io_size_at paddr remaining + (remaining - io_size_at paddr remaining))
        cs
    → Tiles offset
        (offset + remaining)
        (record { paddr = paddr; offset = offset; size = io_size_at paddr remaining } ∷ cs)
copied paddr offset remaining cs pos rest =
    let le = io_size_at-le paddr remaining in
    let e : offset + io_size_at paddr remaining + (remaining - io_size_at paddr remaining)
        ≡ offset + remaining =
      omega (arith, le) in
    next _ (io_size_at-pos paddr remaining pos) (io_size_at-page paddr remaining)
      (subst (λ x. Tiles (offset + io_size_at paddr remaining) x cs) e rest)

-- that there are such copies, at the addresses of the rounds from `k` on
Copied : Option (List PrpCopy) → (ℕ → ℕ) → ℕ → ℕ → ℕ → Type 0
Copied result address k offset remaining =
    (cs : List PrpCopy) × (result ≡ some cs)
    × Tiles offset (offset + remaining) cs
    × AreAt address k cs

some_left : (r : ℕ) → (suc r == 0) ≡ false
some_left r = ground arith

-- at the start of a page, a copy takes all that fits into one
io_size_at-start :
    (paddr remaining : ℕ)
    → paddr % page_size ≡ 0
    → (io_size_at paddr remaining ≡ remaining) ⊎ (io_size_at paddr remaining ≡ page_size)
unfolding io_size_at
io_size_at-start paddr remaining start = elim (Bool-cases (ltb page_size remaining)) [
  | inl more ↦ inr (ground (arith, start, more))
  | inr rest ↦ inl (ground (arith, start, rest))
]

-- a remainder of at most a page, at the start of one, is one copy
io_size_at-whole :
    (paddr remaining : ℕ)
    → remaining ≤ page_size
    → paddr % page_size ≡ 0
    → io_size_at paddr remaining ≡ remaining
unfolding io_size_at
io_size_at-whole paddr remaining le start = ground (arith, le, start)

nothing : (offset : ℕ) → Tiles offset (offset + 0) []
nothing offset = subst (λ x. Tiles offset x []) (omega arith) done

module _ (entries : ℕ → ℕ) (address : ℕ → ℕ) (start : ℕ)
    (whole : (k : ℕ) → entries k % page_size ≡ 0)
    (at : (k : ℕ) → entries (suc k) ≡ address (suc (suc k))) where
  -- `m` is a number of pages that hold the rest
  list_copies-Tiles :
      (fuel m k offset remaining : ℕ)
      → remaining ≤ fuel
      → remaining ≤ m * 4096
      → start + 8 * (suc k + m) ≤ page_size
      → Copied
          (list_copies fuel (some entries) start (suc k) offset remaining)
          address
          (suc (suc k))
          offset
          remaining
  unfolding list_copies Copied
  list_copies-Tiles zero m k offset zero enough pages room = ([], refl, nothing offset, tt)
  list_copies-Tiles (suc fuel) m k offset zero enough pages room = ([], refl, nothing offset, tt)
  list_copies-Tiles zero m k offset (suc r) enough pages room = absurd (omega (arith, enough))
  list_copies-Tiles (suc fuel) m k offset (suc r) enough pages room =
      let size = io_size_at (entries (suc k)) (suc r) in
      let pos = io_size_at-pos (entries (suc k)) (suc r) (omega arith) in
      let fits : leb (start + 8 * suc (suc k)) page_size ≡ true = ground (arith, pages, room) in
      let left : suc r - size ≤ (m - 1) * 4096 =
        elim (io_size_at-start (entries (suc k)) (suc r) (whole (suc k))) [
          | inl all ↦ omega (arith, all)
          | inr page ↦ omega (arith, page, pages)
        ] in
      let (cs, e, rest, ats) =
        list_copies-Tiles fuel (m - 1) (suc k) (offset + size) (suc r - size)
          (omega (arith, enough, pos)) left (omega (arith, pages, room)) in
      (
        _,
        rw (list_copies, some_left r, fits, e) refl,
        copied (entries (suc k)) offset (suc r) cs (omega arith) rest,
        (at k, ats),
      )

nothing_left : (r : ℕ) → suc r - suc r ≡ 0
nothing_left r = omega arith

second_copies-Tiles :
    (entries : ℕ → ℕ) (prp2 offset remaining : ℕ) (address : ℕ → ℕ)
    → IsReachable entries prp2 remaining
    → ((k : ℕ) → entries (suc k) ≡ address (suc (suc k)))
    → (if ltb page_size remaining then entries 0 else prp2) ≡ address 1
    → Copied (second_copies entries prp2 offset remaining) address 1 offset remaining
unfolding second_copies Copied
second_copies-Tiles entries prp2 offset zero address reach at first = ([], refl, nothing offset, tt)
second_copies-Tiles entries prp2 offset (suc r) address reach at first =
    elim (Bool-cases (ltb page_size (suc r))) [
      | inl listed ↦
          let start = prp2 % page_size in
          let over : page_size < suc r = ground (arith, listed) in
          let size = io_size_at (entries 0) (suc r) in
          let room = reach.room over in
          let fits : leb (start + 8 * 1) page_size ≡ true = ground (arith, room) in
          let m = (suc r + 4095) / page_size - 1 in
          let left : suc r - size ≤ m * 4096 =
            elim (io_size_at-start (entries 0) (suc r) (reach.whole over 0)) [
              | inl all ↦ omega (arith, all)
              | inr page ↦ omega (arith, page)
            ] in
          let (cs, e, rest, ats) =
            list_copies-Tiles entries address start (reach.whole over) at (suc r - size) m 0
              (offset + size) (suc r - size) (omega arith) left (omega (arith, room)) in
          (
            _,
            rw (some_left r, listed, fits, e) refl,
            copied (entries 0) offset (suc r) cs (omega arith) rest,
            (ap (λ b. if b then entries 0 else prp2) (sym listed) ∙ first, ats),
          )
      | inr short ↦
          let le : suc r ≤ page_size = ground (arith, short) in
          let whole = io_size_at-whole prp2 (suc r) le (reach.single le) in
          (
            _,
            rw (some_left r, short, whole, nothing_left r) refl,
            subst
                (λ s.
                  Tiles offset (offset + suc r)
                    (record { paddr = prp2; offset = offset; size = s } ∷ []))
                whole
                (copied prp2 offset (suc r) [] (omega arith)
                  (rw (whole, nothing_left r) (nothing (offset + suc r)))),
            (ap (λ b. if b then entries 0 else prp2) (sym short) ∙ first, tt),
          )
    ]

-- A transfer of `length` bytes succeeds where what follows its first page is in one page, at its
-- start, or in the pages of a list of starts of pages that ends within its own page. Its copies take
-- the bytes in order, each within one page of the host, and go to the first address, and then to the
-- second one or to the entries of the list, one after the other.
pub prp_transfer_data-Tiles :
    (entries : ℕ → ℕ) (prp1 prp2 length : ℕ)
    → IsReachable entries prp2 (length - io_size_at prp1 length)
    → (cs : List PrpCopy) × (prp_transfer_data entries prp1 prp2 length ≡ some cs)
      × Tiles 0 length cs
      × AreAt (address_of_round entries prp1 prp2 length) 0 cs
unfolding prp_transfer_data Copied address_of_round
prp_transfer_data-Tiles entries prp1 prp2 zero reach = ([], refl, done, tt)
prp_transfer_data-Tiles entries prp1 prp2 (suc r) reach =
    let size = io_size_at prp1 (suc r) in
    let (cs, e, rest, ats) =
      second_copies-Tiles entries prp2 size (suc r - size)
        (address_of_round entries prp1 prp2 (suc r)) reach (λ k. refl) refl in
    let from_zero : size ≡ 0 + size = omega arith in
    let upto_all : 0 + suc r ≡ suc r = omega arith in
    let rest' = subst (λ s. Tiles s (s + (suc r - size)) cs) from_zero rest in
    (
      record { paddr = prp1; offset = 0; size = size } ∷ cs,
      rw (some_left r, e) refl,
      subst (λ n. Tiles 0 n (record { paddr = prp1; offset = 0; size = size } ∷ cs)) upto_all
          (copied prp1 0 (suc r) cs (omega arith) rest'),
      (refl, ats),
    )
