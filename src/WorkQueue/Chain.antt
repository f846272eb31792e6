-- ===== src/WorkQueue/Chain.antt =====
-- The list of requests as a list of entries, from the last one back to the first, and the insertion
-- of an entry into such a list.
use wild_cat.Common.{
  ℕ, ◌≤◌, ◌<◌, ◌≡◌, refl, ◌∙◌, Bool, true, false, List, [], ◌∷◌, ◌==◌, if◌then◌else◌, arith, inl,
  inr, Bool-cases,
}
use wild_cat.WorkQueue.{no_entry, IoWork, IoWorker}

abbrev pub first_or : List ℕ → ℕ → ℕ
first_or [] n = n
first_or (x ∷ xs) n = x

abbrev pub last_or : List ℕ → ℕ → ℕ
last_or [] n = n
last_or (x ∷ xs) n = last_or xs x

-- The links of the entries, where `n` is the one behind the first of the list.
pub data Links (q : ℕ → IoWork) : ℕ → List ℕ → Type 0 where
  ended : {n : ℕ} → Links q n []
  linked :
      {n x : ℕ} {xs : List ℕ}
      → (q x).next ≡ n
      → (q x).prev ≡ first_or xs no_entry
      → x < no_entry
      → Links q x xs
      → Links q n (x ∷ xs)

pub data NotIn (x : ℕ) : List ℕ → Type 0 where
  nowhere : NotIn x []
  beside : {y : ℕ} {ys : List ℕ} → (y == x) ≡ false → NotIn x ys → NotIn x (y ∷ ys)

pub data Distinct : List ℕ → Type 0 where
  no_entries : Distinct []
  one_more : {x : ℕ} {xs : List ℕ} → NotIn x xs → Distinct xs → Distinct (x ∷ xs)

-- The requests of a worker are the entries of `r`, from the end of the list to its start.
pub record IsChain (w : IoWorker) (r : List ℕ) : Type 0 where
  pub links : Links w.work_queue no_entry r
  pub distinct : Distinct r
  pub start : w.io_seq ≡ last_or r no_entry
  pub end : (w.io_seq == no_entry) ≡ false → w.io_seq_end ≡ first_or r no_entry

-- The entry `e` in front of the first one, from the end, at which the search stops.
abbrev pub insert_back : (ℕ → Bool) → ℕ → List ℕ → List ℕ
insert_back stops e [] = e ∷ []
insert_back stops e (x ∷ xs) = if stops x then e ∷ x ∷ xs else x ∷ insert_back stops e xs

-- the entry at which the search stops, and the one behind it
abbrev pub place : (ℕ → Bool) → List ℕ → ℕ
place stops [] = no_entry
place stops (x ∷ xs) = if stops x then x else place stops xs

abbrev pub behind : (ℕ → Bool) → ℕ → List ℕ → ℕ
behind stops n [] = n
behind stops n (x ∷ xs) = if stops x then n else behind stops x xs

pub place-apart :
    (stops : ℕ → Bool) (x : ℕ) (xs : List ℕ)
    → x < no_entry
    → NotIn x xs
    → (place stops xs == x) ≡ false
place-apart stops x [] small apart = ground (arith, small)
place-apart stops x (y ∷ ys) small (beside ne apart) = elim (Bool-cases (stops y)) [
  | inl h ↦ rw h ne
  | inr h ↦ rw h (place-apart stops x ys small apart)
]

pub behind-apart :
    (stops : ℕ → Bool) (x n : ℕ) (xs : List ℕ)
    → (n == x) ≡ false
    → NotIn x xs
    → (behind stops n xs == x) ≡ false
behind-apart stops x n [] ne apart = ne
behind-apart stops x n (y ∷ ys) ne (beside ne' apart) = elim (Bool-cases (stops y)) [
  | inl h ↦ rw h ne
  | inr h ↦ rw h (behind-apart stops x y ys ne' apart)
]

-- What the insertion of `e` behind `curr` and before `succ` does to the links.
pub record Relinked (q q' : ℕ → IoWork) (e curr succ : ℕ) : Type 0 where
  pub next_of :
      (x : ℕ)
      → x < no_entry
      → (q' x).next ≡ (if x == e then succ else if x == curr then e else (q x).next)
  pub prev_of :
      (x : ℕ)
      → x < no_entry
      → (q' x).prev ≡ (if x == e then curr else if x == succ then e else (q x).prev)
  pub target_of : (x : ℕ) → (q' x).nsecs_target ≡ (q x).nsecs_target

==_sym : (a b : ℕ) → (a == b) ≡ false → (b == a) ≡ false
==_sym a b h = ground (arith, h)

pub at_self : {a : ℕ} (b e : ℕ) → (if e == e then a else b) ≡ a
at_self b e = ground arith

module _ (q q' : ℕ → IoWork) (e : ℕ) (small : e < no_entry) (stops : ℕ → Bool) where
  -- the links of entries that the insertion does not touch
  untouched :
      (curr succ n : ℕ) (xs : List ℕ)
      → Relinked q q' e curr succ
      → NotIn e xs
      → NotIn curr xs
      → NotIn succ xs
      → Links q n xs
      → Links q' n xs
  untouched curr succ n [] r a b c ended = ended
  untouched curr succ n (x ∷ xs) r (beside xe a) (beside xc b) (beside xs' c)
        (linked next prev lt rest) =
      linked (rw (r.next_of x lt, xe, xc) next) (rw (r.prev_of x lt, xe, xs') prev) lt
        (untouched curr succ x xs r a b c rest)

  stopped :
      (n x : ℕ) (xs : List ℕ)
      → (n == e) ≡ false
      → Relinked q q' e x n
      → (x == e) ≡ false
      → (x == n) ≡ false
      → NotIn e xs
      → NotIn n xs
      → NotIn x xs
      → (q x).next ≡ n
      → (q x).prev ≡ first_or xs no_entry
      → x < no_entry
      → Links q x xs
      → Links q' n (e ∷ x ∷ xs)
  stopped n x xs ne r xe xn apart out fresh next prev lt rest =
      linked (r.next_of e small ∙ at_self _ e) (r.prev_of e small ∙ at_self _ e) small (
        linked (rw (r.next_of x lt, xe) (at_self _ x)) (rw (r.prev_of x lt, xe, xn) prev) lt
          (untouched x n x xs r apart fresh out rest))

  prev_inserted :
      (x : ℕ) (xs : List ℕ)
      → x < no_entry
      → Relinked q q' e (place stops xs) (behind stops x xs)
      → (x == e) ≡ false
      → NotIn x xs
      → (q x).prev ≡ first_or xs no_entry
      → (q' x).prev ≡ first_or (insert_back stops e xs) no_entry
  prev_inserted x [] lt r xe fresh prev = rw (r.prev_of x lt, xe) (at_self _ x)
  prev_inserted x (y ∷ ys) lt r xe (beside yx fresh) prev = elim (Bool-cases (stops y)) [
    | inl h ↦ let r' = rw h at r in rw (h, r'.prev_of x lt, xe) (at_self _ x)
    | inr h ↦
        let r' = rw h at r in
        rw (h, r'.prev_of x lt, xe, ==_sym _ _ (behind-apart stops x y ys yx fresh)) prev
  ]

  -- the insertion into the list keeps the links
  pub Links-inserted :
      (n : ℕ) (xs : List ℕ)
      → (n == e) ≡ false
      → Relinked q q' e (place stops xs) (behind stops n xs)
      → NotIn e xs
      → NotIn n xs
      → Distinct xs
      → Links q n xs
      → Links q' n (insert_back stops e xs)
  Links-inserted n [] ne r apart out d l =
      linked (r.next_of e small ∙ at_self _ e) (r.prev_of e small ∙ at_self _ e) small ended
  Links-inserted n (x ∷ xs) ne r (beside xe apart) (beside xn out) (one_more fresh d)
        (linked next prev lt rest) =
      elim (Bool-cases (stops x)) [
        | inl h ↦ rw h (stopped n x xs ne (rw h at r) xe xn apart out fresh next prev lt rest)
        | inr h ↦
            let r' = rw h at r in
            rw h (
              linked (rw (r'.next_of x lt, xe, ==_sym _ _ (place-apart stops x xs lt fresh)) next)
                (prev_inserted x xs lt r' xe fresh prev) lt
                (Links-inserted x xs xe r' apart fresh d rest))
      ]

NotIn-inserted :
    (stops : ℕ → Bool) (e y : ℕ) (xs : List ℕ)
    → (e == y) ≡ false
    → NotIn y xs
    → NotIn y (insert_back stops e xs)
NotIn-inserted stops e y [] ne a = beside ne nowhere
NotIn-inserted stops e y (x ∷ xs) ne (beside h a) = elim (Bool-cases (stops x)) [
  | inl s ↦ rw s (beside ne (beside h a))
  | inr s ↦ rw s (beside h (NotIn-inserted stops e y xs ne a))
]

pub Distinct-inserted :
    (stops : ℕ → Bool) (e : ℕ) (xs : List ℕ)
    → NotIn e xs
    → Distinct xs
    → Distinct (insert_back stops e xs)
Distinct-inserted stops e [] a d = one_more nowhere no_entries
Distinct-inserted stops e (x ∷ xs) (beside xe a) (one_more fresh d) = elim (Bool-cases (stops x)) [
  | inl s ↦ rw s (one_more (beside xe a) (one_more fresh d))
  | inr s ↦ rw s (
      one_more (NotIn-inserted stops e x xs (==_sym x e xe) fresh)
        (Distinct-inserted stops e xs a d))
]

pub no_entry-NotIn : (q : ℕ → IoWork) (n : ℕ) (xs : List ℕ) → Links q n xs → NotIn no_entry xs
no_entry-NotIn q n [] l = nowhere
no_entry-NotIn q n (x ∷ xs) (linked next prev lt rest) =
    beside (ground (arith, lt)) (no_entry-NotIn q x xs rest)

pub last_or-inserted :
    (stops : ℕ → Bool) (q : ℕ → IoWork) (e n : ℕ) (xs : List ℕ)
    → Links q n xs
    → last_or (insert_back stops e xs) n ≡ (if place stops xs == no_entry then e else last_or xs n)
last_or-inserted stops q e n [] l = refl
last_or-inserted stops q e n (x ∷ xs) (linked next prev lt rest) = elim (Bool-cases (stops x)) [
  | inl s ↦ let off : (x == no_entry) ≡ false = ground (arith, lt) in rw (s, off) refl
  | inr s ↦ rw s (last_or-inserted stops q e x xs rest)
]

pub behind-inside :
    (stops : ℕ → Bool) (q : ℕ → IoWork) (n : ℕ) (xs : List ℕ)
    → n < no_entry
    → Links q n xs
    → (behind stops n xs == no_entry) ≡ false
behind-inside stops q n [] small l = ground (arith, small)
behind-inside stops q n (x ∷ xs) small (linked next prev lt rest) = elim (Bool-cases (stops x)) [
  | inl s ↦ rw s (ground (arith, small))
  | inr s ↦ rw s (behind-inside stops q x xs lt rest)
]

-- the first request of a list that is not empty
pub last_or-inside :
    (q : ℕ → IoWork) (n : ℕ) (xs : List ℕ)
    → n < no_entry
    → Links q n xs
    → (last_or xs n == no_entry) ≡ false
last_or-inside q n [] small l = ground (arith, small)
last_or-inside q n (x ∷ xs) small (linked next prev lt rest) = last_or-inside q x xs lt rest

-- the keys of the entries do not grow from the end of the list to its start
pub data Ordered (key : ℕ → ℕ) : List ℕ → Type 0 where
  no_keys : Ordered key []
  one_key : {x : ℕ} → Ordered key (x ∷ [])
  more_keys :
      {x y : ℕ} {ys : List ℕ} → key y ≤ key x → Ordered key (y ∷ ys) → Ordered key (x ∷ y ∷ ys)

Ordered-tail : {key : ℕ → ℕ} {x : ℕ} {xs : List ℕ} → Ordered key (x ∷ xs) → Ordered key xs
Ordered-tail one_key = no_keys
Ordered-tail (more_keys le o) = o

module _ (key : ℕ → ℕ) (stops : ℕ → Bool) (e : ℕ) (upto : (x : ℕ) → stops x ≡ true → key x ≤ key e)
    (past : (x : ℕ) → stops x ≡ false → key e ≤ key x) where
  Ordered-behind :
      (x : ℕ) (xs : List ℕ)
      → key e ≤ key x
      → Ordered key (x ∷ xs)
      → Ordered key (insert_back stops e xs)
      → Ordered key (x ∷ insert_back stops e xs)
  Ordered-behind x [] le o i = more_keys le i
  Ordered-behind x (y ∷ ys) le (more_keys le' o) i = elim (Bool-cases (stops y)) [
    | inl s ↦ let i' = rw s at i in rw s (more_keys le i')
    | inr s ↦ let i' = rw s at i in rw s (more_keys le' i')
  ]

  pub Ordered-inserted : (xs : List ℕ) → Ordered key xs → Ordered key (insert_back stops e xs)
  Ordered-inserted [] o = one_key
  Ordered-inserted (x ∷ xs) o = elim (Bool-cases (stops x)) [
    | inl s ↦ rw s (more_keys (upto x s) o)
    | inr s ↦ rw s (Ordered-behind x xs (past x s) o (Ordered-inserted xs (Ordered-tail o)))
  ]
