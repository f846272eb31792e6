-- ===== src/Kv/Table/Added.antt =====
-- A key that is added in a free slot, behind the end of the chain from its home.
use wild_cat.Common.{
  eq_of_test, same_test, ℕ, zero, suc, ◌+◌, ◌%◌, ◌<◌, ◌≡◌, refl, sym, ◌∙◌, true, false, none, ◌==◌,
  ltb, if◌then◌else◌, arith, ap, inl, inr, Bool-cases,
}
use wild_cat.Kv.Command.{hash_function}
use wild_cat.Kv.Table.{no_slot, KvTable, is_used, same_bytes, get_hash_slot}
use wild_cat.Kv.Table.Keys.{get_hash_slot_congr, same_bytes_comm, same_bytes_self}
use wild_cat.Kv.Table.Chained.{
  unit_of, used_slots, Reaches, here, along, FollowedBy, last, more, IsChained,
}
use wild_cat.Kv.Table.Search.{false_apart, Locates}

-- The table `t'` has the key in the slot `e` besides, and a link from `prev` to it.
pub record Adds (t t' : KvTable) (key_len e prev : ℕ) (key : ℕ → ℕ) : Type 0 where
  pub same_size : t'.hash_slots ≡ t.hash_slots
  pub used_of : (s : ℕ) → is_used t' s ≡ (if s == e then true else is_used t s)
  pub next_of :
      (s : ℕ)
      → s < t.hash_slots
      → (t'.slots s).next_slot ≡ (if s == prev then e else (t.slots s).next_slot)
  pub key_of : (s : ℕ) → (s == e) ≡ false → (t'.slots s).key ≡ (t.slots s).key
  pub offset_of : (s : ℕ) → (s == e) ≡ false → (t'.slots s).mem_offset ≡ (t.slots s).mem_offset
  pub length_of : (s : ℕ) → (s == e) ≡ false → (t'.slots s).length ≡ (t.slots s).length
  pub own_key : (k : ℕ → ℕ) → same_bytes k (t'.slots e).key key_len ≡ same_bytes k key key_len

get_hash_slot_size :
    (t t' : KvTable) (k : ℕ → ℕ) (n : ℕ)
    → t'.hash_slots ≡ t.hash_slots
    → get_hash_slot t' k n ≡ get_hash_slot t k n
unfolding get_hash_slot
get_hash_slot_size t t' k n e = ap (λ m. hash_function k n % m) e

module _ (t t' : KvTable) (key_len e prev : ℕ) (key : ℕ → ℕ) (adds : Adds t t' key_len e prev key)
    (c : IsChained t key_len) (lt : e < t.hash_slots) (free : is_used t e ≡ false)
    (end : (s : ℕ)
      → s < t.hash_slots
      → (s == prev) ≡ true
      → (is_used t s ≡ true) × ((t.slots s).next_slot ≡ no_slot))
    (fresh : Locates t key key_len none) where
  used_slots-added : (n : ℕ) → used_slots t' n ≡ used_slots t n + unit_of (ltb e n)
  unfolding used_slots
  used_slots-added zero = ground arith
  used_slots-added (suc n) =
      let before = used_slots-added n in
      let used = adds.used_of n in
      elim (Bool-cases (n == e)) [
        | inl same ↦
            let here_free : is_used t n ≡ false = rw (eq_of_test n e same) free in
            rw (used_slots-added n, used, same, here_free) (ground (arith, same))
        | inr other ↦ rw (used_slots-added n, used, other) (ground (arith, other))
      ]

  used_before : (s : ℕ) → (s == e) ≡ false → is_used t' s ≡ is_used t s
  used_before s other = adds.used_of s ∙ ap (λ b. if b then true else is_used t s) other

  used_after : (s : ℕ) → is_used t s ≡ true → is_used t' s ≡ true
  used_after s used = elim (Bool-cases (s == e)) [
    | inl same ↦ rw (adds.used_of s, same) refl
    | inr other ↦ rw (used_before s other) used
  ]

  used_apart : (s : ℕ) → is_used t s ≡ true → (s == e) ≡ false
  used_apart s used = elim (Bool-cases (s == e)) [
    | inr other ↦ other
    | inl same ↦ absurd (false_apart used (rw (eq_of_test s e same) free))
  ]

  prev_apart : (e == prev) ≡ false
  prev_apart = elim (Bool-cases (e == prev)) [
    | inr other ↦ other
    | inl same ↦ absurd (false_apart (end e lt same).0 free)
  ]

  -- a slot in use that is linked keeps its link
  next_kept :
      (s : ℕ)
      → s < t.hash_slots
      → (t.slots s).next_slot < no_slot
      → (t'.slots s).next_slot ≡ (t.slots s).next_slot
  next_kept s inside linked = elim (Bool-cases (s == prev)) [
    | inl same ↦ absurd (omega (arith, linked, (end s inside same).1))
    | inr other ↦ rw (adds.next_of s inside, other) refl
  ]

  -- the slots in use are those of the table, as are the targets of their links
  pub Reaches-kept : (s x : ℕ) → s < t.hash_slots → Reaches t s x → Reaches t' s x
  Reaches-kept s _ inside here = here
  Reaches-kept s x inside (along {n = n} used next linked r) =
      along (used_after s used) (next_kept s inside (rw next linked) ∙ next) linked
        (Reaches-kept n x (target s n inside used next linked) r)
    where
      target :
          (s n : ℕ)
          → s < t.hash_slots
          → is_used t s ≡ true
          → (t.slots s).next_slot ≡ n
          → n < no_slot
          → n < t.hash_slots
      target s n inside used next linked = elim (c.follows s inside used) [
        | last stop ↦ absurd (omega (arith, stop, next, linked))
        | more in_table used' lower ↦ omega (arith, in_table, next)
      ]

  rank' : ℕ → ℕ
  rank' s = if s == e then 0 else suc (c.rank s)

  rank'_of : (s : ℕ) → (s == e) ≡ false → rank' s ≡ suc (c.rank s)
  unfolding rank'
  rank'_of s other = rw other refl

  rank'_own : rank' e ≡ 0
  unfolding rank'
  rank'_own = rw (same_test e) refl

  FollowedBy-added : (s : ℕ) → s < t.hash_slots → is_used t' s ≡ true → FollowedBy t' rank' s
  FollowedBy-added s inside used = elim (Bool-cases (s == prev)) [
    | inl same ↦
        let to_e : (t'.slots s).next_slot ≡ e = rw (adds.next_of s inside, same) refl in
        let apart = used_apart s (end s inside same).0 in
        more (rw (to_e, adds.same_size) lt) (rw (to_e, adds.used_of e, same_test e) refl)
          (rw (to_e, rank'_own, rank'_of s apart) (omega arith))
    | inr other ↦
        let next : (t'.slots s).next_slot ≡ (t.slots s).next_slot =
          rw (adds.next_of s inside, other) refl in
        elim (Bool-cases (s == e)) [
          | inl own ↦ last (next ∙ c.unlinked s inside (rw (eq_of_test s e own) free))
          | inr old ↦ elim (c.follows s inside (rw (← used_before s old) used)) [
            | last stop ↦ last (next ∙ stop)
            | more in_table used' lower ↦
                more (rw (next, adds.same_size) in_table) (rw next (used_after _ used')) (
                  rw (next, rank'_of s old, rank'_of _ (used_apart _ used')) (omega (arith, lower)))
          ]
        ]
  ]

  module _ (reached : Reaches t' (get_hash_slot t key key_len) e) where
    own_home : get_hash_slot t' (t'.slots e).key key_len ≡ get_hash_slot t key key_len
    own_home =
        get_hash_slot_size t t' (t'.slots e).key key_len adds.same_size
        ∙ sym (
            get_hash_slot_congr t key (t'.slots e).key key_len
              (adds.own_key key ∙ same_bytes_self key key_len))

    home-lt : (k : ℕ → ℕ) → get_hash_slot t k key_len < t.hash_slots
    unfolding get_hash_slot
    home-lt k = let pos = c.positive in omega (arith, pos)

    homes' :
        (s : ℕ)
        → s < t.hash_slots
        → is_used t' s ≡ true
        → Reaches t' (get_hash_slot t' (t'.slots s).key key_len) s
    homes' s inside used = elim (Bool-cases (s == e)) [
      | inl own ↦ rw (eq_of_test s e own, own_home) reached
      | inr old ↦
          rw (adds.key_of s old, get_hash_slot_size t t' (t.slots s).key key_len adds.same_size)
            (Reaches-kept _ s (home-lt _) (c.homes s inside (rw (← used_before s old) used)))
    ]

    own_apart :
        (s : ℕ)
        → s < t.hash_slots
        → is_used t s ≡ true
        → same_bytes (t'.slots e).key (t.slots s).key key_len ≡ false
    own_apart s inside used =
        same_bytes_comm (t'.slots e).key (t.slots s).key key_len
        ∙ adds.own_key (t.slots s).key
        ∙ same_bytes_comm (t.slots s).key key key_len
        ∙ fresh s inside used

    distinct' :
        (a b : ℕ)
        → a < t.hash_slots
        → b < t.hash_slots
        → is_used t' a ≡ true
        → is_used t' b ≡ true
        → same_bytes (t'.slots a).key (t'.slots b).key key_len ≡ true
        → a ≡ b
    distinct' a b la lb ua ub same = elim (Bool-cases (a == e)) [
      | inl own ↦ elim (Bool-cases (b == e)) [
        | inl own' ↦ ground (arith, own, own')
        | inr old' ↦
            let same' = rw (eq_of_test a e own, adds.key_of b old') at same in
            absurd (false_apart same' (own_apart b lb (rw (← used_before b old') ub)))
      ]
      | inr old ↦ elim (Bool-cases (b == e)) [
        | inl own' ↦
            let same' = rw (eq_of_test b e own', adds.key_of a old) at same in
            absurd (
              false_apart same'
                (same_bytes_comm _ _ key_len ∙ own_apart a la (rw (← used_before a old) ua)))
        | inr old' ↦
            c.distinct a b la lb (rw (← used_before a old) ua) (rw (← used_before b old') ub)
              (rw (adds.key_of a old, adds.key_of b old') at same)
      ]
    ]

    -- the table with the key is chained again
    pub Adds-IsChained : IsChained t' key_len
    Adds-IsChained =
        let size = adds.same_size in
        let narrow = c.narrow in
        let positive = c.positive in
        let grown : used_slots t' t'.hash_slots ≡ suc (used_slots t t.hash_slots) =
          ap (used_slots t') size ∙ used_slots-added t.hash_slots ∙ ground (arith, lt) in
        record {
          rank = rank';
          short = c.short;
          positive = rw size positive;
          narrow = rw size narrow;
          ranked = λ s inside used. elim (Bool-cases (s == e)) [
            | inl own ↦ rw (grown, eq_of_test s e own, rank'_own) (omega arith)
            | inr old ↦
                let lower = c.ranked s (rw size at inside) (rw (← used_before s old) used) in
                rw (grown, rank'_of s old) (omega (arith, lower))
          ];
          follows = λ s inside used. FollowedBy-added s (rw size at inside) used;
          unlinked = λ s inside unused. elim (Bool-cases (s == e)) [
            | inl own ↦ absurd (false_apart (rw (adds.used_of s, own) refl) unused)
            | inr old ↦
                let inside' = rw size at inside in
                let unused' : is_used t s ≡ false = sym (used_before s old) ∙ unused in
                elim (Bool-cases (s == prev)) [
                  | inl same ↦ absurd (false_apart (end s inside' same).0 unused')
                  | inr other ↦ rw (adds.next_of s inside', other) (c.unlinked s inside' unused')
                ]
          ];
          homes = λ s inside used. homes' s (rw size at inside) used;
          distinct =
              λ a b la lb ua ub same. distinct' a b (rw size at la) (rw size at lb) ua ub same;
        }
