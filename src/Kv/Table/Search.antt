-- ===== src/Kv/Table/Search.antt =====
-- The search for a key finds it exactly where it is in use.
use mathlib.Core.Path.{subst}
use wild_cat.Common.{
  ℕ, zero, suc, ◌<◌, ◌≡◌, refl, sym, ◌∙◌, Bool, true, false, Option, none, some, ◌==◌, arith, ap,
  inl, inr, Bool-cases, ◌≢◌,
}
use wild_cat.Kv.Table.{
  key_fits, no_slot, KvTable, is_used, same_bytes, get_hash_slot, find_slot, lookup_slot,
}
use wild_cat.Kv.Table.Keys.{get_hash_slot_congr, same_bytes_congr}
use wild_cat.Kv.Table.Chained.{Reaches, here, along, last, more, IsChained, used_slots-le}

pub false_apart : {b : Bool} → b ≡ true → b ≢ false
false_apart e f = ground (arith, e, f)

pub linked_test : (n : ℕ) → n < no_slot → (n == no_slot) ≡ false
linked_test n h = ground (arith, h)

module _ (t : KvTable) (key : ℕ → ℕ) (key_len : ℕ) where
  pub record IsSlotOf (s : ℕ) : Type 0 where
    pub inside : s < t.hash_slots
    pub used : is_used t s ≡ true
    pub same : same_bytes key (t.slots s).key key_len ≡ true

  -- what a search from a slot answers
  abbrev Answers : ℕ → Option ℕ → Type 0
  Answers s (some x) = IsSlotOf x
  Answers s none =
      (x : ℕ) → Reaches t s x → is_used t x ≡ true → same_bytes key (t.slots x).key key_len ≡ false

  -- the slot of a key, or that it has none
  abbrev pub Locates : Option ℕ → Type 0
  Locates (some x) = IsSlotOf x
  Locates none =
      (x : ℕ)
      → x < t.hash_slots
      → is_used t x ≡ true
      → same_bytes key (t.slots x).key key_len ≡ false

  unused_stop :
      (s : ℕ)
      → is_used t s ≡ false
      → (x : ℕ) → Reaches t s x
      → is_used t x ≡ true
      → same_bytes key (t.slots x).key key_len ≡ false
  unused_stop s un _ here used = absurd (false_apart used un)
  unused_stop s un x (along used next lt r) _ = absurd (false_apart used un)

  last_stop :
      (s : ℕ)
      → (t.slots s).next_slot ≡ no_slot
      → same_bytes key (t.slots s).key key_len ≡ false
      → (x : ℕ) → Reaches t s x
      → is_used t x ≡ true
      → same_bytes key (t.slots x).key key_len ≡ false
  last_stop s end differs _ here used = differs
  last_stop s end differs x (along _ next lt r) used = absurd (omega (arith, end, next, lt))

  passed :
      (s n : ℕ)
      → (t.slots s).next_slot ≡ n
      → same_bytes key (t.slots s).key key_len ≡ false
      → Answers n none
      → Answers s none
  passed s n next differs rest _ here used = differs
  passed s n next differs rest x (along {n = m} _ next' lt r) used =
      let e : m ≡ n = sym next' ∙ next in rest x (subst (λ k. Reaches t k x) e r) used

  module _ (c : IsChained t key_len) where
    find_slot-Answers :
        (fuel s : ℕ)
        → s < t.hash_slots
        → (is_used t s ≡ true → c.rank s < fuel)
        → 0 < fuel
        → (o : Option ℕ) × (find_slot fuel t key key_len s ≡ some o) × Answers s o
    unfolding find_slot
    find_slot-Answers zero s lt ranked pos = absurd (omega (arith, pos))
    find_slot-Answers (suc fuel) s lt ranked pos = elim (Bool-cases (is_used t s)) [
      | inr un ↦ (none, rw (find_slot, un) refl, unused_stop s un)
      | inl used ↦ elim (Bool-cases (same_bytes key (t.slots s).key key_len)) [
        | inl same ↦ (
          some s,
          rw (find_slot, used, same) refl,
          record { inside = lt; used = used; same = same },
        )
        | inr differs ↦ elim (c.follows s lt used) [
          | last end ↦ (none, rw (find_slot, used, differs, end) refl, last_stop s end differs)
          | more inside used' lower ↦
              let narrow = c.narrow in
              let (o, e, a) =
                find_slot-Answers fuel (t.slots s).next_slot inside
                  (λ _. omega (arith, lower, ranked used)) (omega (arith, lower, ranked used)) in
              (
                o,
                rw
                    (
                      find_slot,
                      used,
                      differs,
                      linked_test (t.slots s).next_slot (omega (arith, inside, narrow)),
                    )
                    e,
                (elim o as (λ v. Answers (t.slots s).next_slot v → Answers s v) [
                  | none ↦ passed s _ refl differs
                  | some x ↦ λ found. found
                ])
                    a,
              )
        ]
      ]
    ]

    home-lt : (k : ℕ → ℕ) → get_hash_slot t k key_len < t.hash_slots
    unfolding get_hash_slot
    home-lt k = let pos = c.positive in omega (arith, pos)

    from_home : (o : Option ℕ) → Answers (get_hash_slot t key key_len) o → Locates o
    from_home (some x) a = a
    from_home none a = λ x lt used. elim (Bool-cases (same_bytes key (t.slots x).key key_len)) [
      | inr differs ↦ differs
      | inl same ↦
          let home = get_hash_slot_congr t key (t.slots x).key key_len same in
          a x (subst (λ h. Reaches t h x) (sym home) (c.homes x lt used)) used
    ]

    -- the search ends, and answers with the slot of the key
    pub lookup_slot-Locates : (o : Option ℕ) × (lookup_slot t key key_len ≡ some o) × Locates o
    unfolding lookup_slot
    lookup_slot-Locates =
        let bound = used_slots-le t t.hash_slots in
        let lt = home-lt key in
        let short = c.short in
        let fits : key_fits t (get_hash_slot t key key_len) key_len ≡ true =
          ground (arith, short) in
        let (o, e, a) =
          find_slot-Answers (suc t.hash_slots) (get_hash_slot t key key_len) lt
            (λ used. omega (arith, bound, c.ranked _ lt used)) (omega arith) in
        (o, rw fits e, from_home o a)

    same_slot : (a b : ℕ) → IsSlotOf a → IsSlotOf b → a ≡ b
    same_slot a b p q =
        c.distinct a b p.inside q.inside p.used q.used
          (sym (same_bytes_congr key (t.slots a).key (t.slots b).key key_len p.same) ∙ q.same)

    -- there is one such answer
    pub same_location : (o p : Option ℕ) → Locates o → Locates p → o ≡ p
    same_location none none a b = refl
    same_location (some x) (some y) a b = ap some (same_slot x y a b)
    same_location none (some y) a b = absurd (false_apart b.same (a y b.inside b.used))
    same_location (some x) none a b = absurd (false_apart a.same (b x a.inside a.used))

    pub lookup_slot-eq : (o : Option ℕ) → Locates o → lookup_slot t key key_len ≡ some o
    lookup_slot-eq o a = let (p, e, b) = lookup_slot-Locates in e ∙ ap some (same_location p o b a)
