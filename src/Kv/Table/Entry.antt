-- ===== src/Kv/Table/Entry.antt =====
-- `new_mapping_entry_by_key` as an addition to the dictionary.
use wild_cat.Common.{leb}
use wild_cat.Kv.Table.{
  key_size, no_offset, no_slot, MappingEntry, KvTable, is_used, same_bytes, get_hash_slot,
  find_tail, find_free, set_entry, chain_mapping, find_next_slot, written_entry,
  new_mapping_entry_by_key,
}
use wild_cat.Kv.Table.Keys.{same_bytes-copied}
use wild_cat.Kv.Table.Chained.{Reaches, here, along, IsChained, used_slots-le}
use wild_cat.Kv.Table.Search.{false_apart, linked_test, Locates, lookup_slot-Locates}
use wild_cat.Common.{
  update_here, ℕ, suc, ◌^◌, ◌<◌, ◌≡◌, refl, sym, ◌∙◌, true, false, none, some, ◌==◌, ltb,
  if◌then◌else◌, arith, ap, ◌≢◌, inl, inr, Bool-cases, update, same_test, eq_of_test,
}
use wild_cat.Kv.Table.Added.{Adds, Reaches-kept, Adds-IsChained}
use wild_cat.Kv.Table.Insert.{
  IsEnd, find_tail-IsEnd, find_free-unused, view, view-added, view-Locates,
}

-- the table after an addition: it is chained, and the key reads as it was written
pub record Added (t : KvTable) (key : ℕ → ℕ) (key_len length offset : ℕ) (t' : KvTable)
    : Type 0 where
  pub chained : IsChained t' key_len
  pub same_size : t'.hash_slots ≡ t.hash_slots
  pub reads :
      (k : ℕ → ℕ)
      → view t' k key_len
        ≡ (if same_bytes k key key_len then some (some (offset, length)) else view t k key_len)

Reaches-next :
    (t : KvTable) (s x e : ℕ)
    → Reaches t s x
    → is_used t x ≡ true
    → (t.slots x).next_slot ≡ e
    → e < no_slot
    → Reaches t s e
Reaches-next t s _ e here used next lt = along used next lt here
Reaches-next t s x e (along used' next' lt' r) used next lt =
    along used' next' lt' (Reaches-next t _ x e r used next lt)

test_comm : (a b : ℕ) → (a == b) ≡ (b == a)
test_comm a b = ground arith

entry_other :
    (q : ℕ → MappingEntry) (e s : ℕ) (v : MappingEntry) → (s == e) ≡ false → update q e v s ≡ q s
entry_other q e s v other = rw (test_comm e s, other) refl

-- a link changes no other field
link_kept :
    {B : Type 0} (field : MappingEntry → B)
    → ((m : MappingEntry) (n : ℕ) → field (record m { next_slot = n }) ≡ field m)
    → (t : KvTable) (p n s : ℕ) → field ((chain_mapping t p n).slots s) ≡ field (t.slots s)
link_kept field same t p n s = elim (Bool-cases (s == p)) [
  | inl own ↦
      rw (eq_of_test s p own, update_here t.slots p (record (t.slots p) { next_slot = n }))
        (same (t.slots p) n)
  | inr other ↦ ap field (entry_other t.slots p s _ other)
]

link_next :
    (t : KvTable) (p n s : ℕ)
    → ((chain_mapping t p n).slots s).next_slot ≡ (if s == p then n else (t.slots s).next_slot)
link_next t p n s =
    rw (test_comm p s)
      (elim (Bool-cases (s == p)) [ inl own ↦ rw own refl | inr other ↦ rw other refl ])

module _ (t : KvTable) (key : ℕ → ℕ) (key_len length offset : ℕ) (small : offset < no_offset)
    (e : ℕ) where
  abbrev new_entry : MappingEntry
  new_entry = written_entry (t.slots e) key key_len length offset

  own : (set_entry t e new_entry).slots e ≡ new_entry
  own = update_here t.slots e new_entry

  other : (s : ℕ) → (s == e) ≡ false → (set_entry t e new_entry).slots s ≡ t.slots s
  other s apart = entry_other t.slots e s new_entry apart

  in_use : (offset == no_offset) ≡ false
  in_use = ground (arith, small)

  used_alone :
      (s : ℕ) → is_used (set_entry t e new_entry) s ≡ (if s == e then true else is_used t s)
  used_alone s = elim (Bool-cases (s == e)) [
    | inl same ↦ rw (same, eq_of_test s e same, own, in_use) refl
    | inr apart ↦ rw (apart, other s apart) refl
  ]

  next_alone : (s : ℕ) → ((set_entry t e new_entry).slots s).next_slot ≡ (t.slots s).next_slot
  next_alone s = elim (Bool-cases (s == e)) [
    | inl same ↦ rw (eq_of_test s e same, own) refl
    | inr apart ↦ rw (other s apart) refl
  ]

  key_alone :
      (k : ℕ → ℕ)
      → same_bytes k ((set_entry t e new_entry).slots e).key key_len ≡ same_bytes k key key_len
  key_alone k =
      ap (λ m. same_bytes k m.key key_len) own ∙ same_bytes-copied k key (t.slots e).key key_len

  -- the entry alone
  alone-Adds : t.hash_slots < no_slot → Adds t (set_entry t e new_entry) key_len e no_slot key
  alone-Adds narrow = record {
    same_size = refl;
    used_of = used_alone;
    next_of = λ s lt.
        let apart : (s == no_slot) ≡ false = ground (arith, lt, narrow) in
        rw (next_alone s, apart) refl;
    key_of = λ s apart. ap (λ m. m.key) (other s apart);
    offset_of = λ s apart. ap (λ m. m.mem_offset) (other s apart);
    length_of = λ s apart. ap (λ m. m.length) (other s apart);
    own_key = key_alone;
  }

  -- the entry with a link to it
  linked-Adds :
      (prev : ℕ) → Adds t (chain_mapping (set_entry t e new_entry) prev e) key_len e prev key
  linked-Adds prev =
      let t₁ = set_entry t e new_entry in
      record {
        same_size = refl;
        used_of = λ s.
            link_kept (λ m. if m.mem_offset == no_offset then false else true) (λ m n. refl) t₁ prev
              e s
            ∙ used_alone s;
        next_of =
            λ s lt. link_next t₁ prev e s ∙ ap (λ n. if s == prev then e else n) (next_alone s);
        key_of = λ s apart.
            link_kept (λ m. m.key) (λ m n. refl) t₁ prev e s ∙ ap (λ m. m.key) (other s apart);
        offset_of = λ s apart.
            link_kept (λ m. m.mem_offset) (λ m n. refl) t₁ prev e s
            ∙ ap (λ m. m.mem_offset) (other s apart);
        length_of = λ s apart.
            link_kept (λ m. m.length) (λ m n. refl) t₁ prev e s
            ∙ ap (λ m. m.length) (other s apart);
        own_key = λ k.
            ap (λ f. same_bytes k f key_len) (link_kept (λ m. m.key) (λ m n. refl) t₁ prev e e)
            ∙ key_alone k;
      }

  module _ (c : IsChained t key_len) (inside : e < t.hash_slots) (free : is_used t e ≡ false)
      (fresh : Locates t key key_len none) where
    Added-alone :
        get_hash_slot t key key_len ≡ e
        → Added t key key_len length offset (set_entry t e new_entry)
    Added-alone home =
        let adds = alone-Adds c.narrow in
        let c' =
          Adds-IsChained t _ key_len e no_slot key adds c inside free
            (λ s lt at_end. absurd (ground (arith, lt, at_end, c.narrow))) fresh (rw home here) in
        record {
          chained = c';
          same_size = refl;
          reads = λ k.
              view-added t _ key_len e no_slot key adds inside free offset length
                (ap (λ m. m.mem_offset) own) (ap (λ m. m.length) own) c c' k;
        }

    Added-linked :
        (prev : ℕ)
        → IsEnd t (get_hash_slot t key key_len) prev
        → get_hash_slot t key key_len < t.hash_slots
        → Added t key key_len length offset (chain_mapping (set_entry t e new_entry) prev e)
    Added-linked prev end home_in =
        let t₁ = set_entry t e new_entry in
        let t₂ = chain_mapping t₁ prev e in
        let adds = linked-Adds prev in
        let ends : (s : ℕ)
            → s < t.hash_slots
            → (s == prev) ≡ true
            → (is_used t s ≡ true) × ((t.slots s).next_slot ≡ no_slot) =
          λ s lt at_end. rw (eq_of_test s prev at_end) (end.used, end.no_next) in
        let kept =
          Reaches-kept t t₂ key_len e prev key adds c inside free ends fresh
            (get_hash_slot t key key_len) prev home_in end.reached in
        let apart : (prev == e) ≡ false = elim (Bool-cases (prev == e)) [
          | inr differs ↦ differs
          | inl same ↦ absurd (false_apart end.used (rw (eq_of_test prev e same) free))
        ] in
        let to_e =
          Reaches-next t₂ (get_hash_slot t key key_len) prev e kept
            (rw (adds.used_of prev, apart) end.used)
            (rw (adds.next_of prev end.inside, same_test prev) refl)
            (let narrow = c.narrow in omega (arith, inside, narrow)) in
        let c' = Adds-IsChained t t₂ key_len e prev key adds c inside free ends fresh to_e in
        record {
          chained = c';
          same_size = refl;
          reads = λ k.
              view-added t t₂ key_len e prev key adds inside free offset length
                (link_kept (λ m. m.mem_offset) (λ m n. refl) t₁ prev e e
                  ∙ ap (λ m. m.mem_offset) own)
                (link_kept (λ m. m.length) (λ m n. refl) t₁ prev e e ∙ ap (λ m. m.length) own) c c'
                k;
        }

home-lt : (t : KvTable) (k : ℕ → ℕ) (n : ℕ) → 0 < t.hash_slots → get_hash_slot t k n < t.hash_slots
unfolding get_hash_slot
home-lt t k n pos = omega (arith, pos)

some_apart : {v : ℕ × ℕ} → some (some v) ≢ some none
some_apart e = cc

view-none :
    (t : KvTable) (key : ℕ → ℕ) (key_len : ℕ)
    → IsChained t key_len
    → view t key key_len ≡ some none
    → Locates t key key_len none
view-none t key key_len c absent =
    let (o, found, a) = lookup_slot-Locates t key key_len c in
    (elim o as (λ v. Locates t key key_len v → Locates t key key_len none) [
      | none ↦ λ b. b
      | some s ↦ λ b. absurd (some_apart (sym (view-Locates t key key_len (some s) c b) ∙ absent))
    ])
      a

placed_home :
    (storage_size : ℕ) (t : KvTable) (key : ℕ → ℕ) (key_len length offset : ℕ)
    → ltb offset storage_size ≡ true
    → leb key_len key_size ≡ true
    → is_used t (get_hash_slot t key key_len) ≡ false
    → new_mapping_entry_by_key storage_size t key key_len length offset
      ≡ some (
          set_entry t
            (get_hash_slot t key key_len)
            (written_entry (t.slots (get_hash_slot t key key_len)) key key_len length offset))
unfolding new_mapping_entry_by_key
placed_home storage_size t key key_len length offset fits short un =
    rw (new_mapping_entry_by_key, fits, short, un) refl

placed_linked :
    (storage_size : ℕ) (t : KvTable) (key : ℕ → ℕ) (key_len length offset prev e : ℕ)
    → ltb offset storage_size ≡ true
    → leb key_len key_size ≡ true
    → is_used t (get_hash_slot t key key_len) ≡ true
    → find_tail (suc t.hash_slots) t (get_hash_slot t key key_len) no_slot ≡ some prev
    → find_free (suc t.hash_slots) t prev ≡ some e
    → (prev == no_slot) ≡ false
    → new_mapping_entry_by_key storage_size t key key_len length offset
      ≡ some (
          chain_mapping
            (set_entry t e (written_entry (t.slots e) key key_len length offset))
            prev
            e)
unfolding new_mapping_entry_by_key find_next_slot
placed_linked storage_size t key key_len length offset prev e fits short used tail free apart =
    rw (new_mapping_entry_by_key, fits, short, used, find_next_slot, tail, free, apart) refl

-- For keys of one length of at most 18 bytes, on a chained table that does not have the key and has a free slot, and for
-- an offset inside the storage, `new_mapping_entry_by_key` ends without a fault, keeps the table
-- chained, and adds the key: it reads as its offset and length, and every other key reads as before.
pub new_mapping_entry_by_key-Added :
    (storage_size : ℕ) (t : KvTable) (key : ℕ → ℕ) (key_len length offset : ℕ)
    → IsChained t key_len
    → view t key key_len ≡ some none
    → (f : ℕ) → f < t.hash_slots
    → is_used t f ≡ false
    → offset < storage_size
    → storage_size < 2 ^ 64
    → (t' : KvTable) × (new_mapping_entry_by_key storage_size t key key_len length offset ≡ some t')
      × Added t key key_len length offset t'
new_mapping_entry_by_key-Added storage_size t key key_len length offset c absent f lf free inside
      word =
    let home = get_hash_slot t key key_len in
    let narrow = c.narrow in
    let home_in = home-lt t key key_len c.positive in
    let fresh = view-none t key key_len c absent in
    let fits : ltb offset storage_size ≡ true = ground (arith, inside) in
    let le = c.short in
    let short : leb key_len key_size ≡ true = ground (arith, le) in
    let small : offset < no_offset = omega (arith, inside, word) in
    elim (Bool-cases (is_used t home)) [
      | inr un ↦ (
        _,
        placed_home storage_size t key key_len length offset fits short un,
        Added-alone t key key_len length offset small home c home_in un fresh refl,
      )
      | inl used ↦
          let few = used_slots-le t t.hash_slots in
          let ranked = c.ranked home home_in used in
          let (prev, e₁, end) =
            find_tail-IsEnd t key_len c (suc t.hash_slots) home no_slot home_in used
              (omega (arith, few, ranked)) in
          let prev_in = end.inside in
          let (e, e₂, e_in, un) =
            find_free-unused t (suc t.hash_slots) prev f prev_in lf free
              (ground (arith, prev_in, lf)) in
          (
            _,
            placed_linked storage_size t key key_len length offset prev e fits short used e₁ e₂
                (linked_test prev (omega (arith, prev_in, narrow))),
            Added-linked t key key_len length offset small e c e_in un fresh prev end home_in,
          )
    ]
