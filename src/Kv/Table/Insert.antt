-- ===== src/Kv/Table/Insert.antt =====
-- `new_mapping_entry` adds a key to the dictionary that the table stands for.
use wild_cat.Kv.Table.{
  no_offset, no_slot, KvTable, is_used, same_bytes, find_tail, find_free, get_mapping_entry_by_key,
}
use wild_cat.Kv.Table.Chained.{Reaches, here, along, last, more, IsChained}
use wild_cat.Kv.Table.Search.{
  false_apart, linked_test, Locates, lookup_slot-eq, lookup_slot-Locates,
}
use wild_cat.Common.{
  ℕ, zero, suc, ◌+◌, ◌-◌, ◌<◌, ◌≡◌, refl, ◌∙◌, true, false, Option, none, some, ◌==◌, leb,
  if◌then◌else◌, arith, inl, inr, Bool-cases, ◌>>=◌, eq_of_test, same_test,
}
use wild_cat.Kv.Table.Added.{Adds}

-- the end of a chain, and how it is reached
pub record IsEnd (t : KvTable) (s x : ℕ) : Type 0 where
  pub inside : x < t.hash_slots
  pub used : is_used t x ≡ true
  pub no_next : (t.slots x).next_slot ≡ no_slot
  pub reached : Reaches t s x

module _ (t : KvTable) (key_len : ℕ) (c : IsChained t key_len) where
  pub find_tail-IsEnd :
      (fuel s p : ℕ)
      → s < t.hash_slots
      → is_used t s ≡ true
      → c.rank s < fuel
      → (x : ℕ) × (find_tail fuel t s p ≡ some x) × IsEnd t s x
  unfolding find_tail
  find_tail-IsEnd zero s p inside used ranked = absurd (omega (arith, ranked))
  find_tail-IsEnd (suc fuel) s p inside used ranked = elim (c.follows s inside used) [
    | last stop ↦ (
      s,
      rw (find_tail, used, stop) refl,
      record { inside = inside; used = used; no_next = stop; reached = here },
    )
    | more in_table used' lower ↦
        let narrow = c.narrow in
        let (x, e, end) =
          find_tail-IsEnd fuel (t.slots s).next_slot s in_table used'
            (omega (arith, lower, ranked)) in
        (
          x,
          rw (find_tail, used, linked_test (t.slots s).next_slot (omega (arith, in_table, narrow)))
              e,
          record {
            inside = end.inside;
            used = end.used;
            no_next = end.no_next;
            reached = along used refl (omega (arith, in_table, narrow)) end.reached;
          },
        )
  ]

-- how far a free slot is from a slot, around the table
abbrev pub distance : ℕ → ℕ → ℕ → ℕ
distance size s f = if leb s f then f - s else size - s + f

pub find_free-unused :
    (t : KvTable) (fuel s f : ℕ)
    → s < t.hash_slots
    → f < t.hash_slots
    → is_used t f ≡ false
    → distance t.hash_slots s f < fuel
    → (e : ℕ) × (find_free fuel t s ≡ some e) × (e < t.hash_slots) × (is_used t e ≡ false)
unfolding find_free
find_free-unused t zero s f ls lf free near = absurd (omega (arith, near))
find_free-unused t (suc fuel) s f ls lf free near = elim (Bool-cases (is_used t s)) [
  | inr un ↦ (s, rw (find_free, un) refl, ls, un)
  | inl used ↦
      let apart : (s == f) ≡ false = elim (Bool-cases (s == f)) [
        | inr other ↦ other
        | inl same ↦ absurd (false_apart used (rw (eq_of_test s f same) free))
      ] in
      let next = if leb t.hash_slots (suc s) then 0 else suc s in
      let inside : next < t.hash_slots = ground (arith, ls) in
      let nearer : distance t.hash_slots next f < fuel = ground (arith, near, apart, ls, lf) in
      let (e, found, le, un) = find_free-unused t fuel next f inside lf free nearer in
      (e, rw (find_free, used) found, le, un)
]

-- what a reader learns of a key: the place and the length of its value, if it is there
unfoldable pub view : KvTable → (ℕ → ℕ) → ℕ → Option (Option (ℕ × ℕ))
view t key key_len = get_mapping_entry_by_key t key key_len >>= λ e.
    some (if e.mem_offset == no_offset then none else some (e.mem_offset, e.length))

-- the slot of a key, as what a reader learns
abbrev value_at : KvTable → Option ℕ → Option (ℕ × ℕ)
value_at t none = none
value_at t (some s) = some ((t.slots s).mem_offset, (t.slots s).length)

used_offset :
    (t : KvTable) (s : ℕ) → is_used t s ≡ true → ((t.slots s).mem_offset == no_offset) ≡ false
used_offset t s used = ground (arith, used)

pub view-Locates :
    (t : KvTable) (key : ℕ → ℕ) (key_len : ℕ) (o : Option ℕ)
    → IsChained t key_len
    → Locates t key key_len o
    → view t key key_len ≡ some (value_at t o)
unfolding view get_mapping_entry_by_key
view-Locates t key key_len none c a = rw (lookup_slot-eq t key key_len c none a) refl
view-Locates t key key_len (some s) c a =
    rw (lookup_slot-eq t key key_len c (some s) a, used_offset t s a.used) refl

module _ (t t' : KvTable) (key_len e prev : ℕ) (key : ℕ → ℕ) (adds : Adds t t' key_len e prev key)
    (inside : e < t.hash_slots) (free : is_used t e ≡ false) where
  other_slot : (s : ℕ) → is_used t s ≡ true → (s == e) ≡ false
  other_slot s used = elim (Bool-cases (s == e)) [
    | inr other ↦ other
    | inl same ↦ absurd (false_apart used (rw (eq_of_test s e same) free))
  ]

  Locates-kept :
      (k : ℕ → ℕ) (o : Option ℕ)
      → same_bytes k key key_len ≡ false
      → Locates t k key_len o
      → Locates t' k key_len o
  Locates-kept k (some s) differs a =
      let other = other_slot s a.used in
      record {
        inside = rw adds.same_size a.inside;
        used = rw (adds.used_of s, other) a.used;
        same = rw (adds.key_of s other) a.same;
      }
  Locates-kept k none differs a = λ s lt used. elim (Bool-cases (s == e)) [
    | inl own ↦ rw (eq_of_test s e own) (adds.own_key k ∙ differs)
    | inr other ↦
        rw (adds.key_of s other)
          (a s (rw adds.same_size at lt) (rw (adds.used_of s, other) at used))
  ]

  Locates-own : (k : ℕ → ℕ) → same_bytes k key key_len ≡ true → Locates t' k key_len (some e)
  Locates-own k same = record {
    inside = rw adds.same_size inside;
    used = rw (adds.used_of e, same_test e) refl;
    same = adds.own_key k ∙ same;
  }

  value_at-kept : (k : ℕ → ℕ) (o : Option ℕ) → Locates t k key_len o → value_at t' o ≡ value_at t o
  value_at-kept k none a = refl
  value_at-kept k (some s) a =
      let other = other_slot s a.used in rw (adds.offset_of s other, adds.length_of s other) refl

  -- the views after the key is added
  pub view-added :
      (offset length : ℕ)
      → (t'.slots e).mem_offset ≡ offset
      → (t'.slots e).length ≡ length
      → IsChained t key_len
      → IsChained t' key_len
      → (k : ℕ → ℕ)
      → view t' k key_len
        ≡ (if same_bytes k key key_len then some (some (offset, length)) else view t k key_len)
  view-added offset length at_offset of_length c c' k =
      elim (Bool-cases (same_bytes k key key_len)) [
        | inl same ↦
            rw
              (
                same,
                view-Locates t' k key_len (some e) c' (Locates-own k same),
                at_offset,
                of_length,
              )
              refl
        | inr differs ↦
            let (o, found, a) = lookup_slot-Locates t k key_len c in
            rw
              (
                differs,
                view-Locates t k key_len o c a,
                view-Locates t' k key_len o c' (Locates-kept k o differs a),
                value_at-kept k o a,
              )
              refl
      ]
