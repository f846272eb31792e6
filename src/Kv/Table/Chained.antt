-- ===== src/Kv/Table/Chained.antt =====
-- The invariant of the mapping table: each key in use is found from its home slot along a chain.
use wild_cat.Common.{ℕ, zero, suc, ◌+◌, ◌≤◌, ◌<◌, ◌≡◌, Bool, true, false, if◌then◌else◌, arith}
use wild_cat.Kv.Table.{key_size, no_slot, KvTable, is_used, same_bytes, get_hash_slot}

abbrev pub unit_of : Bool → ℕ
unit_of b = if b then 1 else 0

-- how many of the first `n` slots are in use
unfoldable pub used_slots : KvTable → ℕ → ℕ
used_slots t zero = 0
used_slots t (suc n) = used_slots t n + unit_of (is_used t n)

-- from one slot to another along the links
pub data Reaches (t : KvTable) : ℕ → ℕ → Type 0 where
  here : {s : ℕ} → Reaches t s s
  along :
      {s n x : ℕ}
      → is_used t s ≡ true
      → (t.slots s).next_slot ≡ n
      → n < no_slot
      → Reaches t n x
      → Reaches t s x

-- A link leads to a slot in use of a smaller rank, or it ends the chain.
pub data FollowedBy (t : KvTable) (rank : ℕ → ℕ) (s : ℕ) : Type 0 where
  last : (t.slots s).next_slot ≡ no_slot → FollowedBy t rank s
  more :
      (t.slots s).next_slot < t.hash_slots
      → is_used t (t.slots s).next_slot ≡ true
      → rank (t.slots s).next_slot < rank s
      → FollowedBy t rank s

-- The table of keys of `key_len` bytes, which fit into the array of an entry.
pub record IsChained (t : KvTable) (key_len : ℕ) : Type 0 where
  pub rank : ℕ → ℕ
  pub short : key_len ≤ key_size
  pub positive : 0 < t.hash_slots
  pub narrow : t.hash_slots < no_slot
  pub ranked : (s : ℕ) → s < t.hash_slots → is_used t s ≡ true → rank s < used_slots t t.hash_slots
  pub follows : (s : ℕ) → s < t.hash_slots → is_used t s ≡ true → FollowedBy t rank s
  pub unlinked : (s : ℕ) → s < t.hash_slots → is_used t s ≡ false → (t.slots s).next_slot ≡ no_slot
  pub homes :
      (s : ℕ)
      → s < t.hash_slots
      → is_used t s ≡ true
      → Reaches t (get_hash_slot t (t.slots s).key key_len) s
  pub distinct :
      (a b : ℕ)
      → a < t.hash_slots
      → b < t.hash_slots
      → is_used t a ≡ true
      → is_used t b ≡ true
      → same_bytes (t.slots a).key (t.slots b).key key_len ≡ true
      → a ≡ b

pub used_slots-le : (t : KvTable) (n : ℕ) → used_slots t n ≤ n
unfolding used_slots
used_slots-le t zero = omega arith
used_slots-le t (suc n) = ground (arith, used_slots-le t n)
