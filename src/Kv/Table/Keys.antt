-- ===== src/Kv/Table/Keys.antt =====
-- The comparison of keys, and the hash of equal keys.
use wild_cat.Common.{ℕ, zero, suc, ◌<◌, ◌≡◌, refl, true, ltb, arith, inl, inr, Bool-cases}
use wild_cat.Kv.Command.{hash_bytes, hash_function}
use wild_cat.Kv.Table.{KvTable, same_bytes, copied_bytes, get_hash_slot}

pub same_bytes_self : (a : ℕ → ℕ) (n : ℕ) → same_bytes a a n ≡ true
unfolding same_bytes
same_bytes_self a zero = refl
same_bytes_self a (suc n) = rw (same_bytes_self a n) (ground arith)

-- the bytes of one key and those of an equal one can be exchanged
pub same_bytes_congr :
    (a b c : ℕ → ℕ) (n : ℕ) → same_bytes a b n ≡ true → same_bytes a c n ≡ same_bytes b c n
unfolding same_bytes
same_bytes_congr a b c zero h = refl
same_bytes_congr a b c (suc n) h = elim (Bool-cases (same_bytes a b n)) [
  | inl e ↦
      let last : a n ≡ b n = ground (arith, h, e) in rw (same_bytes_congr a b c n e, last) refl
  | inr e ↦ ground (arith, h, e)
]

pub same_bytes_comm : (a b : ℕ → ℕ) (n : ℕ) → same_bytes a b n ≡ same_bytes b a n
unfolding same_bytes
same_bytes_comm a b zero = refl
same_bytes_comm a b (suc n) = rw (same_bytes_comm a b n) (ground arith)

hash_bytes_congr : (a b : ℕ → ℕ) (n : ℕ) → same_bytes a b n ≡ true → hash_bytes a n ≡ hash_bytes b n
unfolding same_bytes hash_bytes
hash_bytes_congr a b zero h = refl
hash_bytes_congr a b (suc n) h = elim (Bool-cases (same_bytes a b n)) [
  | inl e ↦ let last : a n ≡ b n = ground (arith, h, e) in rw (hash_bytes_congr a b n e, last) refl
  | inr e ↦ ground (arith, h, e)
]

-- equal keys have one home
pub get_hash_slot_congr :
    (t : KvTable) (a b : ℕ → ℕ) (n : ℕ)
    → same_bytes a b n ≡ true
    → get_hash_slot t a n ≡ get_hash_slot t b n
unfolding get_hash_slot hash_function
get_hash_slot_congr t a b n h = rw (hash_bytes_congr a b n h) refl

below :
    (k src dst : ℕ → ℕ) (m n : ℕ)
    → n < suc m
    → same_bytes k (copied_bytes src m dst) n ≡ same_bytes k src n
unfolding same_bytes
below k src dst m zero h = refl
below k src dst m (suc n) h =
    let inside : ltb n m ≡ true = ground (arith, h) in
    rw (below k src dst m n (omega (arith, h)), inside) refl

-- a key that has been copied compares as the key
pub same_bytes-copied :
    (k src dst : ℕ → ℕ) (n : ℕ) → same_bytes k (copied_bytes src n dst) n ≡ same_bytes k src n
same_bytes-copied k src dst n = below k src dst n n (omega arith)
