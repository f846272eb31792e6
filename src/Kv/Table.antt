-- ===== src/Kv/Table.antt =====
-- kv_ftl.c: the mapping table, a hash table whose chains run through its slots.
pub mod Keys
pub mod Chained
pub mod Search
pub mod Added
pub mod Insert
pub mod Entry
use wild_cat.Common.{
  ℕ, zero, suc, ◌+◌, ◌-◌, ◌%◌, ◌^◌, Bool, true, false, ◌&&◌, Option, none, some, ◌==◌, ltb, leb,
  if◌then◌else◌, ◌>>=◌, check, update,
}
use wild_cat.Kv.Command.{KvCommand, cmd_key_length, cmd_value_length, hash_function}

-- The `-1` of a `size_t` and of an `unsigned int`.
abbrev pub no_offset : ℕ
no_offset = 2 ^ 64 - 1

abbrev pub no_slot : ℕ
no_slot = 2 ^ 32 - 1

-- `char key[18]`
abbrev pub key_size : ℕ
key_size = 18

-- the bytes of a key are those of its array, of `key_size` bytes: the functions below end without a
-- result before they read or write an array past it
pub record MappingEntry : Type 0 where
  pub key : ℕ → ℕ
  pub mem_offset : ℕ
  pub length : ℕ
  pub next_slot : ℕ

-- the mapping table of a `struct kv_ftl`
pub record KvTable : Type 0 where
  pub slots : ℕ → MappingEntry
  pub hash_slots : ℕ

-- `memset(&mapping, -1, sizeof(struct mapping_entry))`
abbrev pub cleared : MappingEntry
cleared = record { key = λ i. 255; mem_offset = no_offset; length = no_offset; next_slot = no_slot }

abbrev pub is_used : KvTable → ℕ → Bool
is_used t s = if (t.slots s).mem_offset == no_offset then false else true

-- `memcmp(a, b, n) == 0`
unfoldable pub same_bytes : (ℕ → ℕ) → (ℕ → ℕ) → ℕ → Bool
same_bytes a b zero = true
same_bytes a b (suc n) = same_bytes a b n && (a n == b n)

-- `memcpy(dst, src, n)`, which is made for at most `key_size` bytes
abbrev pub copied_bytes : (ℕ → ℕ) → ℕ → (ℕ → ℕ) → ℕ → ℕ
copied_bytes src n dst i = if ltb i n then src i else dst i

unfoldable pub get_hash_slot : KvTable → (ℕ → ℕ) → ℕ → ℕ
unfolding hash_function
get_hash_slot t key key_len = hash_function key key_len % t.hash_slots

abbrev pub set_entry : KvTable → ℕ → MappingEntry → KvTable
set_entry t s e = record t { slots = update t.slots s e }

abbrev pub chain_mapping : KvTable → ℕ → ℕ → KvTable
chain_mapping t prev slot = set_entry t prev (record (t.slots prev) { next_slot = slot })

-- The last slot in use of a chain; `prevs` is the one before `tail`. Without fuel it has no result.
unfoldable pub find_tail : ℕ → KvTable → ℕ → ℕ → Option ℕ
find_tail zero t tail prevs = none
find_tail (suc fuel) t tail prevs = elim (is_used t tail) [
  | false ↦ some prevs
  | true ↦
      let next = (t.slots tail).next_slot in
      elim (next == no_slot) [ true ↦ some tail | false ↦ find_tail fuel t next tail ]
]

-- The next slot that is not in use. Without fuel it has no result.
unfoldable pub find_free : ℕ → KvTable → ℕ → Option ℕ
find_free zero t s = none
find_free (suc fuel) t s = elim (is_used t s) [
  | false ↦ some s
  | true ↦ find_free fuel t (if leb t.hash_slots (suc s) then 0 else suc s)
]

-- the free slot and the end of the chain
unfoldable pub find_next_slot : KvTable → ℕ → Option (ℕ × ℕ)
unfolding find_tail find_free
find_next_slot t original_slot = find_tail (suc t.hash_slots) t original_slot no_slot >>= λ prevs.
    find_free (suc t.hash_slots) t prevs >>= λ slot. some (slot, prevs)

-- what the entry of a slot becomes, for a key of at most `key_size` bytes
abbrev pub written_entry : MappingEntry → (ℕ → ℕ) → ℕ → ℕ → ℕ → MappingEntry
written_entry e key key_len val_len val_offset = record e {
  key = copied_bytes key key_len e.key;
  mem_offset = val_offset;
  length = val_len;
}

-- `storage_size` bounds the offsets, and a longer key has no result: it would be copied past the
-- array of its entry
unfoldable pub new_mapping_entry_by_key : ℕ → KvTable → (ℕ → ℕ) → ℕ → ℕ → ℕ → Option KvTable
unfolding find_next_slot get_hash_slot
new_mapping_entry_by_key storage_size t key key_len val_len val_offset =
    check (ltb val_offset storage_size) (
      check (leb key_len key_size) (
        let slot = get_hash_slot t key key_len in
        if is_used t slot
        then (find_next_slot t slot >>= λ (free, prev).
            let t' =
              set_entry t free (written_entry (t.slots free) key key_len val_len val_offset) in
            some (if prev == no_slot then t' else chain_mapping t' prev free))
        else some (set_entry t slot (written_entry (t.slots slot) key key_len val_len val_offset))))

unfoldable pub new_mapping_entry : ℕ → KvTable → KvCommand → ℕ → Option KvTable
unfolding new_mapping_entry_by_key
new_mapping_entry storage_size t cmd val_offset =
    new_mapping_entry_by_key storage_size t cmd.key (cmd_key_length cmd) (cmd_value_length cmd)
      val_offset

-- The loop over a chain that three functions share: the slot of a key, if it is found. Without fuel
-- it has no result.
unfoldable pub find_slot : ℕ → KvTable → (ℕ → ℕ) → ℕ → ℕ → Option (Option ℕ)
unfolding same_bytes
find_slot zero t key key_len slot = none
find_slot (suc fuel) t key key_len slot = elim (is_used t slot) [
  | false ↦ some none
  | true ↦ elim (same_bytes key (t.slots slot).key key_len) [
    | true ↦ some (some slot)
    | false ↦
        let next = (t.slots slot).next_slot in
        elim (next == no_slot) [ true ↦ some none | false ↦ find_slot fuel t key key_len next ]
  ]
]

-- A key is compared with the entry of a slot in use, so it has to fit into its array.
abbrev pub key_fits : KvTable → ℕ → ℕ → Bool
key_fits t slot key_len = if is_used t slot then leb key_len key_size else true

unfoldable pub lookup_slot : KvTable → (ℕ → ℕ) → ℕ → Option (Option ℕ)
unfolding find_slot get_hash_slot
lookup_slot t key key_len =
    let home = get_hash_slot t key key_len in
    check (key_fits t home key_len) (find_slot (suc t.hash_slots) t key key_len home)

-- what is returned of a slot; the search compared the key with it, so the key fits into its array
abbrev pub read_entry : KvTable → (ℕ → ℕ) → ℕ → Option ℕ → MappingEntry
read_entry t key key_len none = cleared
read_entry t key key_len (some s) =
    let e = t.slots s in record e { key = copied_bytes e.key key_len cleared.key }

unfoldable pub get_mapping_entry_by_key : KvTable → (ℕ → ℕ) → ℕ → Option MappingEntry
unfolding lookup_slot
get_mapping_entry_by_key t key key_len =
    lookup_slot t key key_len >>= λ found. some (read_entry t key key_len found)

unfoldable pub get_mapping_entry : KvTable → KvCommand → Option MappingEntry
unfolding get_mapping_entry_by_key
get_mapping_entry t cmd = get_mapping_entry_by_key t cmd.key (cmd_key_length cmd)

-- 0, or 1 where the key is not there
unfoldable pub update_mapping_entry : KvTable → KvCommand → Option (ℕ × KvTable)
unfolding lookup_slot
update_mapping_entry t cmd = lookup_slot t cmd.key (cmd_key_length cmd) >>= λ found.
    some (elim found [
      | none ↦ (1, t)
      | some s ↦ (0, set_entry t s (record (t.slots s) { length = cmd_value_length cmd }))
    ])

-- the entry returned is the cleared one in each case
unfoldable pub delete_mapping_entry : KvTable → KvCommand → Option (MappingEntry × KvTable)
unfolding lookup_slot
delete_mapping_entry t cmd = lookup_slot t cmd.key (cmd_key_length cmd) >>= λ found.
    some (cleared, elim found [ none ↦ t | some s ↦ set_entry t s cleared ])
