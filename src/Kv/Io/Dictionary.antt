-- ===== src/Kv/Io/Dictionary.antt =====
-- The dictionary of values that a key-value FTL with the append-only allocator stands for.
use wild_cat.Common.{
  ℕ, ◌+◌, ◌≤◌, ◌<◌, ◌≡◌, true, false, none, some, ◌⊎◌, inl, inr, ◌==◌, Bool-cases, Option-cases,
  arith,
}
use wild_cat.Kv.Command.{KvCommand, cmd_key_length}
use wild_cat.Kv.Table.{
  no_offset, MappingEntry, KvTable, same_bytes, get_mapping_entry, get_mapping_entry_by_key,
}
use wild_cat.Kv.Table.Chained.{IsChained}
use wild_cat.Kv.Table.Insert.{view}
use wild_cat.Kv.Allocator.{AppendOnly}
use wild_cat.Kv.State.{KvFtl}

-- Values lie below the end of the allocation, and apart.
pub record IsStore (f : KvFtl AppendOnly) (key_len : ℕ) : Type 0 where
  pub chained : IsChained f.table key_len
  pub placed :
      (k : ℕ → ℕ) (offset length : ℕ)
      → view f.table k key_len ≡ some (some (offset, length))
      → offset + length ≤ f.allocator.latest
  pub apart :
      (k j : ℕ → ℕ) (o l o' l' : ℕ)
      → same_bytes k j key_len ≡ false
      → view f.table k key_len ≡ some (some (o, l))
      → view f.table j key_len ≡ some (some (o', l'))
      → (o + l ≤ o') ⊎ (o' + l' ≤ o)

-- the key has a value of `length` bytes
abbrev pub Reads : KvFtl AppendOnly → ℕ → (ℕ → ℕ) → ℕ → (ℕ → ℕ) → Type 0
Reads f key_len key length bytes =
    (offset : ℕ) × (view f.table key key_len ≡ some (some (offset, length)))
    × ((i : ℕ) → i < length → f.storage (offset + i) ≡ bytes i)

abbrev pub Lacks : KvFtl AppendOnly → ℕ → (ℕ → ℕ) → Type 0
Lacks f key_len key = view f.table key key_len ≡ some none

-- the dictionary `f'` has the value of `key` besides what `f` has
pub record Extends (f f' : KvFtl AppendOnly) (key_len : ℕ) (key : ℕ → ℕ) (length : ℕ)
    (bytes : ℕ → ℕ) : Type 0 where
  pub store : IsStore f' key_len
  pub own : (k : ℕ → ℕ) → same_bytes k key key_len ≡ true → Reads f' key_len k length bytes
  pub others :
      (k : ℕ → ℕ) (l : ℕ) (b : ℕ → ℕ)
      → same_bytes k key key_len ≡ false
      → Reads f key_len k l b
      → Reads f' key_len k l b
  pub lacking :
      (k : ℕ → ℕ) → same_bytes k key key_len ≡ false → Lacks f key_len k → Lacks f' key_len k

module _ (t : KvTable) (cmd : KvCommand) where
  -- the entry of a command whose key is there, or is not
  pub entry_of_value :
      (offset length : ℕ)
      → view t cmd.key (cmd_key_length cmd) ≡ some (some (offset, length))
      → (e : MappingEntry) × (get_mapping_entry t cmd ≡ some e)
        × (e.mem_offset ≡ offset)
        × (e.length ≡ length)
        × ((e.mem_offset == no_offset) ≡ false)
  unfolding view get_mapping_entry
  entry_of_value offset length v =
      elim (Option-cases (get_mapping_entry_by_key t cmd.key (cmd_key_length cmd))) [
        | inl missing ↦ absurd (ground (arith, rw missing at v))
        | inr (e, found) ↦
            let v' = rw found at v in
            elim (Bool-cases (e.mem_offset == no_offset)) [
              | inl off ↦ absurd (ground (arith, rw off at v'))
              | inr on ↦
                  let v'' = rw on at v' in (e, found, ground (arith, v''), ground (arith, v''), on)
            ]
      ]

  pub entry_of_none :
      view t cmd.key (cmd_key_length cmd) ≡ some none
      → (e : MappingEntry) × (get_mapping_entry t cmd ≡ some e)
        × ((e.mem_offset == no_offset) ≡ true)
  unfolding view get_mapping_entry
  entry_of_none v = elim (Option-cases (get_mapping_entry_by_key t cmd.key (cmd_key_length cmd))) [
    | inl missing ↦ absurd (ground (arith, rw missing at v))
    | inr (e, found) ↦
        let v' = rw found at v in
        elim (Bool-cases (e.mem_offset == no_offset)) [
          | inl off ↦ (e, found, off)
          | inr on ↦ absurd (ground (arith, rw on at v'))
        ]
  ]
