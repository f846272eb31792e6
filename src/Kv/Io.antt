-- ===== src/Kv/Io.antt =====
-- kv_ftl.c: stores, retrievals, deletions and tests of one key.
pub mod Dictionary
pub mod Store
pub mod Retrieve
use wild_cat.Common.{
  ℕ, ◌+◌, ◌&&◌, not, true, false, Option, none, some, ◌==◌, leb, if◌then◌else◌, ◌>>=◌, min, w32,
}
use wild_cat.Kv.Command.{
  Opcode, kv_store, kv_retrieve, kv_exist, kv_delete, KvCommand, cmd_value_length,
}
use wild_cat.Kv.Table.{
  no_offset, MappingEntry, KvTable, get_mapping_entry, new_mapping_entry, update_mapping_entry,
  delete_mapping_entry,
}
use wild_cat.Kv.Allocator.{small_length}
use wild_cat.Kv.Transfer.{value_copies, take_in, give_out}
use wild_cat.Kv.State.{AllocatorOps, KvFtl, KvAnswer}

-- `KV_ERR_KEY_NOT_EXIST`
abbrev pub key_not_exist : ℕ
key_not_exist = 784

module _ {A : Type 0} (ops : AllocatorOps A) where
  -- `allocate_mem_offset` of a store, and `allocate_mem_offset_by_length`
  unfoldable pub allocate_mem_offset_by_length : A → ℕ → ℕ × A
  allocate_mem_offset_by_length a length =
      let (offset, a') = ops.allocate a length in (if offset == no_offset then 0 else offset, a')

  -- the value of a store goes to the storage at `offset`
  unfoldable pub put_value : KvFtl A → (ℕ → ℕ) → KvCommand → ℕ → Option (KvFtl A)
  unfolding value_copies take_in
  put_value f entries cmd offset = value_copies entries cmd (cmd_value_length cmd) >>= λ copies.
      some (record f { storage = take_in copies f.host f.storage offset })

  -- a store of a key that is not there
  unfoldable pub insert_value : KvFtl A → (ℕ → ℕ) → KvCommand → ℕ → Option (KvAnswer × KvFtl A)
  unfolding allocate_mem_offset_by_length put_value new_mapping_entry
  insert_value f entries cmd status =
      let (offset, a) = allocate_mem_offset_by_length f.allocator (cmd_value_length cmd) in
      put_value (record f { allocator = a }) entries cmd offset >>= λ f'.
      new_mapping_entry f'.storage_size f'.table cmd offset >>= λ t.
      some (record { result = 0; status = status }, record f' { table = t })

  -- A store of a key that is there. Another length is noted where both are small.
  unfoldable pub update_value :
      KvFtl A → (ℕ → ℕ) → KvCommand → MappingEntry → ℕ → Option (KvAnswer × KvFtl A)
  unfolding put_value update_mapping_entry
  update_value f entries cmd entry status =
      let length = cmd_value_length cmd in
      put_value f entries cmd entry.mem_offset >>= λ f'.
      (if not (length == entry.length) && (leb length small_length && leb entry.length small_length)
        then (update_mapping_entry f'.table cmd >>= λ (_, t). some t)
        else some f'.table)
      >>= λ t. some (record { result = 0; status = status }, record f' { table = t })

  unfoldable pub retrieve_value :
      KvFtl A → (ℕ → ℕ) → KvCommand → MappingEntry → ℕ → Option (KvAnswer × KvFtl A)
  unfolding value_copies give_out
  retrieve_value f entries cmd entry status =
      let length = min entry.length (cmd_value_length cmd) in
      value_copies entries cmd length >>= λ copies. some (
        record { result = w32 length; status = status },
        record f { host = give_out copies f.host f.storage entry.mem_offset },
      )

  -- `__do_perform_kv_io`
  unfoldable pub perform_kv_io : KvFtl A → (ℕ → ℕ) → KvCommand → ℕ → Option (KvAnswer × KvFtl A)
  unfolding insert_value update_value retrieve_value delete_mapping_entry
  perform_kv_io f entries cmd status = get_mapping_entry f.table cmd >>= λ entry.
      let absent = entry.mem_offset == no_offset in
      let missing : KvAnswer × KvFtl A = (record { result = 0; status = key_not_exist }, f) in
      elim cmd.opcode [
        | kv_store ↦
            if absent
            then insert_value f entries cmd status
            else update_value f entries cmd entry status
        | kv_retrieve ↦ if absent then some missing else retrieve_value f entries cmd entry status
        | kv_exist ↦ some (if absent then missing else (record { result = 0; status = status }, f))
        | kv_delete ↦
            if absent
            then some missing
            else (delete_mapping_entry f.table cmd >>= λ (_, t).
                some (record { result = 0; status = status }, record f { table = t }))
        | _ ↦ some (record { result = 0; status = status }, f)
      ]
