-- ===== src/Kv/Batch.antt =====
-- kv_ftl.c, nvme_kv.h: a batch of stores in one buffer.
use wild_cat.Common.{
  ℕ, zero, suc, ◌+◌, ◌-◌, ◌*◌, ◌/◌, ◌^◌, Option, some, ◌==◌, if◌then◌else◌, ◌>>=◌,
}
use wild_cat.Kv.Command.{KvCommand, cmd_value_length}
use wild_cat.Kv.Table.{no_offset, get_mapping_entry_by_key, new_mapping_entry_by_key}
use wild_cat.Kv.Transfer.{memcpy, value_copies, take_in}
use wild_cat.Kv.State.{AllocatorOps, KvFtl, KvAnswer}
use wild_cat.Kv.Io.{allocate_mem_offset_by_length}

-- `nvme_cmd_kv_store`
abbrev store_opcode : ℕ
store_opcode = 129

abbrev pub align_len : ℕ
align_len = 64

-- `((n - 1) / ALIGN_LEN + 1) * ALIGN_LEN` of an `int` that is not negative
abbrev pub aligned : ℕ → ℕ
aligned n = ((n - 1) / align_len + 1) * align_len

-- the attributes of a sub-command, at their places in the head of the batch
pub record SubCommand : Type 0 where
  pub opcode : ℕ
  pub key_size : ℕ
  pub value_size : ℕ

abbrev pub sub_command : (ℕ → ℕ) → ℕ → SubCommand
sub_command buffer i = record {
  opcode = buffer (16 * i);
  key_size = buffer (16 * i + 1);
  value_size =
      buffer (16 * i + 4)
      + 2 ^ 8 * buffer (16 * i + 5)
      + 2 ^ 16 * buffer (16 * i + 6)
      + 2 ^ 24 * buffer (16 * i + 7);
}

-- where the sub-payloads begin, behind the head of the batch
abbrev pub sub_payload : ℕ
sub_payload = 512

abbrev pub sub_len : SubCommand → ℕ
sub_len s = aligned s.key_size + aligned s.value_size + align_len

module _ {A : Type 0} (ops : AllocatorOps A) where
  -- `__do_perform_kv_batched_io`: a key that is there keeps the length of its entry
  unfoldable pub perform_kv_batched_io : KvFtl A → ℕ → (ℕ → ℕ) → ℕ → (ℕ → ℕ) → ℕ → Option (KvFtl A)
  unfolding get_mapping_entry_by_key new_mapping_entry_by_key allocate_mem_offset_by_length
  perform_kv_batched_io f opcode key key_len value val_len =
      get_mapping_entry_by_key f.table key key_len >>= λ entry.
      if opcode == store_opcode
      then (if entry.mem_offset == no_offset
          then (let (offset, a) = allocate_mem_offset_by_length ops f.allocator val_len in
              new_mapping_entry_by_key f.storage_size f.table key key_len val_len offset >>= λ t.
              some (record f {
                allocator = a;
                storage = memcpy f.storage offset value 0 val_len;
                table = t;
              }))
          else some (record f { storage = memcpy f.storage entry.mem_offset value 0 val_len }))
      else some f

  -- The sub-commands `i` on, `n` of them; `at` is the place of the payload of the next. What the two
  -- arrays of the loop hold behind a key and a value is 0.
  unfoldable pub sub_commands : ℕ → ℕ → ℕ → (ℕ → ℕ) → KvFtl A → Option (KvFtl A)
  unfolding perform_kv_batched_io
  sub_commands zero i at buffer f = some f
  sub_commands (suc n) i at buffer f =
      let s = sub_command buffer i in
      let key = memcpy (λ j. 0) 0 buffer (sub_payload + at) s.key_size in
      let value = memcpy (λ j. 0) 0 buffer (sub_payload + at + aligned s.key_size) s.value_size in
      perform_kv_batched_io f s.opcode key s.key_size value s.value_size >>= λ f'.
      sub_commands n (suc i) (at + sub_len s) buffer f'

  -- `__do_perform_kv_batch`; `fresh` is what the new buffer holds
  unfoldable pub perform_kv_batch :
      KvFtl A → (ℕ → ℕ) → (ℕ → ℕ) → KvCommand → ℕ → Option (KvAnswer × KvFtl A)
  unfolding value_copies take_in sub_commands
  perform_kv_batch f fresh entries cmd status =
      value_copies entries cmd (cmd_value_length cmd) >>= λ copies.
      sub_commands cmd.sub_cmd_cnt 0 align_len (take_in copies f.host fresh 0) f >>= λ f'.
      some (record { result = 0; status = status }, f')
