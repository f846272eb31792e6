-- ===== src/Kv/Namespace.antt =====
-- kv_ftl.c: the dispatch of the commands of a key-value namespace, and its initial state.
pub mod Fresh
use wild_cat.Common.{ℕ, ◌/◌, ◌^◌, Bool, Option, none, some, ltb, if◌then◌else◌, ◌>>=◌}
use wild_cat.World.{tick}
use wild_cat.Units.{UnitDevice, RwCommand, cmd_io_size, kv_times, scheduled, schedule_flush}
use wild_cat.Kv.Command.{
  Opcode, flush, write, read, kv_store, kv_retrieve, kv_batch, KvCommand, cmd_value_length,
  is_kv_cmd, is_kv_batch_cmd, is_kv_iter_cmd,
}
use wild_cat.Kv.Table.{no_offset, no_slot, KvTable}
use wild_cat.Kv.State.{IterContext, AllocatorOps, KvFtl, KvAnswer}
use wild_cat.Kv.Io.{perform_kv_io}
use wild_cat.Kv.Batch.{perform_kv_batch}
use wild_cat.Kv.Iterate.{perform_kv_iter_io}

-- a key-value command, which begins at the next reading of the clock; the log line reads it again
unfoldable pub scheduled_kv : UnitDevice → Opcode → KvCommand → Option (ℕ × UnitDevice)
unfolding scheduled
scheduled_kv d op cmd =
    scheduled d (kv_times d.config op) 0 (cmd_value_length cmd) >>= λ (latest, d').
    some (latest, record d' { world = tick d'.world })

-- `kv_proc_nvme_io_cmd`, on the two readings of a command: the time at which it is done, which is
-- `target` for an opcode that is only reported
unfoldable pub kv_proc_nvme_io_cmd :
    UnitDevice → Opcode → RwCommand → KvCommand → ℕ → Option (ℕ × UnitDevice)
unfolding scheduled_kv schedule_flush
kv_proc_nvme_io_cmd d op rw_cmd kv_cmd target = elim op [
  | write ↦ scheduled d (kv_times d.config write) rw_cmd.slba (cmd_io_size rw_cmd)
  | read ↦ scheduled d (kv_times d.config read) rw_cmd.slba (cmd_io_size rw_cmd)
  | flush ↦ some (schedule_flush d.config.nr_io_units d.io_unit_stat, d)
  | kv_store ↦ scheduled_kv d kv_store kv_cmd
  | kv_retrieve ↦ scheduled_kv d kv_retrieve kv_cmd
  | kv_batch ↦ scheduled_kv d kv_batch kv_cmd
  | _ ↦ some (target, d)
]

abbrev pub kv_identify_nvme_io_cmd : KvCommand → Bool
kv_identify_nvme_io_cmd cmd = is_kv_cmd cmd.opcode

-- the size of the mapping table, and of an entry
abbrev pub kv_mapping_table_size : ℕ
kv_mapping_table_size = 2 ^ 30

abbrev pub kv_mapping_entry_size : ℕ
kv_mapping_entry_size = 48

-- the table of a new namespace
abbrev pub fresh_table : KvTable
fresh_table = record {
  slots =
      λ s. record { key = λ i. 0; mem_offset = no_offset; length = no_offset; next_slot = no_slot };
  hash_slots = kv_mapping_table_size / kv_mapping_entry_size;
}

module _ {A : Type 0} (ops : AllocatorOps A) where
  unfoldable pub kv_perform_nvme_io_cmd :
      KvFtl A → (ℕ → ℕ) → (ℕ → ℕ) → KvCommand → ℕ → Option (KvAnswer × KvFtl A)
  unfolding perform_kv_io perform_kv_batch perform_kv_iter_io
  kv_perform_nvme_io_cmd f fresh entries cmd status =
      if is_kv_batch_cmd cmd.opcode
      then perform_kv_batch ops f fresh entries cmd status
      else if is_kv_iter_cmd cmd.opcode
      then perform_kv_iter_io f fresh entries cmd status
      else perform_kv_io ops f entries cmd status

  -- `kv_init_namespace`, where the table is mapped. `handles` is what the array of the handles holds
  -- before, of which the last one stays as it is.
  unfoldable pub kv_init_namespace : A → (ℕ → Option IterContext) → ℕ → (ℕ → ℕ) → (ℕ → ℕ) → KvFtl A
  kv_init_namespace a handles storage_size storage host = record {
    table = fresh_table;
    allocator = ops.init a storage_size;
    iter_handle = λ i. if ltb i 16 then none else handles i;
    storage = storage;
    storage_size = storage_size;
    host = host;
  }
