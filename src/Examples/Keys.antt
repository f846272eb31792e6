-- ===== src/Examples/Keys.antt =====
-- The theorems on the key-value FTL, on new namespaces, and runs on a table of two slots.
use wild_cat.Common.{
  ℕ, ◌+◌, ◌*◌, ◌≤◌, ◌≡◌, refl, Option, none, some, ◌==◌, if◌then◌else◌, ◌>>=◌, inl, arith,
}
use wild_cat.Units.{UnitConfig, write_times, schedule_io_units, schedule_flush}
use wild_cat.Units.Schedule.{schedule_io_units-Ends}
use wild_cat.Kv.Command.{kv_store, kv_retrieve, kv_delete, KvCommand}
use wild_cat.Kv.Table.{
  no_slot, KvTable, new_mapping_entry_by_key, get_mapping_entry_by_key, delete_mapping_entry,
}
use wild_cat.Kv.Table.Insert.{view}
use wild_cat.Kv.Table.Entry.{Added, new_mapping_entry_by_key-Added}
use wild_cat.Kv.Allocator.{AppendOnly, append_only_allocator_init}
use wild_cat.Kv.State.{IterContext, KvFtl, append_only_ops}
use wild_cat.Kv.Iterate.{scan_slots, scan_from, slots_left}
use wild_cat.Kv.Iterate.Listing.{IsListing, Stopped, scan_slots-lists}
use wild_cat.Kv.Namespace.{fresh_table, kv_init_namespace}
use wild_cat.Kv.Namespace.Fresh.{fresh-IsChained, fresh_view}

abbrev two_slots : KvTable
two_slots = record { slots = fresh_table.slots; hash_slots = 2 }

abbrev one_byte : ℕ → ℕ → ℕ
one_byte b i = if i == 0 then b else 0

-- the keys 1 and 3 have one home
abbrev both : Option KvTable
both = new_mapping_entry_by_key 4096 two_slots (one_byte 1) 1 8 0 >>= λ t.
    new_mapping_entry_by_key 4096 t (one_byte 3) 1 8 64

both_found : (both >>= λ t. view t (one_byte 3) 1) ≡ some (some (64, 8))
unfolding new_mapping_entry_by_key view get_mapping_entry_by_key
both_found = refl

abbrev delete_first : KvCommand
delete_first = record {
  opcode = kv_delete;
  value_len = 0;
  key_len = 0;
  key = one_byte 1;
  prp1 = 0;
  prp2 = 0;
  sub_cmd_cnt = 0;
  iter_handle = 0;
  option = 0;
  iter_val = 0;
  iter_bitmask = 0;
}

-- after the first key of the chain is deleted, the second one is not found
second_lost :
    (both >>= λ t. delete_mapping_entry t delete_first >>= λ (_, t'). view t' (one_byte 3) 1)
    ≡ some none
unfolding new_mapping_entry_by_key view get_mapping_entry_by_key delete_mapping_entry
second_lost = refl

new_mapping_entry_by_key-Added_example :
    (t' : KvTable) × (new_mapping_entry_by_key 4096 fresh_table (one_byte 7) 1 16 32 ≡ some t')
    × Added fresh_table (one_byte 7) 1 16 32 t'
new_mapping_entry_by_key-Added_example =
    new_mapping_entry_by_key-Added 4096 fresh_table (one_byte 7) 1 16 32
      (fresh-IsChained 1 (omega arith)) (fresh_view (one_byte 7) 1 (omega arith)) 5 (omega arith)
      refl (omega arith) (omega arith)

abbrev empty : KvFtl AppendOnly
empty =
    kv_init_namespace append_only_ops (append_only_allocator_init 0) (λ i. none) 1048576 (λ a. 0)
      (λ a. a)

abbrev store_key : KvCommand
store_key = record delete_first { opcode = kv_store; value_len = 1100; prp1 = 8192; prp2 = 20480 }

-- an FTL whose slots all hold the key 1 with 8 bytes from 64 on
abbrev loaded : KvFtl AppendOnly
loaded = record empty {
  table = record {
    slots = λ s. record { key = one_byte 1; mem_offset = 64; length = 8; next_slot = no_slot };
    hash_slots = 2;
  };
  storage = λ a. a + 5;
}

abbrev retrieve_key : KvCommand
retrieve_key = record delete_first {
  opcode = kv_retrieve;
  value_len = 4;
  prp1 = 8192;
  prp2 = 20480;
}

abbrev all_keys : IterContext
all_keys = record { prefix = 0; bitmask = 0; buf = λ i. 0; current_pos = 1 }

scan_slots-lists_example :
    (m : ℕ) × IsListing loaded.table all_keys m
      (scan_slots (slots_left loaded.table all_keys) loaded.table all_keys (scan_from all_keys))
    × Stopped loaded.table all_keys m
        (scan_slots (slots_left loaded.table all_keys) loaded.table all_keys (scan_from all_keys))
scan_slots-lists_example = scan_slots-lists loaded.table all_keys

abbrev units : UnitConfig
units = record {
  nr_io_units = 4;
  io_unit_shift = 12;
  read_delay = 10;
  read_time = 20;
  read_trailing = 0;
  write_delay = 30;
  write_time = 100;
  write_trailing = 5;
}

-- 10000 bytes from block 25 on take three units, of which the first is number 3
schedule_io_units-Ends_example :
    (stat' : ℕ → ℕ) × (schedule_io_units units (write_times units) (λ u. 50 * u) 25 10000 70
      ≡ some (480, stat'))
    × (480 ≤ schedule_flush 4 stat')
schedule_io_units-Ends_example =
    schedule_io_units-Ends units (write_times units) (omega arith) (λ u. 50 * u) 25 10000 70 3
      (omega arith)
      (record { some_unit = omega arith; enough = omega arith; needed = inl (omega arith) })
      (omega arith)
