-- ===== src/Kv/State.antt =====
-- kv_ftl.h, nvme_kv.h: the state of the key-value FTL.
use wild_cat.Common.{ℕ, Option}
use wild_cat.Kv.Table.{KvTable}
use wild_cat.Kv.Allocator.{
  AppendOnly, append_only_allocator_init, append_only_allocate, Bitmap, BitmapOps,
  bitmap_allocator_init, bitmap_allocate,
}

pub record IterContext : Type 0 where
  pub prefix : ℕ
  pub bitmask : ℕ
  pub buf : ℕ → ℕ
  pub current_pos : ℕ

-- `struct allocator_ops`, on a state `A`; `-1` for no space is a large offset
pub record AllocatorOps (A : Type 0) : Type 0 where
  pub init : A → ℕ → A
  pub allocate : A → ℕ → ℕ × A

abbrev pub append_only_ops : AllocatorOps AppendOnly
append_only_ops = record {
  init = λ a size. append_only_allocator_init size;
  allocate = append_only_allocate;
}

abbrev pub bitmap_ops : {Bits : Type 0} → BitmapOps Bits → AllocatorOps (Bitmap Bits)
bitmap_ops ops = record { init = bitmap_allocator_init ops; allocate = bitmap_allocate ops }

-- `struct kv_ftl`, and the memory that its functions reach: the storage of the device and the
-- memory of the host
pub record KvFtl (A : Type 0) : Type 0 where
  pub table : KvTable
  pub allocator : A
  pub iter_handle : ℕ → Option IterContext
  pub storage : ℕ → ℕ
  pub storage_size : ℕ
  pub host : ℕ → ℕ

-- the result of a command and its status, which a command may leave as it is
pub record KvAnswer : Type 0 where
  pub result : ℕ
  pub status : ℕ
