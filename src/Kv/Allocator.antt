-- ===== src/Kv/Allocator.antt =====
-- append_only.c, bitmap.c: the two allocators of storage.
use wild_cat.Common.{ℕ, suc, ◌/◌, if◌then◌else◌, ltb, add64, mul64}

pub record AppendOnly : Type 0 where
  pub latest : ℕ
  pub dev_size : ℕ
  pub total_written : ℕ

abbrev pub append_only_allocator_init : ℕ → AppendOnly
append_only_allocator_init size = record { latest = 0; dev_size = size; total_written = 0 }

unfoldable pub append_only_allocate : AppendOnly → ℕ → ℕ × AppendOnly
append_only_allocate a length = (
  a.latest,
  record a { latest = add64 a.latest length; total_written = add64 a.total_written length },
)

abbrev pub small_length : ℕ
small_length = 1024

abbrev pub large_length : ℕ
large_length = 4096

-- The kernel's operations on bitmaps: `bitmap_zero` by the number of bits,
-- `bitmap_find_next_zero_area` for one bit, by the number of bits and the start of the search, and
-- `bitmap_set` of one bit.
pub record BitmapOps (Bits : Type 0) : Type 0 where
  pub zero : Bits → ℕ → Bits
  pub find_zero : Bits → ℕ → ℕ → ℕ
  pub set_bit : Bits → ℕ → Bits

-- one of the two bitmaps with its position, and how many of its bits are set
pub record Area (Bits : Type 0) : Type 0 where
  pub bitmap : Bits
  pub nbits : ℕ
  pub last_pos : ℕ
  pub capacity : ℕ

pub record Bitmap (Bits : Type 0) : Type 0 where
  pub small : Area Bits
  pub large : Area Bits
  pub dev_size : ℕ
  pub total_written : ℕ

module _ {Bits : Type 0} (ops : BitmapOps Bits) where
  -- the positions and the capacities stay as they are
  pub bitmap_allocator_init : Bitmap Bits → ℕ → Bitmap Bits
  bitmap_allocator_init b size = record b {
    dev_size = size;
    small = record b.small {
      nbits = size / 2 / small_length;
      bitmap = ops.zero b.small.bitmap (size / 2 / small_length);
    };
    large = record b.large {
      nbits = size / 2 / large_length;
      bitmap = ops.zero b.large.bitmap (size / 2 / large_length);
    };
  }

  -- one bit of an area
  unfoldable pub take_bit : Area Bits → ℕ × Area Bits
  take_bit a =
      let off = ops.find_zero a.bitmap a.nbits a.last_pos in
      (
        off,
        record a {
          bitmap = ops.set_bit a.bitmap off;
          last_pos = if ltb a.nbits (suc off) then 0 else suc off;
          capacity = suc a.capacity;
        },
      )

  unfoldable pub bitmap_allocate : Bitmap Bits → ℕ → ℕ × Bitmap Bits
  unfolding take_bit
  bitmap_allocate b length =
      let b' = record b { total_written = add64 b.total_written length } in
      if ltb small_length length
      then (let (off, large) = take_bit b.large in
          (add64 (b.dev_size / 2) (mul64 off large_length), record b' { large = large }))
      else (let (off, small) = take_bit b.small in
          (mul64 off small_length, record b' { small = small }))
