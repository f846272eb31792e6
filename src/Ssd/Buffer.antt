-- ===== src/Ssd/Buffer.antt =====
-- ssd.c: the write buffer. Its spinlock makes each operation one step.
pub mod Account
use wild_cat.Common.{ℕ, ◌-◌, Option, some, ltb, leb, if◌then◌else◌, check, add64, w32}

pub record Buffer : Type 0 where
  pub size : ℕ
  pub remaining : ℕ

unfoldable pub buffer_init : ℕ → Buffer
buffer_init size = record { size = size; remaining = size }

-- What was allocated (0 where the space is short), and the buffer. A request that is larger than
-- the buffer is a failed assertion. The result is a `uint32_t`.
pub buffer_allocate : Buffer → ℕ → Option (ℕ × Buffer)
buffer_allocate buf size = check (leb size buf.size) (
    if ltb buf.remaining size
    then some (0, buf)
    else some (w32 size, record buf { remaining = buf.remaining - size }))

pub buffer_release : Buffer → ℕ → Buffer
buffer_release buf size = record buf { remaining = add64 buf.remaining size }

unfoldable pub buffer_refill : Buffer → Buffer
buffer_refill buf = record buf { remaining = buf.size }
