-- ===== src/World.antt =====
-- What the kernel supplies: the readings of its clocks (`cpu_clock`, `local_clock`,
-- `ktime_get_ns`) and of `get_random_u32`, in the order in which the code asks for them.
use wild_cat.Common.{ℕ, ◌+◌}

pub record World : Type 0 where
  pub clock : ℕ → ℕ
  pub clock_reads : ℕ
  pub random : ℕ → ℕ
  pub random_reads : ℕ

-- the reading that comes next
abbrev pub now : World → ℕ
now w = w.clock w.clock_reads

abbrev pub tick : World → World
tick w = record w { clock_reads = w.clock_reads + 1 }

abbrev pub drawn : World → ℕ
drawn w = w.random w.random_reads

abbrev pub draw : World → World
draw w = record w { random_reads = w.random_reads + 1 }
