-- ===== src/Units.antt =====
-- simple_ftl.c, and the functions of kv_ftl.c that are the same: the schedule of the I/O units, and
-- the commands of the simple FTL.
pub mod Schedule
use wild_cat.Common.{
  ℕ, zero, suc, ◌+◌, ◌-◌, ◌*◌, ◌/◌, ◌%◌, ◌^◌, true, false, Option, some, none, ◌==◌, if◌then◌else◌,
  max, min, update, add32, add64, mul32, sub32, w32, leb, ◌>>=◌,
}
use wild_cat.World.{World, now, tick}
use wild_cat.Kv.Command.{Opcode, flush, write, read, kv_store, kv_retrieve, kv_batch}

-- the fields of `struct nvmev_config` that give the I/O units their times
pub record UnitConfig : Type 0 where
  pub nr_io_units : ℕ
  pub io_unit_shift : ℕ
  pub read_delay : ℕ
  pub read_time : ℕ
  pub read_trailing : ℕ
  pub write_delay : ℕ
  pub write_time : ℕ
  pub write_trailing : ℕ

pub record UnitTimes : Type 0 where
  pub delay : ℕ
  pub latency : ℕ
  pub trailing : ℕ

abbrev pub write_times : UnitConfig → UnitTimes
write_times c = record {
  delay = c.write_delay;
  latency = c.write_time;
  trailing = c.write_trailing;
}

abbrev pub read_times : UnitConfig → UnitTimes
read_times c = record { delay = c.read_delay; latency = c.read_time; trailing = c.read_trailing }

abbrev pub no_times : UnitTimes
no_times = record { delay = 0; latency = 0; trailing = 0 }

-- the times of an opcode in the key-value FTL
abbrev pub kv_times : UnitConfig → Opcode → UnitTimes
kv_times c write = write_times c
kv_times c kv_store = write_times c
kv_times c kv_batch = write_times c
kv_times c read = read_times c
kv_times c kv_retrieve = read_times c
kv_times c _ = no_times

-- the times of an opcode in the simple FTL
abbrev pub simple_times : UnitConfig → Opcode → UnitTimes
simple_times c write = write_times c
simple_times c read = read_times c
simple_times c _ = no_times

abbrev pub io_unit_size : UnitConfig → ℕ
io_unit_size c = w32 (2 ^ c.io_unit_shift)

-- `lba >> (io_unit_shift - LBA_BITS)`, for units of at least a block
abbrev pub first_unit : UnitConfig → ℕ → ℕ
first_unit c lba = lba / 2 ^ (c.io_unit_shift - 9) % c.nr_io_units

-- `DIV_ROUND_UP`
abbrev pub units_of : UnitConfig → ℕ → ℕ
units_of c length = add32 length (sub32 (io_unit_size c) 1) / io_unit_size c

abbrev pub next_unit : UnitConfig → ℕ → ℕ
next_unit c unit = if leb c.nr_io_units (suc unit) then 0 else suc unit

-- One round: the time at which the unit is done, and what is added for the first `left` units.
abbrev pub done_at : UnitTimes → ℕ → ℕ → ℕ
done_at times left latest = if left == 0 then latest else add64 latest times.trailing

-- The rounds over the units; `left` is how many may still be given their trailing time. The result
-- is the time of the last one. Without fuel it has no result.
unfoldable pub unit_rounds :
    ℕ → UnitConfig → UnitTimes → (ℕ → ℕ) → ℕ → ℕ → ℕ → ℕ → Option (ℕ × (ℕ → ℕ))
unit_rounds zero c times stat unit left length latest = none
unit_rounds (suc fuel) c times stat unit left length latest =
    let latest' = add64 latest times.latency in
    let stat' = update stat unit (done_at times left latest') in
    let rest = length - min length (io_unit_size c) in
    elim (rest == 0) [
      | true ↦ some (latest', stat')
      | false ↦ unit_rounds fuel c times stat' (next_unit c unit) (left - 1) rest latest'
    ]

-- `__schedule_io_units`, on `io_unit_stat`
unfoldable pub schedule_io_units :
    UnitConfig → UnitTimes → (ℕ → ℕ) → ℕ → ℕ → ℕ → Option (ℕ × (ℕ → ℕ))
unfolding unit_rounds
schedule_io_units c times stat lba length nsecs_start =
    let unit = first_unit c lba in
    unit_rounds (suc length) c times stat unit (min c.nr_io_units (units_of c length)) length
      (add64 (max nsecs_start (stat unit)) times.delay)

-- `__schedule_flush`: the latest time of the first `n` units
unfoldable pub schedule_flush : ℕ → (ℕ → ℕ) → ℕ
schedule_flush zero stat = 0
schedule_flush (suc n) stat = max (schedule_flush n stat) (stat n)

-- the configuration, `io_unit_stat` and the clock
pub record UnitDevice : Type 0 where
  pub config : UnitConfig
  pub io_unit_stat : ℕ → ℕ
  pub world : World

-- the fields of a read or a write that are used; `len` is one less than the number of blocks
pub record RwCommand : Type 0 where
  pub opcode : Opcode
  pub slba : ℕ
  pub len : ℕ

-- `__cmd_io_size`, as an `unsigned int`
abbrev pub cmd_io_size : RwCommand → ℕ
cmd_io_size cmd = mul32 (suc cmd.len) 512

-- a command that begins at the next reading of the clock
unfoldable pub scheduled : UnitDevice → UnitTimes → ℕ → ℕ → Option (ℕ × UnitDevice)
unfolding schedule_io_units
scheduled d times lba length =
    schedule_io_units d.config times d.io_unit_stat lba length (now d.world) >>= λ (latest, stat).
    some (latest, record d { io_unit_stat = stat; world = tick d.world })

-- `simple_proc_nvme_io_cmd`, where the namespace and the target are the expected ones: the time at
-- which the command is done, which is `target` for an opcode that is only reported
unfoldable pub simple_proc_nvme_io_cmd : UnitDevice → RwCommand → ℕ → Option (ℕ × UnitDevice)
unfolding scheduled schedule_flush
simple_proc_nvme_io_cmd d cmd target = elim cmd.opcode [
  | write ↦ scheduled d (simple_times d.config write) cmd.slba (cmd_io_size cmd)
  | read ↦ scheduled d (simple_times d.config read) cmd.slba (cmd_io_size cmd)
  | flush ↦ some (schedule_flush d.config.nr_io_units d.io_unit_stat, d)
  | _ ↦ some (target, d)
]
