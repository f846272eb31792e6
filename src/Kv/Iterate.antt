-- ===== src/Kv/Iterate.antt =====
-- kv_ftl.c: iterators over the keys.
pub mod Listing
use Prim.Native.Nat.{bit_and}
use wild_cat.Common.{
  ℕ, zero, suc, ◌+◌, ◌-◌, ◌*◌, ◌/◌, ◌%◌, ◌^◌, Bool, true, false, not, ◌&&◌, Option, none, some,
  ◌==◌, ltb, leb, if◌then◌else◌, ◌>>=◌, update,
}
use wild_cat.Kv.Command.{KvCommand, is_kv_iter_req_cmd, is_kv_iter_read_cmd}
use wild_cat.Kv.Table.{KvTable, is_used}
use wild_cat.Kv.Transfer.{memcpy, value_copies, give_out}
use wild_cat.Kv.State.{IterContext, KvFtl, KvAnswer}

-- The first free handle from `iter` on, of `n` of them.
unfoldable pub free_handle : ℕ → (ℕ → Option IterContext) → ℕ → Option ℕ
free_handle zero handles iter = none
free_handle (suc n) handles iter = elim (handles iter) [
  | none ↦ some iter
  | some h ↦ free_handle n handles (suc iter)
]

-- the bytes of a 32-bit word
abbrev pub word_bytes : ℕ → ℕ → ℕ
word_bytes v i = v / 2 ^ (8 * i) % 2 ^ 8

abbrev pub bytes_word : (ℕ → ℕ) → ℕ
bytes_word b = b 0 + 2 ^ 8 * b 1 + 2 ^ 16 * b 2 + 2 ^ 24 * b 3

abbrev pub key_length : ℕ
key_length = 16

-- the bytes that a key takes, with its length
abbrev pub record_length : ℕ
record_length = 4 + key_length

-- the keys that an iterator is to list
abbrev pub matches : KvTable → IterContext → ℕ → Bool
matches t h pos =
    is_used t pos
    && (bit_and (bytes_word (t.slots pos).key) h.bitmask == bit_and h.prefix h.bitmask)

-- the variables of the loop; `full` and `at_end` are the two flags
pub record IterScan : Type 0 where
  pub pos : ℕ
  pub buf : ℕ → ℕ
  pub buf_offset : ℕ
  pub nr_keys : ℕ
  pub full : Bool
  pub at_end : Bool

-- a key and its length go to the buffer
unfoldable pub list_key : KvTable → IterScan → IterScan
list_key t s = record s {
  buf =
      memcpy (memcpy s.buf s.buf_offset (word_bytes key_length) 0 4) (s.buf_offset + 4)
        (t.slots s.pos).key 0 key_length;
  buf_offset = s.buf_offset + record_length;
  nr_keys = suc s.nr_keys;
}

-- whether a key that is to be listed finds no room
abbrev pub no_room : IterScan → Bool
no_room s = ltb 1024 (s.buf_offset + record_length)

-- the next slot
abbrev pub next_pos : KvTable → IterScan → IterScan
next_pos t s = record s { pos = suc s.pos; at_end = suc s.pos == t.hash_slots }

-- The loop over the slots, of which `n` are left.
unfoldable pub scan_slots : ℕ → KvTable → IterContext → IterScan → IterScan
unfolding list_key
scan_slots zero t h s = s
scan_slots (suc n) t h s = elim (matches t h s.pos) [
  | false ↦ scan_slots n t h (next_pos t s)
  | true ↦ elim (no_room s) [
    | true ↦ record s { full = true }
    | false ↦ scan_slots n t h (next_pos t (list_key t s))
  ]
]

abbrev pub scan_from : IterContext → IterScan
scan_from h = record {
  pos = h.current_pos;
  buf = h.buf;
  buf_offset = 4;
  nr_keys = 0;
  full = false;
  at_end = false;
}

-- the slots that are left at a position
abbrev pub slots_left : KvTable → IterContext → ℕ
slots_left t h = t.hash_slots - h.current_pos

module _ {A : Type 0} where
  -- Without a free handle, the answer is 1 and the status stays; `fresh` is what the new buffer holds.
  unfoldable pub kv_iter_open : KvFtl A → (ℕ → ℕ) → KvCommand → ℕ → KvAnswer × KvFtl A
  unfolding free_handle
  kv_iter_open f fresh cmd status = elim (free_handle 16 f.iter_handle 1) [
    | none ↦ (record { result = 1; status = status }, f)
    | some iter ↦ (
      record { result = iter; status = 0 },
      record f {
        iter_handle = update f.iter_handle iter (
            some (record {
              prefix = cmd.iter_val;
              bitmask = cmd.iter_bitmask;
              buf = fresh;
              current_pos = 0;
            }));
      },
    )
  ]

  unfoldable pub kv_iter_close : KvFtl A → KvCommand → KvAnswer × KvFtl A
  kv_iter_close f cmd = (
    record { result = 0; status = 0 },
    record f { iter_handle = update f.iter_handle cmd.iter_handle none },
  )

  unfoldable pub kv_iter_read : KvFtl A → (ℕ → ℕ) → KvCommand → ℕ → Option (KvAnswer × KvFtl A)
  unfolding scan_slots value_copies give_out
  kv_iter_read f entries cmd status = elim (f.iter_handle cmd.iter_handle) [
    | none ↦ some (record { result = 0; status = status }, f)
    | some h ↦
        let s = scan_slots (slots_left f.table h) f.table h (scan_from h) in
        let buf = memcpy s.buf 0 (word_bytes s.nr_keys) 0 4 in
        value_copies entries cmd s.buf_offset >>= λ copies. some (
          record { result = s.buf_offset; status = if s.at_end then 915 else 0 },
          record f {
            iter_handle =
                update f.iter_handle cmd.iter_handle
                  (some (record h { buf = buf; current_pos = s.pos }));
            host = give_out copies f.host buf 0;
          },
        )
  ]

  -- `__do_perform_kv_iter_io`
  unfoldable pub perform_kv_iter_io :
      KvFtl A → (ℕ → ℕ) → (ℕ → ℕ) → KvCommand → ℕ → Option (KvAnswer × KvFtl A)
  unfolding kv_iter_open kv_iter_close kv_iter_read
  perform_kv_iter_io f fresh entries cmd status =
      let nothing = some (record { result = 0; status = status }, f) in
      if is_kv_iter_req_cmd cmd.opcode
      then (if cmd.option % 2 == 1
          then some (kv_iter_open f fresh cmd status)
          else if cmd.option / 2 % 2 == 1
          then some (kv_iter_close f cmd)
          else nothing)
      else if is_kv_iter_read_cmd cmd.opcode
      then kv_iter_read f entries cmd status
      else nothing
