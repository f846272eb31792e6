-- ===== src/Kv/Command.antt =====
-- nvme_kv.h, kv_ftl.h: the key-value commands, and the hash of a key.
use Prim.Native.Nat.{bit_xor}
use wild_cat.Common.{ℕ, zero, suc, Bool, true, false, ◌||◌, mul32}

pub data Opcode : Type 0 where
  flush write read kv_store kv_append kv_retrieve kv_delete kv_iter_req kv_iter_read kv_exist
        kv_batch other :
      Opcode

-- The fields of `struct nvme_kv_command` that are used. The commands of the union keep a field of
-- one name at one place; `key` is what stands from the place of the key on, and `sub_cmd_cnt` is the
-- last reserved byte of a batch.
pub record KvCommand : Type 0 where
  pub opcode : Opcode
  pub value_len : ℕ
  pub key_len : ℕ
  pub key : ℕ → ℕ
  pub prp1 : ℕ
  pub prp2 : ℕ
  pub sub_cmd_cnt : ℕ
  pub iter_handle : ℕ
  pub option : ℕ
  pub iter_val : ℕ
  pub iter_bitmask : ℕ

abbrev pub cmd_key_length : KvCommand → ℕ
cmd_key_length cmd = suc cmd.key_len

-- `value_len << 2`
abbrev pub cmd_value_length : KvCommand → ℕ
cmd_value_length cmd = mul32 cmd.value_len 4

abbrev pub is_kv_batch_cmd : Opcode → Bool
is_kv_batch_cmd kv_batch = true
is_kv_batch_cmd _ = false

abbrev pub is_kv_iter_req_cmd : Opcode → Bool
is_kv_iter_req_cmd kv_iter_req = true
is_kv_iter_req_cmd _ = false

abbrev pub is_kv_iter_read_cmd : Opcode → Bool
is_kv_iter_read_cmd kv_iter_read = true
is_kv_iter_read_cmd _ = false

abbrev pub is_kv_iter_cmd : Opcode → Bool
is_kv_iter_cmd op = is_kv_iter_req_cmd op || is_kv_iter_read_cmd op

abbrev pub is_kv_cmd : Opcode → Bool
is_kv_cmd flush = false
is_kv_cmd write = false
is_kv_cmd read = false
is_kv_cmd other = false
is_kv_cmd _ = true

-- the loop of the hash over the first `length` bytes of a key
unfoldable pub hash_bytes : (ℕ → ℕ) → ℕ → ℕ
hash_bytes key zero = 2166136261
hash_bytes key (suc i) = bit_xor (mul32 (hash_bytes key i) 16777619) (key i)

unfoldable pub hash_function : (ℕ → ℕ) → ℕ → ℕ
unfolding hash_bytes
hash_function key length = hash_bytes key length
