-- ===== src/Kv/Transfer.antt =====
-- kv_ftl.c: the copies between the host, the storage and the buffers. Memory is a map from addresses
-- to bytes; the loops over the pages of a command are those of the report of zones.
pub mod Bytes
use wild_cat.Common.{ℕ, ◌+◌, ◌-◌, ◌&&◌, Option, List, [], ◌∷◌, ltb, leb, if◌then◌else◌}
use wild_cat.Zns.Report.{PrpCopy, prp_transfer_data}
use wild_cat.Kv.Command.{KvCommand}

-- `memcpy(dst + d, src + s, n)`
abbrev pub memcpy : (ℕ → ℕ) → ℕ → (ℕ → ℕ) → ℕ → ℕ → ℕ → ℕ
memcpy dst d src s n x = if leb d x && ltb x (d + n) then src (s + (x - d)) else dst x

-- The copies of `length` bytes of a command; `entries` is what the host wrote to the page of
-- addresses that the second address names.
unfoldable pub value_copies : (ℕ → ℕ) → KvCommand → ℕ → Option (List PrpCopy)
unfolding prp_transfer_data
value_copies entries cmd length = prp_transfer_data entries cmd.prp1 cmd.prp2 length

-- from the host to the memory `dst` at `base`
unfoldable pub take_in : List PrpCopy → (ℕ → ℕ) → (ℕ → ℕ) → ℕ → ℕ → ℕ
take_in [] host dst base = dst
take_in (c ∷ cs) host dst base =
    take_in cs host (memcpy dst (base + c.offset) host c.paddr c.size) base

-- to the host from the memory `src` at `base`
unfoldable pub give_out : List PrpCopy → (ℕ → ℕ) → (ℕ → ℕ) → ℕ → ℕ → ℕ
give_out [] host src base = host
give_out (c ∷ cs) host src base =
    give_out cs (memcpy host c.paddr src (base + c.offset) c.size) src base
