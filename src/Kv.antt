-- ===== src/Kv.antt =====
-- kv_ftl.c: the key-value FTL.
pub mod Command
pub mod Table
pub mod Allocator
pub mod Transfer
pub mod State
pub mod Io
pub mod Batch
pub mod Iterate
pub mod Namespace
