-- ===== src/Zns.antt =====
-- zns_ftl.c, zns_ftl.h, zns_mgmt_send.c, zns_mgmt_recv.c, zns_read_write.c, nvme_zns.h: the FTL of
-- zoned namespaces.
pub mod State
pub mod Manage
pub mod Account
pub mod Machine
pub mod Namespace
pub mod Write
pub mod Zrwa
pub mod Read
pub mod Report
pub mod Io
pub mod Init
