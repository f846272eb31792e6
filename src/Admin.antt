-- ===== src/Admin.antt =====
-- admin.c, and nvmev_proc_bars of pci.c: the registers of the controller and its admin queue.
pub mod State
pub mod Queues
pub mod Identify
pub mod Features
pub mod Requests
pub mod Bars
pub mod Doorbells
