-- ===== src/ConvFtl.antt =====
-- conv_ftl.c and conv_ftl.h: the conventional FTL, with its four policies of garbage collection.
pub mod State
pub mod Numeric
pub mod Score
pub mod Lines
pub mod WritePointer
pub mod Mapping
pub mod Pages
pub mod Remap
pub mod Victim
pub mod Wear
pub mod Observe
pub mod Rl
pub mod Copy
pub mod Gc
pub mod Namespace
pub mod Read
pub mod Write
pub mod Io
pub mod Init
