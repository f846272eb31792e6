-- ===== src/Ssd.antt =====
-- ssd.c, ssd.h and channel_model.c: the NAND and its timing, below every FTL.
pub mod Params
pub mod Channel
pub mod Buffer
pub mod Nand
pub mod Timing
