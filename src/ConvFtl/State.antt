-- ===== src/ConvFtl/State.antt =====
-- conv_ftl.h: the state of one FTL instance.
-- A `struct line *` is the line's index in `lm.lines`, and a list of lines is the list of these
-- indices. A `uint32_t` or `int` field is a 32-bit word, all else a 64-bit word.
use wild_cat.Common.{ℕ, Bool, List}
use wild_cat.Common.Int.{ℤ}
use wild_cat.Pqueue.{Pqueue}
use wild_cat.Ssd.Nand.{Ppa, Ssd}

pub data GcMode : Type 0 where
  -- any other value of `gc_mode` behaves as `greedy`
  greedy cb cat rl : GcMode

-- USER_IO, GC_IO_HOT, GC_IO_COLD
pub data IoType : Type 0 where
  user_io gc_io_hot gc_io_cold : IoType

-- `struct rl_config`
pub record RlConfig : Type 0 where
  pub q_table : ℕ → ℕ → ℤ
  pub cur_state : ℕ
  pub cur_action : ℕ
  pub alpha_level : ℕ
  pub delta_level : ℕ
  pub epsilon : ℕ
  pub prev_copied_pages : ℕ
  pub prev_erase_max : ℕ
  pub prev_erase_min : ℕ
  pub window_hot : ℕ
  pub window_total : ℕ
  pub prev_hot_pct : ℕ
  pub last_victim_ec : ℕ
  pub total_episodes : ℕ
  pub total_reward : ℤ

-- `struct page_meta`
pub record PageMeta : Type 0 where
  pub update_cnt : ℕ
  pub last_write_time : ℕ

-- `struct convparams`; the two percentages are read at initialisation only
pub record ConvParams : Type 0 where
  pub gc_thres_lines : ℕ
  pub gc_thres_lines_high : ℕ
  pub enable_gc_delay : Bool
  pub pba_pcent : ℕ

-- `struct line`
pub record Line : Type 0 where
  pub id : ℕ
  pub ipc : ℕ
  pub vpc : ℕ
  pub pos : ℕ
  pub last_modified_time : ℕ
  pub erase_cnt : ℕ

-- `struct write_pointer`
pub record WritePointer : Type 0 where
  pub curline : ℕ
  pub ch : ℕ
  pub lun : ℕ
  pub pg : ℕ
  pub blk : ℕ
  pub pl : ℕ

-- `struct line_mgmt`
pub record LineMgmt : Type 0 where
  pub lines : ℕ → Line
  pub free_line_list : List ℕ
  pub victim_line_pq : Pqueue
  pub full_line_list : List ℕ
  pub tt_lines : ℕ
  pub free_line_cnt : ℕ
  pub victim_line_cnt : ℕ
  pub full_line_cnt : ℕ

-- `struct write_flow_control`
pub record WriteFlowControl : Type 0 where
  pub write_credits : ℕ
  pub credits_to_refill : ℕ

-- `struct wear_gap_stats`
pub record WearGapStats : Type 0 where
  pub prev_range : ℕ
  pub accum_diff : ℤ
  pub samples : ℕ
  pub initialized : Bool

-- `struct conv_ftl`
pub record ConvFtl : Type 0 where
  pub ssd : Ssd
  pub cp : ConvParams
  pub maptbl : ℕ → Ppa
  pub rmap : ℕ → ℕ
  pub wp : WritePointer
  pub gc_wp_hot : WritePointer
  pub gc_wp_cold : WritePointer
  pub lm : LineMgmt
  pub wfc : WriteFlowControl
  pub page_meta : ℕ → PageMeta
  pub avg_hot_degree : ℕ
  pub rl : RlConfig
  pub wgs : WearGapStats
  pub gc_count : ℕ
  pub gc_copied_pages : ℕ
  pub host_written_pages : ℕ
