-- ===== src/Admin/State.antt =====
-- nvmev.h, pci.h: the controller as the admin commands and the registers see it. Memory of the host
-- is read and written by page addresses: the entries of a queue by the address of its pages and their
-- indices, and the answers to identify commands as whole structures.
use wild_cat.Common.{ℕ, Bool, Option, List}
use wild_cat.WorkQueue.Service.{CqEntry, CompletionQueue, SqStat}
use wild_cat.Zns.State.{ZnsParams}

-- The admin commands by their opcodes, with the fields that are read.
pub data AdminRequest : Type 0 where
  delete_sq delete_cq : (qid : ℕ) → AdminRequest
  create_sq : (sqid cqid sq_flags qsize prp1 : ℕ) → AdminRequest
  create_cq : (cqid cq_flags irq_vector qsize prp1 : ℕ) → AdminRequest
  get_log_page : (lid numdl numdu prp1 : ℕ) → AdminRequest
  identify : (cns nsid prp1 : ℕ) → AdminRequest
  set_features : (fid dword11 : ℕ) → AdminRequest
  get_features : (fid : ℕ) → AdminRequest
  abort_cmd async_event : AdminRequest
  other_opcode : AdminRequest

pub record AdminCommand : Type 0 where
  pub command_id : ℕ
  pub request : AdminRequest

-- the pages of a queue are named by their address, where it has them
pub record AdminQueue : Type 0 where
  pub phase : Bool
  pub sq_depth : ℕ
  pub cq_depth : ℕ
  pub cq_head : ℕ
  pub nvme_sq : Option ℕ
  pub nvme_cq : Option ℕ

pub record SubmissionQueue : Type 0 where
  pub qid : ℕ
  pub cqid : ℕ
  pub priority : ℕ
  pub phys_contig : Bool
  pub queue_size : ℕ
  pub stat : SqStat
  pub sq : ℕ

-- a `struct nvmev_completion_queue`, of which `queue` has the fields that the workers use
pub record CreatedQueue : Type 0 where
  pub qid : ℕ
  pub irq_vector : ℕ
  pub irq_enabled : Bool
  pub phys_contig : Bool
  pub queue : CompletionQueue

pub record LbaFormat : Type 0 where
  pub ms : ℕ
  pub ds : ℕ
  pub rp : ℕ

-- the fields of a `struct nvme_id_ns`, a `struct nvme_id_zns_ns` and a `struct nvme_id_ctrl` that are
-- written, other than the texts
pub record IdNs : Type 0 where
  pub nsze : ℕ
  pub ncap : ℕ
  pub nuse : ℕ
  pub nlbaf : ℕ
  pub flbas : ℕ
  pub dps : ℕ
  pub lbaf : ℕ → LbaFormat

pub record IdZnsNs : Type 0 where
  pub zoc : ℕ
  pub ozcs : ℕ
  pub mar : ℕ
  pub mor : ℕ
  pub numzrwa : ℕ
  pub zrwafg : ℕ
  pub zrwasz : ℕ
  pub zrwacap : ℕ
  pub zsze : ℕ
  pub zdes : ℕ

pub record IdCtrl : Type 0 where
  pub nn : ℕ
  pub oncs : ℕ
  pub acl : ℕ
  pub vwc : ℕ
  pub mdts : ℕ
  pub sqes : ℕ
  pub cqes : ℕ

-- what a command writes to the memory of the host
pub data HostPage : Type 0 where
  id_ns : IdNs → HostPage
  id_ctrl : IdCtrl → HostPage
  id_ns_list : (ids : ℕ → ℕ) → HostPage
  id_ns_desc : (nidt nidl nid : ℕ) → HostPage
  id_zns_ns : IdZnsNs → HostPage
  id_zns_ctrl : (zasl : ℕ) → HostPage
  smart_log : (spare_thresh len : ℕ) → HostPage
  effects_log : (acs : ℕ → ℕ) → (len : ℕ) → HostPage
  zeroes : (len : ℕ) → HostPage

-- the fields of a namespace that are read, with the parameters of a zoned one
pub record NvmevNs : Type 0 where
  pub size : ℕ
  pub csi : ℕ
  pub ssd_type : ℕ
  pub zp : ZnsParams

-- the registers `aqa`, `asq`, `acq`, `cc`, and the fields `rdy` and `shst` of `csts`
pub record Bar : Type 0 where
  pub aqa : ℕ
  pub asq : ℕ
  pub acq : ℕ
  pub cc : ℕ
  pub rdy : ℕ
  pub shst : ℕ

-- the registers that were seen last
pub record OldBar : Type 0 where
  pub aqa : ℕ
  pub asq : ℕ
  pub acq : ℕ
  pub cc : ℕ

-- `struct nvmev_dev`, and the memory of the host; `signals` are the interrupts, the latest first
pub record Controller : Type 0 where
  pub bar : Bar
  pub old_bar : OldBar
  pub dbs : ℕ → ℕ
  pub old_dbs : ℕ → ℕ
  pub admin_q : Option AdminQueue
  pub sqes : ℕ → Option SubmissionQueue
  pub cqes : ℕ → Option CreatedQueue
  pub nr_sq : ℕ
  pub nr_cq : ℕ
  pub mdts : ℕ
  pub nr_ns : ℕ
  pub ns : ℕ → NvmevNs
  pub submitted : ℕ → ℕ → AdminCommand
  pub completions : ℕ → ℕ → CqEntry
  pub pages : ℕ → HostPage
  pub signals : List ℕ
