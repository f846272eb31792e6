-- ===== src/Admin/Identify.antt =====
-- admin.c: the log pages and the answers to identify commands, for blocks of 512 bytes.
use wild_cat.Common.{
  ℕ, zero, suc, ◌+◌, ◌*◌, ◌/◌, ◌%◌, ◌^◌, ◌||◌, ◌&&◌, Bool, true, leb, Option, ◌==◌, ltb,
  if◌then◌else◌, check, update, add32, sub32, mul32,
}
use wild_cat.Admin.State.{
  LbaFormat, IdNs, IdZnsNs, IdCtrl, HostPage, id_ns, id_ctrl, id_ns_list, id_ns_desc, id_zns_ns,
  id_zns_ctrl, smart_log, effects_log, zeroes, NvmevNs, Controller,
}
use wild_cat.Admin.Queues.{sc_success, invalid_opcode, make_cq_entry}

abbrev pub put_page : Controller → ℕ → HostPage → Controller
put_page c prp1 p = record c { pages = update c.pages prp1 p }

-- the commands that the log says are supported
abbrev pub effects_acs : ℕ → ℕ
effects_acs op = if op == 2 || op == 6 || op == 9 || op == 10 || op == 12 then 1 else 0

abbrev pub log_length : ℕ → ℕ → ℕ
log_length numdl numdu = mul32 (add32 (numdu * 2 ^ 16 + numdl) 1) 4

-- the page of a log, for a target without zones, whose log of I/O commands is empty
abbrev pub log_page : ℕ → ℕ → HostPage
log_page lid len =
    if lid == 2
    then smart_log 20 len
    else if lid == 5
    then effects_log effects_acs len
    else zeroes len

-- The bytes of a log are read within it and written within the page of the host: the health log has
-- 512 bytes, and that of the effects is a page. The code does not test the length, and another one has
-- no result here.
abbrev pub log_fits : ℕ → ℕ → ℕ → Bool
log_fits lid len prp1 = (if lid == 2 then leb len 512 else true) && leb (prp1 % 4096 + len) 4096

unfoldable pub admin_get_log_page : Controller → ℕ → ℕ → ℕ → ℕ → ℕ → Option Controller
unfolding make_cq_entry
admin_get_log_page c eid lid numdl numdu prp1 =
    check (log_fits lid (log_length numdl numdu) prp1)
      (make_cq_entry (put_page c prp1 (log_page lid (log_length numdl numdu))) eid sc_success)

-- the seven formats of blocks
abbrev pub lba_format : ℕ → LbaFormat
lba_format i =
    let small = ltb i 3 in
    if ltb i 7
    then record {
      ms =
          if i == 1 || i == 4
          then 8
          else if i == 2
          then 16
          else if i == 5
          then 64
          else if i == 6
          then 128
          else 0;
      ds = if small then 9 else 12;
      rp = if small then 2 else 0;
    }
    else record { ms = 0; ds = 0; rp = 0 }

abbrev pub id_of_namespace : NvmevNs → IdNs
id_of_namespace n = record {
  nsze = n.size / 2 ^ 9;
  ncap = n.size / 2 ^ 9;
  nuse = n.size / 2 ^ 9;
  nlbaf = 6;
  flbas = 0;
  dps = 0;
  lbaf = lba_format;
}

-- The namespace of an identifier is read from the array of namespaces. The code does not test it: for
-- 0, or for one past the last namespace, it reads past the array, so here it has no result.
abbrev pub has_namespace : Controller → ℕ → Bool
has_namespace c nsid = ltb (sub32 nsid 1) c.nr_ns

unfoldable pub admin_identify_namespace : Controller → ℕ → ℕ → ℕ → Option Controller
unfolding make_cq_entry
admin_identify_namespace c eid nsid prp1 =
    check (has_namespace c nsid) (
      make_cq_entry (put_page c prp1 (id_ns (id_of_namespace (c.ns (sub32 nsid 1))))) eid
        sc_success)

-- The loop over the namespaces from `i` on, of which `n` are left; `at` is the next place.
unfoldable pub list_namespaces : ℕ → ℕ → ℕ → ℕ → (ℕ → ℕ) → ℕ → ℕ
list_namespaces zero nsid i at ids = ids
list_namespaces (suc n) nsid i at ids =
    let listed = ltb nsid i in
    list_namespaces n nsid (suc i) (if listed then suc at else at)
      (if listed then update ids at i else ids)

unfoldable pub namespace_list : Controller → ℕ → HostPage
unfolding list_namespaces
namespace_list c nsid = id_ns_list (list_namespaces c.nr_ns nsid 1 0 (λ i. 0))

unfoldable pub admin_identify_namespaces : Controller → ℕ → ℕ → ℕ → Option Controller
unfolding make_cq_entry namespace_list
admin_identify_namespaces c eid nsid prp1 =
    make_cq_entry (put_page c prp1 (namespace_list c nsid)) eid sc_success

-- `NVME_NIDT_CSI`
unfoldable pub admin_identify_namespace_desc : Controller → ℕ → ℕ → ℕ → Option Controller
unfolding make_cq_entry
admin_identify_namespace_desc c eid nsid prp1 =
    check (has_namespace c nsid)
      (make_cq_entry (put_page c prp1 (id_ns_desc 4 1 (c.ns (sub32 nsid 1)).csi)) eid sc_success)

-- `SSD_TYPE_ZNS` and `NVME_CSI_ZNS`
abbrev pub ssd_type_zns : ℕ
ssd_type_zns = 2

abbrev pub csi_zns : ℕ
csi_zns = 2

abbrev pub id_of_zones : NvmevNs → IdZnsNs
id_of_zones n =
    let has_zrwa = ltb 0 n.zp.nr_zrwa_zones in
    record {
      zoc = 0;
      ozcs = if has_zrwa then 2 else 0;
      mar = sub32 n.zp.nr_active_zones 1;
      mor = sub32 n.zp.nr_open_zones 1;
      numzrwa = if has_zrwa then sub32 n.zp.nr_zrwa_zones 1 else 0;
      zrwafg = if has_zrwa then n.zp.zrwafg_size % 2 ^ 16 else 0;
      zrwasz = if has_zrwa then n.zp.zrwa_size % 2 ^ 16 else 0;
      zrwacap = if has_zrwa then 1 else 0;
      zsze = n.zp.zone_size / 2 ^ 9;
      zdes = 0;
    }

unfoldable pub admin_identify_zns_namespace : Controller → ℕ → ℕ → ℕ → Option Controller
unfolding make_cq_entry
admin_identify_zns_namespace c eid nsid prp1 =
    let n = c.ns (sub32 nsid 1) in
    check (has_namespace c nsid) (
      if n.ssd_type == ssd_type_zns
      then check (n.csi == csi_zns)
          (make_cq_entry (put_page c prp1 (id_zns_ns (id_of_zones n))) eid sc_success)
      else make_cq_entry c eid sc_success)

unfoldable pub admin_identify_zns_ctrl : Controller → ℕ → ℕ → Option Controller
unfolding make_cq_entry
admin_identify_zns_ctrl c eid prp1 = make_cq_entry (put_page c prp1 (id_zns_ctrl 0)) eid sc_success

abbrev pub id_of_ctrl : Controller → IdCtrl
id_of_ctrl c = record {
  nn = c.nr_ns;
  oncs = 0;
  acl = 3;
  vwc = 0;
  mdts = c.mdts % 2 ^ 8;
  sqes = 102;
  cqes = 68;
}

unfoldable pub admin_identify_ctrl : Controller → ℕ → ℕ → Option Controller
unfolding make_cq_entry
admin_identify_ctrl c eid prp1 =
    make_cq_entry (put_page c prp1 (id_ctrl (id_of_ctrl c))) eid sc_success

unfoldable pub admin_identify : Controller → ℕ → ℕ → ℕ → ℕ → Option Controller
unfolding admin_identify_namespace admin_identify_ctrl admin_identify_namespaces
    admin_identify_namespace_desc admin_identify_zns_namespace admin_identify_zns_ctrl make_cq_entry
admin_identify c eid cns nsid prp1 =
    if cns == 0
    then admin_identify_namespace c eid nsid prp1
    else if cns == 1
    then admin_identify_ctrl c eid prp1
    else if cns == 2
    then admin_identify_namespaces c eid nsid prp1
    else if cns == 3
    then admin_identify_namespace_desc c eid nsid prp1
    else if cns == 5
    then admin_identify_zns_namespace c eid nsid prp1
    else if cns == 6
    then admin_identify_zns_ctrl c eid prp1
    else make_cq_entry c eid invalid_opcode
