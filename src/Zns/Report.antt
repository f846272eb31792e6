-- ===== src/Zns/Report.antt =====
-- zns_mgmt_recv.c: the report of zones, and its copy to the pages of the host.
pub mod Copies
use wild_cat.Common.{
  ℕ, zero, suc, ◌+◌, ◌-◌, ◌*◌, ◌/◌, ◌%◌, min, Bool, true, false, not, ◌||◌, List, [], ◌∷◌, Option,
  none, some, ◌==◌, ltb, leb, if◌then◌else◌, ◌>>=◌, check, add32, sub64, mul64,
}
use wild_cat.Zns.State.{ZnsStatus, success, invalid_field, ZoneDescriptor, ZnsFtl, lba_to_zone}

-- `struct zone_report`
pub record ZoneReport : Type 0 where
  pub nr_zones : ℕ
  pub zd : ℕ → ZoneDescriptor

-- the fields of `nvme_zone_mgmt_recv` that are used, and the start time of the request
pub record RecvRequest : Type 0 where
  pub slba : ℕ
  pub nr_dw : ℕ
  pub zra : ℕ
  pub zra_specific_field : ℕ
  pub partial : Bool
  pub prp1 : ℕ
  pub prp2 : ℕ
  pub nsecs_start : ℕ

abbrev pub descriptor_size : ℕ
descriptor_size = 64

abbrev pub page_size : ℕ
page_size = 4096

-- the bytes that the host asks for
abbrev pub recv_length : RecvRequest → ℕ
recv_length cmd = mul64 (add32 cmd.nr_dw 1) 4

-- how many zones follow the first one, with it
abbrev pub zones_left : ZnsFtl → RecvRequest → ℕ
zones_left f cmd = sub64 f.zp.nr_zones (lba_to_zone f cmd.slba)

unfoldable pub nr_zone_to_report : ZnsFtl → RecvRequest → ℕ
nr_zone_to_report f cmd =
    let asked =
      if cmd.partial then sub64 (recv_length cmd / descriptor_size) 1 else zones_left f cmd in
    if ltb (zones_left f cmd) asked then zones_left f cmd else asked

unfoldable pub fill_zone_report : ZnsFtl → RecvRequest → ZoneReport → ZoneReport
unfolding nr_zone_to_report
fill_zone_report f cmd report =
    let n = nr_zone_to_report f cmd in
    record {
      nr_zones = n;
      zd = λ i. if ltb i n then f.zone_descs (lba_to_zone f cmd.slba + i) else report.zd i;
    }

unfoldable pub check_option : ZnsFtl → RecvRequest → Bool
check_option f cmd =
    if leb f.zp.nr_zones (lba_to_zone f cmd.slba)
    then false
    else if not (cmd.zra == 0)
    then false
    else cmd.zra_specific_field == 0

-- One `memcpy`: `size` bytes of the buffer from `offset` on, to the address `paddr`.
pub record PrpCopy : Type 0 where
  pub paddr : ℕ
  pub offset : ℕ
  pub size : ℕ

-- how much fits into the page of an address
unfoldable pub io_size_at : ℕ → ℕ → ℕ
io_size_at paddr remaining =
    let mem_offs = paddr % page_size in
    let io_size = min remaining page_size in
    if ltb page_size (io_size + mem_offs) then page_size - mem_offs else io_size

-- The entry `k` of the page of addresses, of which the list begins at the byte `start`. An entry
-- behind the end of the page is read out of bounds.
abbrev pub list_entry : ℕ → (ℕ → ℕ) → ℕ → Option ℕ
list_entry start entries k = check (leb (start + 8 * suc k) page_size) (some (entries k))

-- The rounds from the third on: `list` is the list of addresses, if `prp2` names one, and `k` the
-- index of the next. Without a list, the code follows a null pointer.
list_copies : ℕ → Option (ℕ → ℕ) → ℕ → ℕ → ℕ → ℕ → Option (List PrpCopy)
list_copies zero list start k offset remaining = if remaining == 0 then some [] else none
list_copies (suc fuel) list start k offset remaining = elim (remaining == 0) [
  | true ↦ some []
  | false ↦ list >>= λ entries. list_entry start entries k >>= λ paddr.
      let size = io_size_at paddr remaining in
      list_copies fuel list start (suc k) (offset + size) (remaining - size) >>= λ rest.
      some (record { paddr = paddr; offset = offset; size = size } ∷ rest)
]

-- The second round; `entries` is what the host wrote from the address `prp2` on.
second_copies : (ℕ → ℕ) → ℕ → ℕ → ℕ → Option (List PrpCopy)
unfolding list_copies
second_copies entries prp2 offset remaining =
    let start = prp2 % page_size in
    if remaining == 0
    then some []
    else (let listed = ltb page_size remaining in
        (if listed then list_entry start entries 0 else some prp2) >>= λ paddr.
        let size = io_size_at paddr remaining in
        list_copies (remaining - size) (if listed then some entries else none) start 1
          (offset + size) (remaining - size)
        >>= λ rest. some (record { paddr = paddr; offset = offset; size = size } ∷ rest))

-- `__prp_transfer_data` of `length` bytes, as the copies that it makes
unfoldable pub prp_transfer_data : (ℕ → ℕ) → ℕ → ℕ → ℕ → Option (List PrpCopy)
unfolding second_copies
prp_transfer_data entries prp1 prp2 length =
    if length == 0
    then some []
    else (let size = io_size_at prp1 length in
        second_copies entries prp2 size (length - size) >>= λ rest.
        some (record { paddr = prp1; offset = 0; size = size } ∷ rest))

pub record RecvReply : Type 0 where
  pub status : ZnsStatus
  pub nsecs_target : ℕ
  pub copies : List PrpCopy

unfoldable pub zns_zmgmt_recv :
    ZnsFtl → ZoneReport → (ℕ → ℕ) → RecvRequest → Option (RecvReply × ZoneReport)
unfolding check_option fill_zone_report prp_transfer_data
zns_zmgmt_recv f buffer entries cmd =
    if check_option f cmd
    then (prp_transfer_data entries cmd.prp1 cmd.prp2 (recv_length cmd) >>= λ copies. some (
      record { status = success; nsecs_target = cmd.nsecs_start; copies = copies },
      fill_zone_report f cmd buffer,
    ))
    else some
        (record { status = invalid_field; nsecs_target = cmd.nsecs_start; copies = [] }, buffer)
