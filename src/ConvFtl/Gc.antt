-- ===== src/ConvFtl/Gc.antt =====
-- conv_ftl.c: garbage collection. A victim's valid pages are copied to the open lines for hot and
-- for cold pages, its blocks are erased, and it goes back to the free list.
use wild_cat.Common.{
  ℕ, zero, suc, ◌+◌, ◌-◌, ◌%◌, ◌^◌, Bool, true, false, Option, none, some, leb, ltb, ◌==◌,
  if◌then◌else◌, ◌>>=◌, add32, add64, mul32, sub32,
}
use wild_cat.World.{now, tick}
use wild_cat.Ssd.Nand.{Ppa, get_lun, set_lun}
use wild_cat.Ssd.Timing.{nand_erase}
use wild_cat.ConvFtl.State.{GcMode, greedy, cb, cat, rl, Line, ConvFtl}
use wild_cat.ConvFtl.Pages.{mark_block_free, mark_line_free}
use wild_cat.ConvFtl.Victim.{
  select_victim_greedy, select_victim_scored, select_victim_cb, select_victim_cat,
}
use wild_cat.ConvFtl.Wear.{update_wear_gap}
use wild_cat.ConvFtl.Observe.{rl_get_state}
use wild_cat.ConvFtl.Rl.{rl_decode_action, rl_select_action, rl_update}
use wild_cat.ConvFtl.Copy.{Dev, with_ftl, ticked, gc_delay, clean_one_flashpg}

-- `lunp->gc_endtime = lunp->next_lun_avail_time`
abbrev pub end_gc_on_lun : Dev → Ppa → Dev
end_gc_on_lun v p =
    let lun = get_lun v.ftl.ssd p in
    with_ftl v (record (v.ftl) {
      ssd = set_lun v.ftl.ssd p (record lun { gc_endtime = lun.next_lun_avail_time });
    })

-- the innermost body of the loops of `do_gc`
collect_flashpg : Dev → ℕ → Ppa → Option Dev
unfolding clean_one_flashpg gc_delay
collect_flashpg v flashpg p = clean_one_flashpg v p >>= λ v₁.
    if flashpg == v.ftl.ssd.sp.flashpgs_per_blk - 1
    then (gc_delay (with_ftl v₁ (mark_block_free v₁.ftl p)) nand_erase 0 p >>= λ v₂.
        some (end_gc_on_lun v₂ p))
    else some v₁

-- The three loops of `do_gc`, over flash pages, channels and LUNs; the reserved bits of the address,
-- which C leaves unset, are zero.
collect_luns : ℕ → ℕ → Dev → ℕ → ℕ → ℕ → ℕ → Option Dev
unfolding collect_flashpg
collect_luns zero lun v flashpg pg blk ch = some v
collect_luns (suc n) lun v flashpg pg blk ch =
    collect_flashpg v flashpg
      (record { pg = pg; blk = blk; pl = 0; lun = lun % 2 ^ 8; ch = ch % 2 ^ 8; rsv = 0 })
    >>= λ v'. collect_luns n (lun + 1) v' flashpg pg blk ch

collect_channels : ℕ → ℕ → Dev → ℕ → ℕ → ℕ → Option Dev
unfolding collect_luns
collect_channels zero ch v flashpg pg blk = some v
collect_channels (suc n) ch v flashpg pg blk =
    collect_luns v.ftl.ssd.sp.luns_per_ch 0 v flashpg pg blk ch >>= λ v'.
    collect_channels n (ch + 1) v' flashpg pg blk

collect_flashpgs : ℕ → ℕ → Dev → ℕ → Option Dev
unfolding collect_channels
collect_flashpgs zero flashpg v blk = some v
collect_flashpgs (suc n) flashpg v blk =
    let spp = v.ftl.ssd.sp in
    collect_channels spp.nchs 0 v flashpg (mul32 flashpg spp.pgs_per_flashpg % 2 ^ 16) blk >>= λ v'.
    collect_flashpgs n (flashpg + 1) v' blk

-- The victim, by the policy. `force` is true in every call.
select_victim : GcMode → Dev → Option ℕ × Dev
select_victim greedy v =
    let (x, lm) = select_victim_greedy v.ftl.ssd.sp v.ftl.lm true in
    (x, with_ftl v (record (v.ftl) { lm = lm }))
select_victim cb v =
    let (x, lm) = select_victim_cb v.ftl.lm (now v.world) in
    (x, with_ftl (ticked v) (record (v.ftl) { lm = lm }))
select_victim cat v =
    let (x, lm) = select_victim_cat v.ftl.lm (now v.world) in
    (x, with_ftl (ticked v) (record (v.ftl) { lm = lm }))
select_victim rl v =
    let state = rl_get_state v.ftl.ssd.sp v.ftl.lm v.ftl.rl (now v.world) in
    let (action, w) = rl_select_action v.ftl.rl state (tick v.world) in
    let agent = rl_decode_action (record (v.ftl.rl) { cur_state = state }) action in
    let (x, lm) = select_victim_scored v.ftl.lm (now w) agent.alpha_level agent.delta_level in
    (x, record v { ftl = record (v.ftl) { lm = lm; rl = agent }; world = tick w })

-- what only the agent does after a collection
learn : GcMode → Dev → Dev
learn rl v =
    let state = rl_get_state v.ftl.ssd.sp v.ftl.lm v.ftl.rl (now v.world) in
    with_ftl (ticked v) (record (v.ftl) { rl = rl_update v.ftl state })
learn greedy v = v
learn cb v = v
learn cat v = v

-- `rl.last_victim_ec`, which only the agent sets
abbrev pub note_victim : GcMode → ConvFtl → Line → ConvFtl
note_victim rl ftl line = record ftl { rl = record (ftl.rl) { last_victim_ec = line.erase_cnt } }
note_victim greedy ftl line = ftl
note_victim cb ftl line = ftl
note_victim cat ftl line = ftl

-- the part of `do_gc` from the choice of a victim on
pub collect : GcMode → Dev → ℕ → Option Dev
unfolding collect_flashpgs learn
collect mode v x =
    let line = v.ftl.lm.lines x in
    let counted = record (v.ftl) { gc_count = add64 v.ftl.gc_count 1 } in
    let noted = note_victim mode counted line in
    let ftl = record noted { wfc = record (noted.wfc) { credits_to_refill = line.ipc } } in
    let blk = line.id % 2 ^ 16 in
    let spp = ftl.ssd.sp in
    collect_flashpgs spp.flashpgs_per_blk 0 (with_ftl v ftl) blk >>= λ v₁.
    let freed =
      mark_line_free v₁.ftl (record { pg = 0; blk = blk; pl = 0; lun = 0; ch = 0; rsv = 0 }) in
    some (learn mode (with_ftl v₁ (record freed { wgs = update_wear_gap freed.wgs freed.lm })))

-- `do_gc`; the flag is false where it returns -1
do_gc : GcMode → Dev → Option (Bool × Dev)
unfolding select_victim collect
do_gc mode v =
    let (victim, v₁) = select_victim mode v in
    elim victim [
      | none ↦ some (
        false,
        with_ftl v₁ (record (v₁.ftl) { wfc = record (v₁.ftl.wfc) { credits_to_refill = 0 } }),
      )
      | some x ↦ collect mode v₁ x >>= λ v₂. some (true, v₂)
    ]

should_gc_high : ConvFtl → Bool
should_gc_high ftl = leb ftl.lm.free_line_cnt ftl.cp.gc_thres_lines_high

foreground_gc : GcMode → Dev → Option Dev
unfolding do_gc should_gc_high
foreground_gc mode v =
    if should_gc_high v.ftl then (do_gc mode v >>= λ (_, v'). some v') else some v

unfoldable pub consume_write_credit : ConvFtl → ConvFtl
consume_write_credit ftl = record ftl {
  wfc = record (ftl.wfc) { write_credits = sub32 ftl.wfc.write_credits 1 };
}

-- The credits are unsigned, so the test is one for zero.
unfoldable pub check_and_refill_write_credit : GcMode → Dev → Option Dev
unfolding foreground_gc
check_and_refill_write_credit mode v =
    if v.ftl.wfc.write_credits == 0
    then (foreground_gc mode v >>= λ v'.
        let wfc = v'.ftl.wfc in
        let credits =
          if ltb 0 wfc.credits_to_refill
          then add32 wfc.write_credits wfc.credits_to_refill
          else 1 in
        some (with_ftl v' (record (v'.ftl) { wfc = record wfc { write_credits = credits } })))
    else some v
