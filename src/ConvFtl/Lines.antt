-- ===== src/ConvFtl/Lines.antt =====
-- conv_ftl.c: lines (superblocks), their lists and the victim queue.
pub mod Queue
use wild_cat.Common.{
  ℕ, zero, suc, ◌+◌, ◌^◌, Option, none, some, List, [], ◌∷◌, ◌++◌, ltb, ◌==◌, if◌then◌else◌, check,
  update, w32, add32, sub32, sext, ◌&&◌,
}
use wild_cat.Pqueue.{NodeOps, Heap, pqueue_init, pqueue_insert}
use wild_cat.Ssd.Params.{SsdParams}
use wild_cat.ConvFtl.State.{Line, LineMgmt}

-- the callbacks `victim_line_*`; a priority is 64 bits wide, `vpc` an `int`
abbrev pub line_ops : NodeOps (ℕ → Line)
line_ops = record {
  cmppri = λ next curr. ltb curr next;
  getpri = λ lines x. sext (lines x).vpc;
  setpri = λ lines x pri. update lines x (record (lines x) { vpc = w32 pri });
  getpos = λ lines x. (lines x).pos;
  setpos = λ lines x pos. update lines x (record (lines x) { pos = pos });
}

-- the victim queue with the lines that it orders
abbrev pub victim_heap : LineMgmt → Heap (ℕ → Line)
victim_heap lm = record { q = lm.victim_line_pq; nodes = lm.lines }

abbrev pub with_heap : LineMgmt → Heap (ℕ → Line) → LineMgmt
with_heap lm h = record lm { victim_line_pq = h.q; lines = h.nodes }

-- the numbers `i .. i + n - 1`
unfoldable pub indices : ℕ → ℕ → List ℕ
indices zero i = []
indices (suc n) i = i ∷ indices n (i + 1)

abbrev pub fresh_line : ℕ → Line
fresh_line i = record { id = i; ipc = 0; vpc = 0; pos = 0; last_modified_time = 0; erase_cnt = 0 }

unfoldable pub init_lines : SsdParams → LineMgmt
unfolding indices
init_lines spp =
    let tt_lines = w32 spp.tt_lines in
    record {
      lines = fresh_line;
      free_line_list = indices tt_lines 0;
      victim_line_pq = pqueue_init tt_lines;
      full_line_list = [];
      tt_lines = tt_lines;
      free_line_cnt = tt_lines;
      victim_line_cnt = 0;
      full_line_cnt = 0;
    }

-- The line that is taken from the free list; `none` is NULL, and then nothing changes.
unfoldable pub get_next_free_line : LineMgmt → Option (ℕ × LineMgmt)
get_next_free_line lm = elim lm.free_line_list [
  | [] ↦ none
  | cur ∷ rest ↦
      some (cur, record lm { free_line_list = rest; free_line_cnt = sub32 lm.free_line_cnt 1 })
]

-- `pqueue_insert(lm->victim_line_pq, line); lm->victim_line_cnt++;`
pub add_victim : LineMgmt → ℕ → LineMgmt
add_victim lm x = record (with_heap lm (pqueue_insert line_ops (victim_heap lm) x)) {
  victim_line_cnt = add32 lm.victim_line_cnt 1;
}

-- The part of `advance_write_pointer` in which a line that is written to its end moves to the full
-- list, or to the victim queue if some of its pages are invalid already.
unfoldable pub close_line : SsdParams → LineMgmt → ℕ → Option LineMgmt
unfolding add_victim
close_line spp lm x =
    let line = lm.lines x in
    if sext line.vpc == spp.pgs_per_line
    then check (line.ipc == 0) (
        some (record lm {
          full_line_list = lm.full_line_list ++ x ∷ [];
          full_line_cnt = add32 lm.full_line_cnt 1;
        }))
    else check (ltb 0 line.ipc && ltb line.ipc (2 ^ 31)) (some (add_victim lm x))
