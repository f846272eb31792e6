-- ===== src/ConvFtl/Lines/Queue.antt =====
-- The victim queue orders lines by their valid pages: the callbacks `victim_line_*` satisfy what
-- the queue relies on.
use wild_cat.Common.{ℕ, ◌^◌, ◌<◌, ◌≡◌, refl, arith}
use wild_cat.Pqueue.Order.{NodeLaws}
use wild_cat.ConvFtl.State.{Line}
use wild_cat.ConvFtl.Lines.{line_ops}

pub line_laws : NodeLaws line_ops
line_laws = record {
  cmp = λ a b. refl;
  getpri-setpos = λ s x v y. ground arith;
  getpos-setpos = λ s x v y. ground arith;
  getpos-setpri = λ s x v y. ground arith;
  getpri-setpri = λ s x v y ne. ground arith;
}

-- A count that fits an `int` survives its way through the priority of 64 bits.
pub stored_pri :
    (lines : ℕ → Line) (x p : ℕ) → p < 2 ^ 31 → line_ops.getpri (line_ops.setpri lines x p) x ≡ p
stored_pri lines x p small = ground arith
