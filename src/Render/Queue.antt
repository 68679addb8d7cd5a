-- ===== src/Render/Queue.antt =====
-- The ring buffer of block reports between the procedure's thread and the render thread, in
-- cui/sliding_window_renderer.c. The array is a function of the index.
pub mod Fifo
mod Tests
use whdd_modify.Prelude.{ℕ, ◌*◌, ◌%◌, ◌<◌, List, [], ◌∷◌, ◌==◌, if◌then◌else◌, ◌^◌}
use whdd_modify.Prelude.Words.{add64, sub64}
use whdd_modify.Procedure.{BlockReport}

-- The number of elements of `reports`
abbrev pub capacity : ℕ
capacity = 100 * 1000

-- `blk_report_t`
pub record BlkReport : Type 0 where
  pub seqno : ℕ
  pub report : BlockReport

pub record Queue : Type 0 where
  pub reports : ℕ → BlkReport
  pub next_report_seqno_write : ℕ
  pub next_report_seqno_read : ℕ

abbrev pub slot : ℕ → ℕ
slot seqno = seqno % capacity

-- The end of `HandleReport`: `blk_rep_get_next_for_write`, the assignment and
-- `blk_rep_write_finalize`.
unfoldable pub enqueue : Queue → BlockReport → Queue
enqueue q r = record q {
  reports = λ i.
      if i == slot q.next_report_seqno_write
      then record { seqno = q.next_report_seqno_write; report = r }
      else q.reports i;
  next_report_seqno_write = add64 q.next_report_seqno_write 1;
}

unfoldable pub blk_rep_read : Queue → BlkReport × Queue
blk_rep_read q = (
  q.reports (slot q.next_report_seqno_read),
  record q { next_report_seqno_read = add64 q.next_report_seqno_read 1 },
)

unfoldable pub get_queue_length : Queue → ℕ
get_queue_length q = sub64 q.next_report_seqno_write q.next_report_seqno_read % 2 ^ 32

-- What the two threads do to the queue, one access after the other: the reports that are put in, and
-- those that are taken out. A report is put where there is room and taken where there is one.
pub data Trace : Queue → List BlockReport → List BlockReport → Queue → Type 0 where
  done : {q : Queue} → Trace q [] [] q
  put :
      {q q' : Queue} {ins outs : List BlockReport}
      → (r : BlockReport) → get_queue_length q < capacity
      → Trace (enqueue q r) ins outs q'
      → Trace q (r ∷ ins) outs q'
  take :
      {q q' : Queue} {ins outs : List BlockReport}
      → 0 < get_queue_length q
      → Trace (blk_rep_read q).1 ins outs q'
      → Trace q ins ((blk_rep_read q).0.report ∷ outs) q'
