-- ===== src/Render/Queue/Tests.antt =====
-- The queue of reports with concrete reports.
use whdd_modify.Prelude.{ℕ, refl, [], ◌∷◌, arith}
use whdd_modify.Procedure.{BlockStatus, BlockReport}
use whdd_modify.Render.Queue.{
  Queue, enqueue, blk_rep_read, get_queue_length, Trace, done, put, take,
}
use whdd_modify.Render.Queue.Fifo.{Holds}

abbrev report_at : ℕ → BlockReport
report_at lba = record {
  lba = lba;
  sectors_processed = 256;
  blk_access_time = 800;
  blk_status = BlockStatus.ok;
}

-- A queue at the end of the array.
abbrev one_left : Queue
one_left = record {
  reports = λ i. record { seqno = 99999; report = report_at 512 };
  next_report_seqno_write = 100000;
  next_report_seqno_read = 99999;
}

one_left-Holds : Holds one_left (report_at 512 ∷ [])
one_left-Holds = record {
  stored = (refl, tt);
  sequence = refl;
  fits = omega arith;
  small = omega arith;
}

abbrev two_left : Queue
two_left = enqueue one_left (report_at 768)

in_and_out :
    Trace one_left
      (report_at 768 ∷ [])
      ((blk_rep_read two_left).0.report ∷ [])
      (blk_rep_read two_left).1
unfolding get_queue_length enqueue
in_and_out = put (report_at 768) (omega arith) (take (omega arith) done)
