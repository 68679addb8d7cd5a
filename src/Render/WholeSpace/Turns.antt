-- ===== src/Render/WholeSpace/Turns.antt =====
-- The two threads of cui/whole_space_renderer.c, whose ring buffer is that of
-- cui/sliding_window_renderer.c.
use mathlib.Core.List.{append-nil}
use whdd_modify.Prelude.{
  ◌+◌, ◌^◌, ◌<◌, ◌≤◌, ◌≡◌, sym, ◌∙◌, subst, List, [], ◌∷◌, ◌++◌, length, arith,
}
use whdd_modify.Procedure.{BlockReport}
use whdd_modify.Render.Queue.{Queue, Trace, get_queue_length}
use whdd_modify.Render.Queue.Fifo.{Holds, Holds-length, Trace-InOrder}
use whdd_modify.Render.WholeSpace.{WholeSpace, render_reports}
use whdd_modify.Render.WholeSpace.Counts.{sectors_of, IsRendered, render_reports-IsRendered}

-- A trace that begins and ends with an empty queue takes out what it puts in, in order.
all_taken :
    {q q' : Queue} (ins outs : List BlockReport)
    → Trace q ins outs q'
    → Holds q []
    → get_queue_length q' ≡ 0
    → q.next_report_seqno_write + length ins < 2 ^ 63
    → outs ≡ ins
all_taken {q' = q'} ins outs t h e b =
    let (ys, h', s) = Trace-InOrder [] t h b in
    none_left ys (omega (arith, Holds-length q' ys h')) s
  where
    none_left : (ys : List BlockReport) → length ys ≡ 0 → ins ≡ outs ++ ys → outs ≡ ins
    none_left [] l s = sym (s ∙ append-nil outs)
    none_left (y ∷ ys) l s = absurd (omega arith)

-- However the two threads take turns, from an empty ring on to an empty ring, if a report is put
-- only where there is room and taken only where there is one, and sequence numbers are below 2 ^ 63.
-- After reports on no more sectors than are unread, where the three counters together fit, the
-- render thread has rendered the reports that came in: the unread sectors are fewer by those of the
-- reports, the sectors with errors are more by those of the reports that failed, the three counters
-- together are what they were, and each block of the map shows the last report whose first sector is
-- in it, or what it showed before if there is none.
pub Trace-IsRendered :
    (w : WholeSpace) {q q' : Queue} (ins outs : List BlockReport)
    → Trace q ins outs q'
    → Holds q []
    → get_queue_length q' ≡ 0
    → q.next_report_seqno_write + length ins < 2 ^ 63
    → sectors_of ins ≤ w.unread_count
    → w.unread_count + w.read_ok_count + w.errors_count < 2 ^ 64
    → IsRendered w (render_reports w outs) ins
Trace-IsRendered w ins outs t h e b few fits =
    subst (λ rs. IsRendered w (render_reports w rs) ins) (sym (all_taken ins outs t h e b))
      (render_reports-IsRendered w ins few fits)
