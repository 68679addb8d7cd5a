-- ===== src/Render/Queue/Fifo.antt =====
-- The ring buffer against a list: first in, first out.
use mathlib.Core.List.{append-nil, append_assoc}
use whdd_modify.Prelude.{
  ℕ, ◌+◌, ◌^◌, ◌≤◌, ◌<◌, ◌≡◌, refl, sym, ap, ◌∙◌, false, List, [], ◌∷◌, ◌++◌, length, length-append,
  ◌==◌, ==_iff, if◌then◌else◌, arith, subst,
}
use whdd_modify.Prelude.Words.{add64}
use whdd_modify.Procedure.{BlockReport}
use whdd_modify.Render.Queue.{
  BlkReport, Queue, capacity, slot, enqueue, blk_rep_read, get_queue_length, Trace, done, put, take,
}

-- The reports from a sequence number on.
abbrev pub Stored : (ℕ → BlkReport) → ℕ → List BlockReport → Type 0
Stored reports seqno [] = Unit {0}
Stored reports seqno (x ∷ xs) = ((reports (slot seqno)).report ≡ x) × Stored reports (seqno + 1) xs

-- The queue stands for a list of reports.
pub record Holds (q : Queue) (xs : List BlockReport) : Type 0 where
  pub stored : Stored q.reports q.next_report_seqno_read xs
  pub sequence : q.next_report_seqno_write ≡ q.next_report_seqno_read + length xs
  pub fits : length xs ≤ capacity
  pub small : q.next_report_seqno_write < 2 ^ 63

pub Holds-length : (q : Queue) (xs : List BlockReport) → Holds q xs → get_queue_length q ≡ length xs
unfolding get_queue_length
Holds-length q xs h = omega (arith, h.sequence, h.fits, h.small)

hit :
    (reports : ℕ → BlkReport) (w k : ℕ) (r : BlockReport)
    → k ≡ w
    → (if slot k == slot w then record { seqno = w; report = r } else reports (slot k)).report ≡ r
hit reports w k r e = rw ((==_iff (slot k) (slot w)).1 (ap slot e)) refl

slots_differ : (w k : ℕ) → k < w → w < k + capacity → (slot k == slot w) ≡ false
slots_differ w k l u = ground arith

miss :
    (reports : ℕ → BlkReport) (w k : ℕ) (r : BlockReport)
    → k < w
    → w < k + capacity
    → (if slot k == slot w then record { seqno = w; report = r } else reports (slot k)).report
      ≡ (reports (slot k)).report
miss reports w k r l u = rw (slots_differ w k l u) refl

-- A write to a slot that is not in use, and behind the stored reports.
stored_lem :
    (reports : ℕ → BlkReport) (w seqno : ℕ) (xs : List BlockReport) (r : BlockReport)
    → w ≡ seqno + length xs
    → length xs < capacity
    → Stored reports seqno xs
    → Stored
        (λ i. if i == slot w then record { seqno = w; report = r } else reports i)
        seqno
        (xs ++ (r ∷ []))
stored_lem reports w seqno [] r e l s = (hit reports w seqno r (omega arith), tt)
stored_lem reports w seqno (x ∷ xs) r e l s = (
  miss reports w seqno r (omega arith) (omega arith) ∙ s.0,
  stored_lem reports w (seqno + 1) xs r (omega arith) (omega arith) s.1,
)

pub enqueue-Holds :
    (q : Queue) (xs : List BlockReport) (r : BlockReport)
    → Holds q xs
    → length xs < capacity
    → q.next_report_seqno_write + 1 < 2 ^ 63
    → Holds (enqueue q r) (xs ++ (r ∷ []))
unfolding enqueue
enqueue-Holds q xs r h l b = record {
  stored =
      stored_lem q.reports q.next_report_seqno_write q.next_report_seqno_read xs r h.sequence l
        h.stored;
  sequence = omega (arith, h.sequence, length-append xs (r ∷ []));
  fits = omega (arith, length-append xs (r ∷ []));
  small = omega arith;
}

pub read-Holds :
    (q : Queue) (x : BlockReport) (xs : List BlockReport)
    → Holds q (x ∷ xs)
    → ((blk_rep_read q).0.report ≡ x) × Holds (blk_rep_read q).1 xs
unfolding blk_rep_read
read-Holds q x xs h = (
  h.stored.0,
  record {
    stored = subst (λ n. Stored q.reports n xs) (no_wrap) h.stored.1;
    sequence = omega (arith, h.sequence, h.small);
    fits = omega (arith, h.fits);
    small = h.small;
  },
)
  where
    no_wrap : q.next_report_seqno_read + 1 ≡ add64 q.next_report_seqno_read 1
    no_wrap = omega (arith, h.sequence, h.small)

pub enqueue_write :
    (q : Queue) (r : BlockReport)
    → q.next_report_seqno_write + 1 < 2 ^ 63
    → (enqueue q r).next_report_seqno_write ≡ q.next_report_seqno_write + 1
unfolding enqueue
enqueue_write q r b = omega arith

pub read_write :
    (q : Queue) → (blk_rep_read q).1.next_report_seqno_write ≡ q.next_report_seqno_write
unfolding blk_rep_read
read_write q = refl

-- What a trace has done to a queue.
abbrev pub InOrder : List BlockReport → List BlockReport → List BlockReport → Queue → Type 0
InOrder xs ins outs q' = (ys : List BlockReport) × Holds q' ys × (xs ++ ins ≡ outs ++ ys)

-- However the two threads take turns, if a report is put only where there is room and taken only
-- where there is one: what is taken out, and then what is left in the queue, is what was in it and
-- then what is put in, in this order. Sequence numbers are below 2 ^ 63.
pub Trace-InOrder :
    {q q' : Queue} {ins outs : List BlockReport} (xs : List BlockReport)
    → Trace q ins outs q'
    → Holds q xs
    → q.next_report_seqno_write + length ins < 2 ^ 63
    → InOrder xs ins outs q'
Trace-InOrder xs done h b = (xs, h, append-nil xs)
Trace-InOrder {q} xs (put r room t) h b =
    let (ys, h', e) =
      Trace-InOrder (xs ++ (r ∷ [])) t
        (enqueue-Holds q xs r h (omega (arith, Holds-length q xs h)) (omega arith))
        (omega (arith, enqueue_write q r (omega arith))) in
    (ys, h', sym (append_assoc xs (r ∷ []) _) ∙ e)
Trace-InOrder {q} [] (take some t) h b = absurd (omega (arith, Holds-length q [] h))
Trace-InOrder {q} (x ∷ xs) (take {outs = outs} some t) h b =
    let (front, h') = read-Holds q x xs h in
    let (ys, h'', e) = Trace-InOrder xs t h' (omega (arith, read_write q)) in
    (ys, h'', ap (λ zs. x ∷ zs) e ∙ ap (λ y. y ∷ (outs ++ ys)) (sym front))
