-- ===== src/Render/SlidingWindow/Follows.antt =====
-- The state of cui/sliding_window_renderer.c between two steps of its threads: what has been counted
-- and what waits in the ring.
use mathlib.Core.List.{append_assoc}
use whdd_modify.Prelude.{
  ℕ, ◌+◌, ◌<◌, ◌^◌, ◌≡◌, refl, sym, ap, ◌∙◌, subst, Option, none, some, List, [], ◌∷◌, ◌++◌, ◌>>=◌,
  ◌%◌, ◌/◌, ltb, ◌==◌, if◌then◌else◌, get_or, length, length-append, arith, inl, inr, Bool-cases,
}
use whdd_modify.Prelude.Words.{add64, mul64}
use whdd_modify.Procedure.{BlockReport, Progress}
use whdd_modify.Probe.{Timespec}
use whdd_modify.Render.Queue.{Queue, enqueue, blk_rep_read, capacity}
use whdd_modify.Render.Queue.Fifo.{Holds, enqueue-Holds, read-Holds}
use whdd_modify.Render.SlidingWindow.{
  SlidingWindow, render_update_vis, render_one, elapsed_ms, update_speed, handle_time,
  handle_report,
}
use whdd_modify.Render.SlidingWindow.Counts.{
  count_of, in_tier, bytes_of, bytes_of-append, Counted, render_update_vis-Counted,
  render_update_vis-kept,
}

-- The renderer has counted some reports, and others are in the ring.
pub record Follows (thresholds : List ℕ) (w : SlidingWindow) (read pending : List BlockReport)
    : Type 0 where
  pub counted : Counted w read
  pub holds : Holds w.queue pending
  pub place : w.queue.next_report_seqno_read ≡ length read
  pub same : w.vis_thresholds ≡ thresholds
  pub bytes : w.bytes_processed ≡ bytes_of 0 (read ++ pending)

abbrev pub OnSome : (SlidingWindow → Type 0) → Option SlidingWindow → Type 0
OnSome P none = Unit {0}
OnSome P (some v) = P v

-- The part of the state that the time does not change.
abbrev Untimed : SlidingWindow → SlidingWindow → Type 0
Untimed w v =
    (v.queue ≡ w.queue)
    × (v.access_time_stats_accum ≡ w.access_time_stats_accum)
    × (v.error_stats_accum ≡ w.error_stats_accum)
    × (v.vis_thresholds ≡ w.vis_thresholds)
    × (v.bytes_processed ≡ w.bytes_processed)

update_speed-Untimed : (t : ℕ) (p : Progress) (w : SlidingWindow) → Untimed w (update_speed t p w)
unfolding update_speed
update_speed-Untimed t p w = elim (Bool-cases (ltb 0 t)) [
  | inl some_time ↦ rw some_time (refl, refl, refl, refl, refl)
  | inr no_time ↦ rw no_time (refl, refl, refl, refl, refl)
]

handle_time-Untimed :
    (clock : Option Timespec) (p : Progress) (w : SlidingWindow)
    → OnSome (Untimed w) (handle_time clock p w)
unfolding handle_time
handle_time-Untimed clock p w = elim (Bool-cases (p.num == 1)) [
  | inl first ↦ rw first (starts clock)
  | inr later ↦ elim (Bool-cases (p.num % 10 == 0)) [
    | inl tenth ↦ rw (later, tenth) (measures clock)
    | inr other ↦ rw (later, other) (refl, refl, refl, refl, refl)
  ]
]
  where
    starts :
        (c : Option Timespec)
        → OnSome (Untimed w) (c >>= λ now. some (record w { start_time = now }))
    starts none = tt
    starts (some now) = (refl, refl, refl, refl, refl)

    measures :
        (c : Option Timespec)
        → OnSome (Untimed w) (c >>= λ now. some (update_speed (elapsed_ms w.start_time now) p w))
    measures none = tt
    measures (some now) = update_speed-Untimed (elapsed_ms w.start_time now) p w

enqueue_read :
    (q : Queue) (r : BlockReport) → (enqueue q r).next_report_seqno_read ≡ q.next_report_seqno_read
unfolding enqueue
enqueue_read q r = refl

pub handle_report-Follows :
    (thresholds : List ℕ) (w : SlidingWindow) (read pending : List BlockReport)
    (clock : Option Timespec) (p : Progress) (r : BlockReport)
    → Follows thresholds w read pending
    → length pending < capacity
    → length (read ++ pending) + 1 < 2 ^ 63
    → OnSome (λ v. Follows thresholds v read (pending ++ (r ∷ []))) (handle_report clock p r w)
unfolding handle_report
handle_report-Follows thresholds w read pending clock p r f room few =
    let u = record w {
      bytes_processed = add64 w.bytes_processed (mul64 r.sectors_processed 512);
      cur_lba = add64 r.lba r.sectors_processed;
      progress_percent = if p.den == 0 then 0 else mul64 p.num 100 / p.den;
    } in
    puts (handle_time clock p u) (handle_time-Untimed clock p u)
  where
    puts :
        (o : Option SlidingWindow)
        → OnSome
            (Untimed (record w {
              bytes_processed = add64 w.bytes_processed (mul64 r.sectors_processed 512);
            }))
            o
        → OnSome
            (λ v. Follows thresholds v read (pending ++ (r ∷ [])))
            (o >>= λ v. some (record v { queue = enqueue v.queue r }))
    puts none t = tt
    puts (some v) (q, a, e, t, b) = record {
      counted = record {
        tiers = λ k l.
            ap (λ xs. get_or xs k 0) a
            ∙ f.counted.tiers k l
            ∙ ap (λ h. count_of (in_tier h k) read) (sym t);
        errors = λ k l. ap (λ xs. get_or xs k 0) e ∙ f.counted.errors k l;
        nb_tiers = ap length a ∙ f.counted.nb_tiers;
        nb_errors = ap length e ∙ f.counted.nb_errors;
      };
      holds =
          subst (λ x. Holds (enqueue x r) (pending ++ (r ∷ []))) (sym q)
            (enqueue-Holds w.queue pending r f.holds room
              (omega (arith, f.holds.sequence, f.place, length-append read pending)));
      place = enqueue_read v.queue r ∙ ap (λ x. x.next_report_seqno_read) q ∙ f.place;
      same = t ∙ f.same;
      bytes =
          b
          ∙ ap (λ n. add64 n (mul64 r.sectors_processed 512)) f.bytes
          ∙ sym (bytes_of-append 0 (read ++ pending) r)
          ∙ ap (bytes_of 0) (append_assoc read pending (r ∷ []));
    }

next_read :
    (q : Queue)
    → q.next_report_seqno_read + 1 < 2 ^ 64
    → (blk_rep_read q).1.next_report_seqno_read ≡ q.next_report_seqno_read + 1
unfolding blk_rep_read
next_read q b = omega arith

pub render_one-Follows :
    (thresholds : List ℕ) (w : SlidingWindow) (read pending : List BlockReport) (x : BlockReport)
    → Follows thresholds w read (x ∷ pending)
    → Follows thresholds (render_one w) (read ++ (x ∷ [])) pending
unfolding render_one
render_one-Follows thresholds w read pending x f =
    let (front, h) = read-Holds w.queue x pending f.holds in
    let q = (blk_rep_read w.queue).1 in
    let u = record w { queue = q } in
    let (kq, kt, kb) = render_update_vis-kept u x in
    subst (λ r. Follows thresholds (render_update_vis u r) (read ++ (x ∷ [])) pending) (sym front)
      (record {
        counted =
            render_update_vis-Counted u read x
              (record {
                tiers = f.counted.tiers;
                errors = f.counted.errors;
                nb_tiers = f.counted.nb_tiers;
                nb_errors = f.counted.nb_errors;
              })
              (omega (arith, f.holds.sequence, f.holds.small, f.place));
        holds = subst (λ y. Holds y pending) (sym kq) h;
        place =
            ap (λ y. y.next_report_seqno_read) kq
            ∙ next_read w.queue (omega (arith, f.holds.sequence, f.holds.small))
            ∙ omega (arith, f.place, length-append read (x ∷ []));
        same = kt ∙ f.same;
        bytes = kb ∙ f.bytes ∙ ap (bytes_of 0) (sym (append_assoc read (x ∷ []) pending));
      })
