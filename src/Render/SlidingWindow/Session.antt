-- ===== src/Render/SlidingWindow/Session.antt =====
-- The two threads of cui/sliding_window_renderer.c together: what is counted when both have ended.
use mathlib.Core.List.{append_assoc, append-nil}
use whdd_modify.Prelude.{
  ℕ, zero, suc, ◌+◌, ◌<◌, ◌^◌, ◌≡◌, refl, sym, ap, ◌∙◌, subst, List, [], ◌∷◌, ◌++◌, get_or, length,
  length-append, arith, replicate,
}
use whdd_modify.Procedure.{BlockReport}
use whdd_modify.Render.Queue.{get_queue_length}
use whdd_modify.Render.Queue.Fifo.{Holds-length}
use whdd_modify.Render.SlidingWindow.{
  SlidingWindow, open_sliding_window, render_one, render_loop, render_queued, Threads, done,
  handled, rendered,
}
use whdd_modify.Render.SlidingWindow.Counts.{count_of, in_tier, with_status, bytes_of}
use whdd_modify.Render.SlidingWindow.Follows.{
  Follows, OnSome, handle_report-Follows, render_one-Follows,
}

-- The loop of `render_queued` counts all that is in the ring.
render_loop-Follows :
    (thresholds : List ℕ) (pending : List BlockReport) (w : SlidingWindow) (read : List BlockReport)
    → Follows thresholds w read pending
    → Follows thresholds (render_loop (length pending) w) (read ++ pending) []
unfolding render_loop
render_loop-Follows thresholds [] w read f =
    subst (λ rs. Follows thresholds w rs []) (sym (append-nil read)) f
render_loop-Follows thresholds (x ∷ pending) w read f =
    subst (λ rs. Follows thresholds (render_loop (length pending) (render_one w)) rs [])
      (append_assoc read (x ∷ []) pending)
      (render_loop-Follows thresholds pending (render_one w) (read ++ (x ∷ []))
        (render_one-Follows thresholds w read pending x f))

-- Any order of steps
Threads-Follows :
    (thresholds : List ℕ) {w w' : SlidingWindow} {ins : List BlockReport}
    (read pending : List BlockReport)
    → Threads w ins w'
    → Follows thresholds w read pending
    → length (read ++ pending) + length ins < 2 ^ 63
    → (read' : List BlockReport) × (pending' : List BlockReport) × Follows thresholds w' read'
        pending'
      × (read' ++ pending' ≡ (read ++ pending) ++ ins)
Threads-Follows thresholds read pending done f b =
    (read, pending, f, sym (append-nil (read ++ pending)))
Threads-Follows thresholds {w} read pending (handled {rs = rs} clock p r room e t) f b =
    let g = subst (OnSome (λ v. Follows thresholds v read (pending ++ (r ∷ [])))) e (
      handle_report-Follows thresholds w read pending clock p r f
        (omega (arith, Holds-length w.queue pending f.holds)) (omega arith)) in
    let one = append_assoc read pending (r ∷ []) in
    let (read', pending', h, s) =
      Threads-Follows thresholds read (pending ++ (r ∷ [])) t g
        (omega (arith, ap length one, length-append (read ++ pending) (r ∷ []))) in
    (
      read',
      pending',
      h,
      s ∙ ap (λ xs. xs ++ rs) (sym one) ∙ append_assoc (read ++ pending) (r ∷ []) rs,
    )
Threads-Follows thresholds {w} read [] (rendered some_report t) f b =
    absurd (omega (arith, Holds-length w.queue [] f.holds))
Threads-Follows thresholds {w} {w'} {ins} read (x ∷ pending) (rendered some_report t) f b =
    let one = append_assoc read (x ∷ []) pending in
    let (read', pending', h, s) =
      Threads-Follows thresholds (read ++ (x ∷ [])) pending t
        (render_one-Follows thresholds w read pending x f) (omega (arith, ap length one)) in
    (read', pending', h, s ∙ ap (λ xs. xs ++ ins) one)

open-Follows :
    (thresholds : List ℕ) (end_lba : ℕ)
    → Follows thresholds (open_sliding_window thresholds end_lba) [] []
unfolding open_sliding_window count_of bytes_of
open-Follows thresholds end_lba = record {
  counted = record {
    tiers = λ k l. zeros 7 k;
    errors = λ k l. zeros 7 k;
    nb_tiers = refl;
    nb_errors = refl;
  };
  holds = record { stored = tt; sequence = refl; fits = omega arith; small = omega arith };
  place = refl;
  same = refl;
  bytes = refl;
}
  where
    zeros : (n k : ℕ) → get_or {A = ℕ} (replicate n 0) k 0 ≡ 0
    zeros zero k = refl
    zeros (suc n) zero = refl
    zeros (suc n) (suc k) = zeros n k

-- From `Open` on, however the two threads take turns with fewer than 2 ^ 63 reports, none of which
-- is handled while the ring is full: after the last `render_queued` of the render thread the ring is
-- empty, each tier has the number of the reports without an error that are in it, each error status
-- has the number of the reports that have it, and the bytes are those of all reports, as a uint64_t.
pub render_queued-counts :
    (thresholds : List ℕ) (end_lba : ℕ) (ins : List BlockReport) (w : SlidingWindow)
    → Threads (open_sliding_window thresholds end_lba) ins w
    → length ins < 2 ^ 63
    → let z = render_queued w in
      (get_queue_length z.queue ≡ 0)
      × ((k : ℕ)
          → k < 6
          → get_or z.access_time_stats_accum k 0 ≡ count_of (in_tier thresholds k) ins)
      × ((k : ℕ) → k < 7 → get_or z.error_stats_accum k 0 ≡ count_of (with_status k) ins)
      × (z.bytes_processed ≡ bytes_of 0 ins)
unfolding render_queued
render_queued-counts thresholds end_lba ins w t few =
    let (read, pending, f, s) =
      Threads-Follows thresholds [] [] t (open-Follows thresholds end_lba) (omega arith) in
    let g =
      subst (λ rs. Follows thresholds (render_loop (length pending) w) rs []) s
        (render_loop-Follows thresholds pending w read f) in
    let n = sym (Holds-length w.queue pending f.holds) in
    subst (λ m. Ends (render_loop m w)) n
      (
        Holds-length _ [] g.holds,
        (λ k l. g.counted.tiers k (omega arith) ∙ ap (λ h. count_of (in_tier h k) ins) g.same),
        (λ k l. g.counted.errors k l),
        g.bytes ∙ ap (bytes_of 0) (append-nil ins),
      )
  where
    Ends : SlidingWindow → Type 0
    Ends z =
        (get_queue_length z.queue ≡ 0)
        × ((k : ℕ)
            → k < 6
            → get_or z.access_time_stats_accum k 0 ≡ count_of (in_tier thresholds k) ins)
        × ((k : ℕ) → k < 7 → get_or z.error_stats_accum k 0 ≡ count_of (with_status k) ins)
        × (z.bytes_processed ≡ bytes_of 0 ins)
