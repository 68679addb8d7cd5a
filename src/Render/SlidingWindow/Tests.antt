-- ===== src/Render/SlidingWindow/Tests.antt =====
-- Two reports in the renderer of cui/sliding_window_renderer.c.
use whdd_modify.Prelude.{ℕ, ◌<◌, ◌≡◌, refl, Option, none, some, List, [], ◌∷◌, get_or, arith}
use whdd_modify.Procedure.{BlockStatus, BlockReport}
use whdd_modify.Probe.{Timespec}
use whdd_modify.ReadTest.Stats.{tier, increment}
use whdd_modify.Render.Queue.{enqueue, blk_rep_read, get_queue_length}
use whdd_modify.Render.SlidingWindow.{
  SlidingWindow, open_sliding_window, render_queued, render_loop, render_one, render_update_vis,
  update_speed, handle_time, handle_report, Threads, done, handled, rendered,
}
use whdd_modify.Render.SlidingWindow.Counts.{count_of, in_tier, with_status, bytes_of}
use whdd_modify.Render.SlidingWindow.Session.{render_queued-counts}

abbrev thresholds : List ℕ
thresholds = 3000 ∷ 10000 ∷ 50000 ∷ 150000 ∷ 500000 ∷ []

abbrev slow : BlockReport
slow = record {
  lba = 0;
  sectors_processed = 256;
  blk_access_time = 60000;
  blk_status = BlockStatus.ok;
}

abbrev lost : BlockReport
lost = record {
  lba = 256;
  sectors_processed = 256;
  blk_access_time = 900000;
  blk_status = BlockStatus.unc;
}

abbrev at_second : ℕ → Option Timespec
at_second s = some (record { tv_sec = s; tv_nsec = 0 })

abbrev opened : SlidingWindow
opened = open_sliding_window thresholds 2560

abbrev after_first : SlidingWindow
after_first = record opened {
  start_time = record { tv_sec = 100; tv_nsec = 0 };
  bytes_processed = 131072;
  cur_lba = 256;
  progress_percent = 10;
  queue = enqueue opened.queue slow;
}

first : handle_report (at_second 100) (record { num = 1; den = 10 }) slow opened ≡ some after_first
unfolding handle_report handle_time open_sliding_window
first = refl

abbrev after_second : SlidingWindow
after_second = record (render_one after_first) {
  bytes_processed = 262144;
  cur_lba = 512;
  progress_percent = 20;
  queue = enqueue (render_one after_first).queue lost;
}

second :
    handle_report none (record { num = 2; den = 10 }) lost (render_one after_first)
    ≡ some after_second
unfolding handle_report handle_time render_one open_sliding_window render_update_vis blk_rep_read
    enqueue
second = refl

-- The first report is counted before the second one is handled.
in_turns : Threads opened (slow ∷ lost ∷ []) after_second
unfolding open_sliding_window get_queue_length enqueue render_one render_update_vis blk_rep_read
in_turns =
    handled (at_second 100) (record { num = 1; den = 10 }) slow (omega arith) first
      (rendered (omega arith)
        (handled none (record { num = 2; den = 10 }) lost (omega arith) second done))

render_queued-counts_example :
    let z = render_queued after_second in
    (get_queue_length z.queue ≡ 0)
    × ((k : ℕ)
        → k < 6
        → get_or z.access_time_stats_accum k 0 ≡ count_of (in_tier thresholds k) (slow ∷ lost ∷ []))
    × ((k : ℕ)
        → k < 7
        → get_or z.error_stats_accum k 0 ≡ count_of (with_status k) (slow ∷ lost ∷ []))
    × (z.bytes_processed ≡ bytes_of 0 (slow ∷ lost ∷ []))
render_queued-counts_example =
    render_queued-counts thresholds 2560 (slow ∷ lost ∷ []) after_second in_turns (omega arith)

-- 10 of 20 blocks in 5 seconds.
speed :
    update_speed 5000 (record { num = 10; den = 20 }) (record opened { bytes_processed = 1310720 })
    ≡ record opened { bytes_processed = 1310720; avg_processing_speed = 262144; eta_time = 5 }
unfolding update_speed open_sliding_window
speed = refl

tallied : (render_queued after_second).access_time_stats_accum ≡ 0 ∷ 0 ∷ 0 ∷ 1 ∷ 0 ∷ 0 ∷ 0 ∷ []
unfolding render_queued render_loop render_one render_update_vis open_sliding_window enqueue tier
    increment get_queue_length blk_rep_read
tallied = refl
