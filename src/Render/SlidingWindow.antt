-- ===== src/Render/SlidingWindow.antt =====
-- cui/sliding_window_renderer.c: the state that the procedure's thread and the render thread share,
-- and what each of them does to it. What is drawn is left out.
pub mod Counts
pub mod Follows
pub mod Session
mod Tests
use whdd_modify.Prelude.{
  ℕ, zero, suc, ◌+◌, ◌-◌, ◌*◌, ◌/◌, ◌%◌, ◌<◌, ◌≡◌, ◌^◌, Option, none, some, List, [], ◌∷◌, ltb,
  ◌==◌, ◌&&◌, if◌then◌else◌, replicate, ◌>>=◌,
}
use whdd_modify.Prelude.Words.{add64, sub64, mul64}
use whdd_modify.Procedure.{BlockStatus, BlockReport, Progress, failed}
use whdd_modify.Probe.{Timespec}
use whdd_modify.ReadTest.Stats.{status_number, tier, increment}
use whdd_modify.Render.Queue.{Queue, capacity, enqueue, blk_rep_read, get_queue_length}

-- The thresholds are those of `bs_vis`.
pub record SlidingWindow : Type 0 where
  pub vis_thresholds : List ℕ
  pub start_time : Timespec
  pub access_time_stats_accum : List ℕ
  pub error_stats_accum : List ℕ
  pub bytes_processed : ℕ
  pub avg_processing_speed : ℕ
  pub eta_time : ℕ
  pub cur_lba : ℕ
  pub end_lba : ℕ
  pub progress_percent : ℕ
  pub queue : Queue

abbrev pub no_report : BlockReport
no_report = record {
  lba = 0;
  sectors_processed = 0;
  blk_access_time = 0;
  blk_status = BlockStatus.ok;
}

-- `Open`, after `calloc`, for the end LBA of the procedure.
unfoldable pub open_sliding_window : List ℕ → ℕ → SlidingWindow
open_sliding_window thresholds end_lba = record {
  vis_thresholds = thresholds;
  start_time = record { tv_sec = 0; tv_nsec = 0 };
  access_time_stats_accum = replicate 7 0;
  error_stats_accum = replicate 7 0;
  bytes_processed = 0;
  avg_processing_speed = 0;
  eta_time = 0;
  cur_lba = 0;
  end_lba = end_lba;
  progress_percent = 0;
  queue = record {
    reports = λ i. record { seqno = if i == 0 then 1 else 0; report = no_report };
    next_report_seqno_write = 0;
    next_report_seqno_read = 0;
  };
}

-- The counting part of `render_update_vis`
unfoldable pub render_update_vis : SlidingWindow → BlockReport → SlidingWindow
render_update_vis w r =
    if failed r.blk_status
    then record w { error_stats_accum = increment (status_number r.blk_status) w.error_stats_accum }
    else record w {
      access_time_stats_accum =
          increment (tier r.blk_access_time w.vis_thresholds) w.access_time_stats_accum;
    }

-- A round of the loop in `render_queued`
unfoldable pub render_one : SlidingWindow → SlidingWindow
render_one w =
    let read = blk_rep_read w.queue in render_update_vis (record w { queue = read.1 }) read.0.report

unfoldable pub render_loop : ℕ → SlidingWindow → SlidingWindow
render_loop zero w = w
render_loop (suc queue_length) w = render_loop queue_length (render_one w)

unfoldable pub render_queued : SlidingWindow → SlidingWindow
render_queued w = render_loop (get_queue_length w.queue) w

-- Milliseconds; the nanoseconds are not negative.
unfoldable pub elapsed_ms : Timespec → Timespec → ℕ
elapsed_ms start now =
    sub64 (sub64 (add64 (mul64 now.tv_sec 1000) (now.tv_nsec / 1000000)) (mul64 start.tv_sec 1000))
      (start.tv_nsec / 1000000)

-- The speed and the remaining time, after so many milliseconds.
unfoldable pub update_speed : ℕ → Progress → SlidingWindow → SlidingWindow
update_speed time_elapsed_ms p w =
    if ltb 0 time_elapsed_ms
    then record w {
      avg_processing_speed = mul64 w.bytes_processed 1000 / time_elapsed_ms;
      eta_time =
          if ltb 0 p.num && ltb p.num p.den
          then mul64 (p.den - p.num) (time_elapsed_ms / p.num) / 1000
          else w.eta_time;
    }
    else w

-- The part of `HandleReport` that asks for the time, which `clock_gettime` may not give.
unfoldable pub handle_time : Option Timespec → Progress → SlidingWindow → Option SlidingWindow
handle_time clock p w =
    if p.num == 1
    then (clock >>= λ now. some (record w { start_time = now }))
    else if p.num % 10 == 0
    then (clock >>= λ now. some (update_speed (elapsed_ms w.start_time now) p w))
    else some w

unfoldable pub handle_report :
    Option Timespec → Progress → BlockReport → SlidingWindow → Option SlidingWindow
handle_report clock p r w =
    handle_time clock p (record w {
      bytes_processed = add64 w.bytes_processed (mul64 r.sectors_processed 512);
      cur_lba = add64 r.lba r.sectors_processed;
      progress_percent = if p.den == 0 then 0 else mul64 p.num 100 / p.den;
    })
    >>= λ v. some (record v { queue = enqueue v.queue r })

-- What the two threads do, one access to the queue after the other, with the reports that come in:
-- the procedure's thread handles a report while the ring has room, the render thread reads and
-- counts a report while there is one.
pub data Threads : SlidingWindow → List BlockReport → SlidingWindow → Type 0 where
  done : {w : SlidingWindow} → Threads w [] w
  handled :
      {w v w' : SlidingWindow} {rs : List BlockReport} (clock : Option Timespec) (p : Progress)
      (r : BlockReport)
      → get_queue_length w.queue < capacity
      → handle_report clock p r w ≡ some v
      → Threads v rs w'
      → Threads w (r ∷ rs) w'
  rendered :
      {w w' : SlidingWindow} {rs : List BlockReport}
      → 0 < get_queue_length w.queue
      → Threads (render_one w) rs w'
      → Threads w rs w'
