-- ===== src/Render/WholeSpace/Tests.antt =====
-- The renderer of a copy of 640 sectors, cui/whole_space_renderer.c.
use whdd_modify.Prelude.{
  ℕ, ◌+◌, ◌*◌, ◌/◌, ◌≤◌, ◌≡◌, refl, some, List, [], ◌∷◌, arith, ◌==◌, if◌then◌else◌, length, get_or,
  take, replicate,
}
use whdd_modify.Procedure.{BlockStatus, BlockReport}
use whdd_modify.ReadTest.Stats.{tier, increment}
use whdd_modify.Render.WholeSpace.{
  update_eta, WholeSpace, update_blocks_info, render_reports, nb_blocks_of, open_whole_space,
}
use whdd_modify.Render.WholeSpace.Map.{
  Cell, with_errors, unread, processed, cell_of, cells_from, drop, render_map, blocks_per_vis_of,
}
use whdd_modify.Render.WholeSpace.Counts.{sectors_of, IsRendered}
use whdd_modify.Render.Queue.{Queue, enqueue, blk_rep_read, get_queue_length, Trace, put, done}
use whdd_modify.Render.Queue
use whdd_modify.Render.Queue.Fifo.{Holds}
use whdd_modify.Render.WholeSpace.Turns.{Trace-IsRendered}
use whdd_modify.Render.WholeSpace.Loaded.{blocks_from}
use whdd_modify.Render.WholeSpace.Opened.{shown, open_whole_space-counts}
use whdd_modify.Render.WholeSpace.Cells.{shows, render_map-fits}

abbrev report : ℕ → ℕ → BlockStatus → BlockReport
report lba sectors status = record {
  lba = lba;
  sectors_processed = sectors;
  blk_access_time = 4000;
  blk_status = status;
}

abbrev reports : List BlockReport
reports =
    report 0 256 BlockStatus.ok
    ∷ report 256 256 BlockStatus.unc
    ∷ report 512 128 BlockStatus.amnf
    ∷ []

abbrev fresh : WholeSpace
fresh = record {
  vis_thresholds = 3000 ∷ 10000 ∷ 50000 ∷ 150000 ∷ 500000 ∷ [];
  blocks_map = replicate 3 0;
  sectors_per_block = 256;
  access_time_stats_accum = replicate 6 0;
  error_stats_accum = replicate 6 0;
  bytes_processed = 0;
  start_time = record { tv_sec = 0; tv_nsec = 0 };
  avg_processing_speed = 0;
  eta_time = 0;
  reports_handled = 0;
  cur_lba = 0;
  unread_count = 640;
  read_ok_count = 0;
  errors_count = 0;
}

-- The error AMNF is counted as a byte.
rendered : render_reports fresh reports ≡ record fresh {
  blocks_map = 1 ∷ 2 ∷ 2 ∷ [];
  access_time_stats_accum = 0 ∷ 1 ∷ 0 ∷ 0 ∷ 0 ∷ 0 ∷ [];
  error_stats_accum = 0 ∷ 0 ∷ 0 ∷ 1 ∷ 0 ∷ 0 ∷ [];
  bytes_processed = 1;
  unread_count = 0;
  read_ok_count = 256;
  errors_count = 384;
}
unfolding render_reports update_blocks_info tier increment
rendered = refl

few : sectors_of reports ≤ 640
unfolding sectors_of
few = omega arith

abbrev empty : Queue
empty = record {
  reports = λ i. record { seqno = 0; report = report 0 0 BlockStatus.ok };
  next_report_seqno_write = 0;
  next_report_seqno_read = 0;
}

empty-Holds : Holds empty []
empty-Holds = record { stored = tt; sequence = refl; fits = omega arith; small = omega arith }

abbrev two_in : Queue
two_in = enqueue (enqueue empty (report 0 256 BlockStatus.ok)) (report 256 256 BlockStatus.unc)

abbrev three_in : Queue
three_in = enqueue (blk_rep_read two_in).1 (report 512 128 BlockStatus.amnf)

abbrev all_out : Queue
all_out = (blk_rep_read (blk_rep_read three_in).1).1

-- The first report is taken before the third one comes.
in_turns : Trace empty reports reports all_out
unfolding enqueue blk_rep_read get_queue_length
in_turns = put (report 0 256 BlockStatus.ok) (omega arith) (
    put (report 256 256 BlockStatus.unc) (omega arith) (
      Queue.take (omega arith) (
        put (report 512 128 BlockStatus.amnf) (omega arith)
          (Queue.take (omega arith) (Queue.take (omega arith) done)))))

none_left : get_queue_length all_out ≡ 0
unfolding enqueue blk_rep_read get_queue_length
none_left = refl

Trace-IsRendered_example : IsRendered fresh (render_reports fresh reports) reports
Trace-IsRendered_example =
    Trace-IsRendered fresh reports reports in_turns empty-Holds none_left (omega arith) few
      (omega arith)

-- All sectors are read but the second half.
abbrev journal : ℕ → ℕ
journal k = if k / 320 == 0 then 1 else 2

open_whole_space-counts_example :
    let x = shown (640 * 512) 640 [] in
    (w : WholeSpace) × (open_whole_space x (λ p n. some (λ k. journal (p + k))) ≡ some w)
    × (w.blocks_map ≡ blocks_from journal (nb_blocks_of x) 0)
    × (w.unread_count + w.read_ok_count + w.errors_count + 0 ≡ 640)
open_whole_space-counts_example =
    open_whole_space-counts (640 * 512) 640 [] journal (λ p n. some (λ k. journal (p + k)))
      (omega arith) (omega arith) (omega arith) (λ p n. refl) (λ k. ground arith)

shown_cells : render_map 2 (1 ∷ 1 ∷ 1 ∷ 0 ∷ 2 ∷ []) ≡ some (processed ∷ unread ∷ with_errors ∷ [])
unfolding render_map cells_from cell_of
shown_cells = refl

two_each : blocks_per_vis_of 5 3 ≡ 2
unfolding blocks_per_vis_of
two_each = refl

abbrev blocks : List ℕ
blocks = 1 ∷ 1 ∷ 1 ∷ 0 ∷ 2 ∷ []

render_map-fits_example :
    (map : List Cell) × (render_map (blocks_per_vis_of 5 3) blocks ≡ some map)
    × (length map ≤ 3)
    × (get_or map 2 processed
        ≡ shows (take (blocks_per_vis_of 5 3) (drop (2 * blocks_per_vis_of 5 3) blocks)))
render_map-fits_example =
    render_map-fits blocks 3 2 (omega arith) (omega arith) (omega (arith, two_each))

-- After ten blocks of 256 sectors in 10 seconds, 2560 sectors are done, and the time that is left
-- for another 2560 is taken to be 5110 seconds.
estimate :
    update_eta 10000 5120 (record fresh { reports_handled = 10 })
    ≡ record fresh { reports_handled = 10; eta_time = 5110 }
unfolding update_eta
estimate = refl
