-- ===== src/Render/WholeSpace.antt =====
-- cui/whole_space_renderer.c: the map of the device and its counters, which the renderer of a copy
-- shows. The counters are of 64 bits.
pub mod Counts
pub mod Turns
pub mod Loaded
pub mod Opened
pub mod Map
pub mod Cells
mod Tests
use whdd_modify.Prelude.{
  ℕ, zero, suc, ◌+◌, ◌-◌, ◌*◌, ◌/◌, ◌%◌, ◌^◌, Bool, true, false, not, ◌&&◌, ◌||◌, Option, none,
  some, List, [], ◌∷◌, ltb, leb, ◌==◌, if◌then◌else◌, set, replicate, length, take, ◌>>=◌,
}
use whdd_modify.Prelude.Words.{add64, sub64, mul64}
use whdd_modify.Procedure.{BlockStatus, BlockReport, Progress}
use whdd_modify.Procedure
use whdd_modify.Probe.{Timespec}
use whdd_modify.Render.SlidingWindow.{elapsed_ms}
use whdd_modify.ReadTest.Stats.{status_number, tier, increment}

-- The fields of `WholeSpace` that are counted with; the thresholds are those of `bs_vis`.
pub record WholeSpace : Type 0 where
  pub vis_thresholds : List ℕ
  pub blocks_map : List ℕ
  pub sectors_per_block : ℕ
  pub access_time_stats_accum : List ℕ
  pub error_stats_accum : List ℕ
  pub bytes_processed : ℕ
  pub start_time : Timespec
  pub avg_processing_speed : ℕ
  pub eta_time : ℕ
  pub reports_handled : ℕ
  pub cur_lba : ℕ
  pub unread_count : ℕ
  pub read_ok_count : ℕ
  pub errors_count : ℕ

-- `error_stats_accum[status]++`: the array has six elements, and status 6 is the field behind it.
unfoldable pub count_error : ℕ → WholeSpace → WholeSpace
count_error status w =
    if status == 6
    then record w { bytes_processed = add64 w.bytes_processed 1 }
    else record w { error_stats_accum = increment status w.error_stats_accum }

-- A block's status is 1 after a read, 2 after an error.
unfoldable pub update_blocks_info : WholeSpace → BlockReport → WholeSpace
unfolding count_error
update_blocks_info w r =
    let block = r.lba / w.sectors_per_block in
    let counted = count_error (status_number r.blk_status) w in
    if Procedure.failed r.blk_status
    then record counted {
      blocks_map = set w.blocks_map block 2;
      errors_count = add64 w.errors_count r.sectors_processed;
      unread_count = sub64 w.unread_count r.sectors_processed;
    }
    else record w {
      blocks_map = set w.blocks_map block 1;
      access_time_stats_accum =
          increment (tier r.blk_access_time w.vis_thresholds) w.access_time_stats_accum;
      read_ok_count = add64 w.read_ok_count r.sectors_processed;
      unread_count = sub64 w.unread_count r.sectors_processed;
    }

-- The loop of `render_queued` over the reports in the queue.
unfoldable pub render_reports : WholeSpace → List BlockReport → WholeSpace
render_reports w [] = w
render_reports w (r ∷ rs) = render_reports (update_blocks_info w r) rs

-- The speed and the remaining time in `HandleReport`, after so many milliseconds.
unfoldable pub update_eta : ℕ → ℕ → WholeSpace → WholeSpace
update_eta time_elapsed_ms den w =
    if ltb 0 time_elapsed_ms
    then record w {
      avg_processing_speed = mul64 w.bytes_processed 1000 / time_elapsed_ms;
      eta_time =
          if ltb 0 w.reports_handled && ltb w.reports_handled den
          then mul64 (den - w.reports_handled) (time_elapsed_ms / w.reports_handled) / 1000
          else w.eta_time;
    }
    else w

-- `HandleReport` but for the ring buffer, which is that of cui/sliding_window_renderer.c. The time is
-- asked for at the first report and at every tenth; `none` is an `assert` that fails.
unfoldable pub handle_report :
    Option Timespec → Progress → BlockReport → WholeSpace → Option WholeSpace
handle_report clock p r w =
    let v = record w {
      bytes_processed = add64 w.bytes_processed (mul64 r.sectors_processed 512);
      cur_lba = add64 r.lba r.sectors_processed;
      reports_handled = add64 w.reports_handled 1;
    } in
    if v.reports_handled == 1
    then (clock >>= λ now. some (record v { start_time = now }))
    else if v.reports_handled % 10 == 0
    then (clock >>= λ now. some (update_eta (elapsed_ms v.start_time now) p.den v))
    else some v

-- The size of `journal_chunk`
abbrev pub chunk_size : ℕ
chunk_size = 2 ^ 20

-- The loop of `Open` over the journal: the file's position, the chunk in memory, and the fields.
pub record Reading : Type 0 where
  pub position : ℕ
  pub journal_chunk : ℕ → ℕ
  pub statuses : List ℕ
  pub unread_count : ℕ
  pub read_ok_count : ℕ
  pub errors_count : ℕ

-- The geometry in the loop, and `read` at a position for a number of bytes: `none` is another value
-- than that number. The end LBA is behind the first sector of each block.
pub record Journal : Type 0 where
  pub nb_blocks : ℕ
  pub sectors_per_block : ℕ
  pub end_lba : ℕ
  pub sectors_in_last : ℕ
  pub read : ℕ → ℕ → Option (ℕ → ℕ)

unfoldable pub fetch : Journal → ℕ → Reading → Option Reading
fetch j lba s =
    let chunklen = if ltb (j.end_lba - lba) chunk_size then j.end_lba - lba else chunk_size in
    if lba % chunk_size == 0
    then elim (j.read s.position chunklen) [
      | none ↦ none
      | some bytes ↦ some (record s { position = s.position + chunklen; journal_chunk = bytes })
    ]
    else some s

-- The switch on the status.
unfoldable pub count_block : ℕ → ℕ → Reading → Reading
count_block status sectors s =
    if status == 0
    then record s { unread_count = add64 s.unread_count sectors }
    else if status == 1
    then record s { read_ok_count = add64 s.read_ok_count sectors }
    else if status == 2 || status == 3
    then record s { errors_count = add64 s.errors_count sectors }
    else s

abbrev pub sectors_in_block : Journal → ℕ → ℕ
sectors_in_block j i = if i + 1 == j.nb_blocks then j.sectors_in_last else j.sectors_per_block

-- From block `i` on, with the blocks left. The statuses are in order.
unfoldable pub read_blocks : Journal → ℕ → ℕ → Reading → Option Reading
read_blocks j zero i s = some s
read_blocks j (suc left) i s = elim (fetch j (i * j.sectors_per_block) s) [
  | none ↦ none
  | some t ↦
      let status = t.journal_chunk (i * j.sectors_per_block % chunk_size) in
      elim (read_blocks j left (i + 1) (count_block status (sectors_in_block j i) t)) [
        | none ↦ none
        | some u ↦ some (record u { statuses = status ∷ u.statuses })
      ]
]

-- What `Open` takes from the device, the procedure and its options, and what it gets from the system:
-- whether the terminal is large enough, `calloc` succeeds, and the render thread starts.
pub record Shown : Type 0 where
  pub fits_terminal : Bool
  pub allocates : Bool
  pub starts_thread : Bool
  pub capacity : ℕ
  pub blk_size : ℕ
  pub den : ℕ
  pub end_lba : ℕ
  pub use_journal : Bool
  pub thresholds : List ℕ

abbrev pub nb_blocks_of : Shown → ℕ
nb_blocks_of x =
    if x.capacity % x.blk_size == 0 then x.capacity / x.blk_size else x.capacity / x.blk_size + 1

abbrev pub journal_of : Shown → (ℕ → ℕ → Option (ℕ → ℕ)) → Journal
journal_of x read = record {
  nb_blocks = nb_blocks_of x;
  sectors_per_block = x.blk_size / 512;
  end_lba = x.end_lba;
  sectors_in_last = x.capacity % x.blk_size / 512;
  read = read;
}

-- `pthread_create` at the end, whose failure is returned.
abbrev pub start_thread : Shown → WholeSpace → Option WholeSpace
start_thread x w = if x.starts_thread then some w else none

-- `Open` but for the windows; `none` is a return value that is not 0, or the `assert` on `calloc`.
unfoldable pub open_whole_space : Shown → (ℕ → ℕ → Option (ℕ → ℕ)) → Option WholeSpace
open_whole_space x read =
    let start : WholeSpace = record {
      vis_thresholds = x.thresholds;
      blocks_map = replicate (nb_blocks_of x) 0;
      sectors_per_block = x.blk_size / 512;
      access_time_stats_accum = replicate 6 0;
      error_stats_accum = replicate 6 0;
      bytes_processed = 0;
      start_time = record { tv_sec = 0; tv_nsec = 0 };
      avg_processing_speed = 0;
      eta_time = 0;
      reports_handled = 0;
      cur_lba = 0;
      unread_count = x.den;
      read_ok_count = 0;
      errors_count = 0;
    } in
    let rewound : Reading = record {
      position = 0;
      journal_chunk = λ k. 0;
      statuses = [];
      unread_count = 0;
      read_ok_count = 0;
      errors_count = 0;
    } in
    if not x.fits_terminal || not x.allocates
    then none
    else if x.use_journal
    then elim (read_blocks (journal_of x read) (nb_blocks_of x) 0 rewound) [
      | none ↦ none
      | some r ↦ start_thread x (record start {
        blocks_map = r.statuses;
        unread_count = r.unread_count;
        read_ok_count = r.read_ok_count;
        errors_count = r.errors_count;
      })
    ]
    else start_thread x start
