-- ===== src/ReadTest/Tests.antt =====
-- The read test on a concrete disk of 10 sectors, read 4 at once.
use whdd_modify.ReadTest.Intervals.Report.Counts.{sectors_of, count_sectors-marks}
use whdd_modify.ReadTest.Intervals.Report.{count_sectors, flush_open}
use whdd_modify.Prelude.{
  ℕ, ◌+◌, ◌*◌, ◌≤◌, ◌≡◌, ◌↔◌, refl, inr, Bool, true, false, some, List, [], ◌∷◌, arith, ◌-◌, ◌/◌,
}
use whdd_modify.Procedure.{posix, BlockStatus, BlockReport, failed}
use whdd_modify.ReadTest.Intervals.{Intervals, dg_interval_update}
use whdd_modify.ReadTest.Intervals.Marks.{IsChain, Marks, dg_interval_update-Marks, mark}
use whdd_modify.ReadTest.Stats.{Stats, tier, defect_type, accumulate, dc_get_vis_thresholds}
use whdd_modify.ReadTest.Stats.Tiers.{IsCounted, Adds, accumulate-IsCounted, defect_type-tier}
use whdd_modify.ReadTest.Perform.{ReadCtx, System, perform}
use whdd_modify.ReadTest.Perform.Round.{IsReady, Tried, perform-Tried}
use whdd_modify.ReadTest.Perform.Position.{perform-position}
use whdd_modify.ReadTest.Open.{Options, Device, open_read_test}
use whdd_modify.ReadTest.Open.Guards.{Opened, open_read_test-Opened}
use whdd_modify.ReadTest.Run.{Works}

-- An interval of damaged sectors is open.
abbrev damaged : Intervals
damaged = record {
  dg_intervals = record { begin_lba = 0; end_lba = 3; type = 3 } ∷ [];
  dg_cur_begin = 4;
  dg_cur_end = 7;
  dg_cur_type = 2;
}

damaged-IsChain : IsChain 8 damaged
damaged-IsChain = record {
  lo = 4;
  prev = 3;
  chain = ground arith;
  below = omega arith;
  open_next = λ e. ground arith;
  open_below = λ e. omega arith;
  gap = λ e. inr (omega arith);
}

dg_interval_update-Marks_example : Marks damaged 8 9 2 5 (dg_interval_update true damaged 8 9 2)
dg_interval_update-Marks_example =
    dg_interval_update-Marks damaged 8 8 9 2 5 damaged-IsChain (omega arith) (omega arith)
      (omega arith)

abbrev stats : Stats
stats = record {
  vis_thresholds = 46 ∷ 156 ∷ 781 ∷ 2343 ∷ 7812 ∷ [];
  access_time_stats = 0 ∷ 0 ∷ 0 ∷ 0 ∷ 1 ∷ 0 ∷ [];
  error_stats = 0 ∷ 1 ∷ 0 ∷ 0 ∷ 0 ∷ 0 ∷ 0 ∷ [];
  blocks_processed = 2;
  blocks_with_errors = 1;
  total_access_time = 5000;
  first_error_lba = some 4;
  last_error_lba = 7;
}

stats-IsCounted : IsCounted stats
stats-IsCounted = record {
  tiers = refl;
  errors = refl;
  all_blocks = refl;
  bad_blocks = refl;
  small = omega arith;
}

abbrev slow_block : BlockReport
slow_block = record {
  lba = 8;
  sectors_processed = 2;
  blk_access_time = 3000;
  blk_status = BlockStatus.ok;
}

accumulate-IsCounted_example :
    IsCounted (accumulate stats slow_block) × Adds stats slow_block (accumulate stats slow_block)
accumulate-IsCounted_example = accumulate-IsCounted stats slow_block stats-IsCounted (omega arith)

defect_type-tier_example :
    let hs = dc_get_vis_thresholds 4 in
    ((defect_type hs slow_block ≡ 2) ↔ (false ≡ true))
    × (false ≡ false
        → ((defect_type hs slow_block ≡ 1) ↔ (tier 3000 hs ≡ 5))
          × ((defect_type hs slow_block ≡ 3) ↔ (tier 3000 hs ≡ 4)))
defect_type-tier_example = defect_type-tier 4 slow_block (omega arith)

-- Two blocks are done, the second of which failed.
abbrev halfway : ReadCtx
halfway = record {
  priv = record {
    api = posix;
    start_lba = 0;
    sectors_at_once = 4;
    end_lba = 10;
    lba_to_process = 2;
    current_lba = 8;
    stats = stats;
    intervals = damaged;
  };
  progress = record { num = 2; den = 3 };
  report = record {
    lba = 4;
    sectors_processed = 4;
    blk_access_time = 40;
    blk_status = BlockStatus.error;
  };
  position = 2048;
}

at-IsReady : (position : ℕ) → IsReady (record halfway { position = position })
at-IsReady position = record {
  at_once = omega arith;
  at_once_small = omega arith;
  left = refl;
  small = omega arith;
  started = omega arith;
  rounds_left = omega arith;
  last_round = λ l. omega arith;
  in_bounds = omega arith;
  few_rounds = omega arith;
  counted = stats-IsCounted;
  processed = refl;
  chained = damaged-IsChain;
}

halfway-IsReady : IsReady halfway
halfway-IsReady = at-IsReady 2048

-- Every `read` returns half of the bytes.
abbrev system : System
system = record {
  ioctl = λ c. (true, c);
  read = λ offset bytes. some (bytes - bytes / 2);
  access_time = 3000;
  realloc_works = true;
}

perform-Tried_example : Tried system halfway (perform system halfway).0
perform-Tried_example = perform-Tried system halfway halfway-IsReady refl (omega arith)

reads_no_more : (bytes n : ℕ) → some (bytes - bytes / 2) ≡ some n → n ≤ bytes
reads_no_more bytes n e = ground arith

perform-position_example :
    let c = (perform system halfway).0 in
    (failed c.report.blk_status ≡ false → c.position + 512 * 8 ≡ 2048 + 512 * c.priv.current_lba)
    × (failed c.report.blk_status ≡ true
        → (c.position ≡ 512 * c.report.lba)
          × (c.position + 512 * c.report.sectors_processed ≡ 512 * c.priv.current_lba))
perform-position_example =
    perform-position system halfway halfway-IsReady refl (omega arith) (omega arith)
      (λ offset bytes n e. reads_no_more bytes n e) refl (omega arith)

abbrev disk : Device
disk = record { ata_capable = true; capacity = 5120 }

abbrev options : Options
options = record { api = some posix; start_lba = 2; end_lba = 10; sectors_at_once = 4 }

open_read_test-Opened_example :
    Opened disk options true true (open_read_test disk options true true)
open_read_test-Opened_example =
    open_read_test-Opened disk options true true (omega arith) (omega arith) (omega arith)
      (omega arith)

all_of : (bytes n : ℕ) → some bytes ≡ some n → n ≤ bytes
all_of bytes n e = ground arith

-- Every `read` returns all bytes.
abbrev sound : Works
sound = (
  record system { read = λ offset bytes. some bytes },
  refl,
  λ offset bytes n e. all_of bytes n e,
)

-- The file offset is at the next sector.
abbrev in_step : ReadCtx
in_step = record halfway { position = 4096 }

abbrev rounds : List (Bool × Works)
rounds = (false, sound) ∷ (false, sound) ∷ []

-- The frontend adds up the sectors of the reports.
abbrev add_up : ReadCtx → ℕ → ℕ × ℕ
add_up c n = (n + c.report.sectors_processed, 0)

count_sectors-marks_example :
    count_sectors 2 (flush_open true damaged).dg_intervals ≡ sectors_of (mark damaged) 2 8
count_sectors-marks_example =
    count_sectors-marks damaged 8 2 damaged-IsChain (omega arith) (λ e. cc)
