-- ===== src/ReadTest/Run.antt =====
-- The whole read test: `Perform` of libdevcheck/read_test.c under the loop of
-- libdevcheck/procedure.c.
use whdd_modify.Prelude.{
  ℕ, ◌+◌, ◌*◌, ◌^◌, ◌<◌, ◌≤◌, ◌≡◌, ◌≢◌, ◌⊎◌, Bool, true, Option, none, some, List, sum,
}
use whdd_modify.Procedure.Loop.{Exit, completed, running, loop}
use whdd_modify.ReadTest.Perform.{ReadCtx, System, perform}
use whdd_modify.ReadTest.Perform.Request.{Requested}
use whdd_modify.ReadTest.Perform.Round.{IsReady}
use whdd_modify.ReadTest.Intervals.Marks.{mark}
use whdd_modify.ReadTest.Stats.{defect_type}
use whdd_modify.Procedure.{ata, BlockReport}

-- A system in which the few allocations succeed, and a read gives no more bytes than it is asked for.
abbrev pub Works : Type 0
Works =
    (y : System) × (y.realloc_works ≡ true)
    × ((offset bytes n : ℕ) → y.read offset bytes ≡ some n → n ≤ bytes)

unfoldable pub run :
    {U : Type 0}
    → (ReadCtx → U → U × ℕ)
    → List (Bool × Works)
    → ReadCtx
    → U
    → Option (ReadCtx × U × Exit)
run callback =
    loop (λ c. c.progress.num) (λ c. c.progress.den) (λ c w. some (perform w.0 c)) callback

-- The block that a sector was checked in: it was asked for at its own place, and the sector has the
-- type of the answer.
pub record Checked (s : ReadCtx) (k : ℕ) : Type 0 where
  pub system : System
  pub report : BlockReport
  pub from : report.lba ≤ k
  pub to : k < report.lba + report.sectors_processed
  pub one_block : report.sectors_processed ≤ s.priv.sectors_at_once
  pub asked :
      Requested s.priv.api system
        (512 * report.lba)
        report.lba
        report.sectors_processed
        report.blk_status
  pub marked : mark s.priv.intervals k ≡ defect_type s.priv.stats.vis_thresholds report

-- The file offset is at the next sector, if it matters.
abbrev pub IsAt : ReadCtx → Type 0
IsAt c = (c.priv.api ≡ ata) ⊎ (c.position ≡ 512 * c.priv.current_lba)

-- No read through the POSIX API has failed since.
abbrev pub IsInStep : ReadCtx → ReadCtx → Type 0
IsInStep c s =
    (c.priv.api ≡ ata) ⊎ (s.priv.stats.blocks_with_errors ≡ c.priv.stats.blocks_with_errors)

record Follows (c s : ReadCtx) : Type 0 where
  ready : IsReady s
  same_end : s.priv.end_lba ≡ c.priv.end_lba
  same_den : s.progress.den ≡ c.progress.den
  same_api : s.priv.api ≡ c.priv.api
  same_at_once : s.priv.sectors_at_once ≡ c.priv.sectors_at_once
  errors : c.priv.stats.blocks_with_errors ≤ s.priv.stats.blocks_with_errors
  position : IsInStep c s → IsAt s
  checked : IsInStep c s → (k : ℕ) → c.priv.current_lba ≤ k → k < s.priv.current_lba → Checked s k

-- A run that has ended; a completed one has checked up to the end, and counted every block once.
abbrev pub ScanEnded : {U : Type 0} → ReadCtx → Option (ReadCtx × U × Exit) → Type 0
ScanEnded c none = ⊥
ScanEnded c (some (s, u, e)) =
    (e ≢ running)
    × IsReady s
    × (e ≡ completed
        → (s.priv.current_lba ≡ c.priv.end_lba)
          × (sum s.priv.stats.access_time_stats + sum s.priv.stats.error_stats ≡ c.progress.den)
          × (s.priv.stats.blocks_with_errors ≡ sum s.priv.stats.error_stats)
          × (IsInStep c s → (k : ℕ) → c.priv.current_lba ≤ k → k < c.priv.end_lba → Checked s k))

-- One round more.
module _ (c s : ReadCtx) (w : Works) (f : Follows c s) (few : c.priv.sectors_at_once < 2 ^ 22)
    (more : s.progress.num < s.progress.den) where
  abbrev next : ReadCtx
  next = (perform w.0 s).0
