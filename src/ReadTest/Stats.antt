-- ===== src/ReadTest/Stats.antt =====
-- The report accumulators of libdevcheck/read_test.c, and the access time tiers of
-- `dc_get_vis_thresholds` in libdevcheck/utils.c.
pub mod Tiers
use whdd_modify.Prelude.{
  ℕ, zero, suc, ◌+◌, ◌-◌, ◌*◌, ◌/◌, Bool, Option, none, some, List, [], ◌∷◌, map, ltb, leb, ◌==◌,
  if◌then◌else◌, get_or, replicate,
}
use whdd_modify.Prelude.Words.{add64, sub64, mul64}
use whdd_modify.Procedure.{BlockStatus, BlockReport, failed}

-- `DC_VIS_THRESHOLD_COUNT`
abbrev pub vis_threshold_count : ℕ
vis_threshold_count = 5

-- The thresholds of blocks of 256 sectors, in microseconds.
abbrev pub base : List ℕ
base = 3000 ∷ 10000 ∷ 50000 ∷ 150000 ∷ 500000 ∷ []

-- `sectors_at_once` is an int, and not negative.
unfoldable pub dc_get_vis_thresholds : ℕ → List ℕ
dc_get_vis_thresholds sectors_at_once = map (λ b. mul64 b sectors_at_once / 256) base

-- The accumulators of `struct read_priv`. `none` as the first error LBA is -1.
pub record Stats : Type 0 where
  pub vis_thresholds : List ℕ
  pub access_time_stats : List ℕ
  pub error_stats : List ℕ
  pub blocks_processed : ℕ
  pub blocks_with_errors : ℕ
  pub total_access_time : ℕ
  pub first_error_lba : Option ℕ
  pub last_error_lba : ℕ

-- The number of a status in `DC_BlockStatus`.
abbrev pub status_number : BlockStatus → ℕ
status_number BlockStatus.ok = 0
status_number BlockStatus.error = 1
status_number BlockStatus.timeout = 2
status_number BlockStatus.unc = 3
status_number BlockStatus.idnf = 4
status_number BlockStatus.abrt = 5
status_number BlockStatus.amnf = 6

-- The loop for the first threshold above an access time.
unfoldable pub tier : ℕ → List ℕ → ℕ
tier time [] = 0
tier time (h ∷ hs) = if ltb time h then 0 else suc (tier time hs)

-- `xs[i]++`
unfoldable pub increment : ℕ → List ℕ → List ℕ
increment i [] = []
increment zero (x ∷ xs) = add64 x 1 ∷ xs
increment (suc i) (x ∷ xs) = x ∷ increment i xs

-- `dg_type`
unfoldable pub defect_type : List ℕ → BlockReport → ℕ
defect_type thresholds r =
    if failed r.blk_status
    then 2
    else if leb (get_or thresholds (vis_threshold_count - 1) 0) r.blk_access_time
    then 1
    else if leb (get_or thresholds (vis_threshold_count - 2) 0) r.blk_access_time
    then 3
    else 0

abbrev pub last_lba : BlockReport → ℕ
last_lba r = sub64 (add64 r.lba r.sectors_processed) 1

unfoldable pub accumulate : Stats → BlockReport → Stats
accumulate s r =
    let t = record s {
      blocks_processed = add64 s.blocks_processed 1;
      total_access_time = add64 s.total_access_time r.blk_access_time;
    } in
    if failed r.blk_status
    then record t {
      error_stats = increment (status_number r.blk_status) t.error_stats;
      blocks_with_errors = add64 t.blocks_with_errors 1;
      first_error_lba = elim t.first_error_lba [ none ↦ some r.lba | some a ↦ some a ];
      last_error_lba = last_lba r;
    }
    else record t {
      access_time_stats = increment (tier r.blk_access_time t.vis_thresholds) t.access_time_stats;
    }
