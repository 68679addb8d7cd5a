-- ===== src/ReadTest/Open.antt =====
-- `Open` of libdevcheck/read_test.c.
pub mod Guards
use whdd_modify.Prelude.{
  ℕ, ◌+◌, ◌/◌, ◌%◌, Bool, true, false, not, ◌&&◌, Option, none, some, [], ltb, ◌==◌, if◌then◌else◌,
  replicate, ◌>>=◌,
}
use whdd_modify.Prelude.Words.{sub64, mul64, slt64}
use whdd_modify.Procedure.{Api, ata, posix, BlockStatus}
use whdd_modify.ReadTest.Stats.{vis_threshold_count, dc_get_vis_thresholds}
use whdd_modify.ReadTest.Perform.{ReadCtx, seek}

-- The options; `api` is `none` where `api_str` is neither "ata" nor "posix". The numbers are int64_t.
pub record Options : Type 0 where
  pub api : Option Api
  pub start_lba : ℕ
  pub end_lba : ℕ
  pub sectors_at_once : ℕ

-- What `Open` reads of a `DC_Dev`.
pub record Device : Type 0 where
  pub ata_capable : Bool
  pub capacity : ℕ

abbrev pub is_ata : Api → Bool
is_ata ata = true
is_ata posix = false

-- The context as `calloc` and the guards leave it.
unfoldable pub set_up : Api → Options → ReadCtx
set_up api o =
    let to_process = sub64 o.end_lba o.start_lba in
    record {
      priv = record {
        api = api;
        start_lba = o.start_lba;
        sectors_at_once = o.sectors_at_once;
        end_lba = o.end_lba;
        lba_to_process = to_process;
        current_lba = o.start_lba;
        stats = record {
          vis_thresholds = dc_get_vis_thresholds o.sectors_at_once;
          access_time_stats = replicate (vis_threshold_count + 1) 0;
          error_stats = replicate 7 0;
          blocks_processed = 0;
          blocks_with_errors = 0;
          total_access_time = 0;
          first_error_lba = none;
          last_error_lba = 0;
        };
        intervals = record { dg_intervals = []; dg_cur_begin = 0; dg_cur_end = 0; dg_cur_type = 0 };
      };
      progress = record {
        num = 0;
        den =
            to_process / o.sectors_at_once + (if to_process % o.sectors_at_once == 0 then 0 else 1);
      };
      report = record {
        lba = 0;
        sectors_processed = 0;
        blk_access_time = 0;
        blk_status = BlockStatus.ok;
      };
      position = seek 0 (mul64 512 o.start_lba);
    }

-- `none` is the return value 1. `allocates` and `opens` tell whether `posix_memalign` and `open` succeed.
-- The comparison of `end_lba` with `capacity / 512` is one of uint64_t.
unfoldable pub open_read_test : Device → Options → Bool → Bool → Option ReadCtx
open_read_test d o allocates opens = o.api >>= λ api.
    if is_ata api && not d.ata_capable
    then none
    else if not (slt64 0 o.sectors_at_once)
    then none
    else if not (slt64 o.start_lba o.end_lba)
    then none
    else if ltb (d.capacity / 512) o.end_lba
    then none
    else if not (slt64 0 (sub64 o.end_lba o.start_lba))
    then none
    else if not (is_ata api) && not allocates
    then none
    else if not opens
    then none
    else some (set_up api o)
