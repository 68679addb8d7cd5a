-- ===== src/Copy/State.antt =====
-- `struct copy_priv` of libdevcheck/copy.h, without the option strings and the descriptors, and the
-- constants of that file.
use whdd_modify.Prelude.{ℕ, ◌*◌, Bool, true, false, Option, List}
use whdd_modify.Procedure.{Api}
use whdd_modify.Copy.Zones.{Zone}

pub data ReadStrategy : Type 0 where
  plain smart smart_no_reverse skipfail skipfail_no_reverse : ReadStrategy

abbrev pub is_smart_no_reverse : ReadStrategy → Bool
is_smart_no_reverse ReadStrategy.smart_no_reverse = true
is_smart_no_reverse _ = false

abbrev pub is_skipfail_no_reverse : ReadStrategy → Bool
is_skipfail_no_reverse ReadStrategy.skipfail_no_reverse = true
is_skipfail_no_reverse _ = false

abbrev pub sectors_at_once : ℕ
sectors_at_once = 256

abbrev pub blk_size : ℕ
blk_size = sectors_at_once * 512

abbrev pub indivisible_defect_zone_size_sectors : ℕ
indivisible_defect_zone_size_sectors = 1000 * 1000

-- `next_addr` and `allocates` are the allocator: the next `calloc` of a zone returns this address, or
-- null. `stage` is the strategy's
-- private `SmartStrategyCtx`. LBAs are int64_t that no branch lets fall below 0.
pub record CopyPriv : Type 0 where
  pub skip_blocks : ℕ
  pub api : Api
  pub read_strategy : ReadStrategy
  pub use_journal : Bool
  pub start_lba : ℕ
  pub end_lba : ℕ
  pub lba_to_process : ℕ
  pub dst_file_end_lba : ℕ
  pub blk_index : ℕ
  pub unread_zones : List Zone
  pub nb_zones : ℕ
  pub current_zone : Option ℕ
  pub current_zone_read_direction_reversive : Bool
  pub stage : ℕ
  pub next_addr : ℕ
  pub allocates : Bool
