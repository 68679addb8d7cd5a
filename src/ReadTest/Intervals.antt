-- ===== src/ReadTest/Intervals.antt =====
-- The defect intervals of libdevcheck/read_test.c. A type is 1 for severe, 2 for damaged and 3 for
-- slow; 0 is no type.
pub mod Marks
pub mod Report
use whdd_modify.Prelude.{ℕ, Bool, ◌&&◌, List, [], ◌∷◌, ◌++◌, ◌==◌, if◌then◌else◌}
use whdd_modify.Prelude.Words.{add64}

-- `struct dg_interval`; the last sector belongs to the interval.
pub record Interval : Type 0 where
  pub begin_lba : ℕ
  pub end_lba : ℕ
  pub type : ℕ

-- The fields `dg_*` of `struct read_priv`; `nb_dg_intervals` is the length of the list.
pub record Intervals : Type 0 where
  pub dg_intervals : List Interval
  pub dg_cur_begin : ℕ
  pub dg_cur_end : ℕ
  pub dg_cur_type : ℕ

abbrev pub cur : Intervals → Interval
cur v = record { begin_lba = v.dg_cur_begin; end_lba = v.dg_cur_end; type = v.dg_cur_type }

unfoldable pub begin_interval : Intervals → ℕ → ℕ → ℕ → Intervals
begin_interval v lba end_lba type = record v {
  dg_cur_begin = lba;
  dg_cur_end = end_lba;
  dg_cur_type = type;
}

-- From the label `flush` on; `enough` tells whether `realloc` succeeds.
unfoldable pub flush : Bool → Intervals → ℕ → ℕ → ℕ → Intervals
flush enough v lba end_lba type =
    let flushed = record v { dg_intervals = v.dg_intervals ++ (cur v ∷ []); dg_cur_type = 0 } in
    if enough then if type == 0 then flushed else begin_interval flushed lba end_lba type else v

unfoldable pub dg_interval_update : Bool → Intervals → ℕ → ℕ → ℕ → Intervals
dg_interval_update enough v lba end_lba type =
    if type == 0
    then if v.dg_cur_type == 0 then v else flush enough v lba end_lba type
    else if v.dg_cur_type == type && lba == add64 v.dg_cur_end 1
    then record v { dg_cur_end = end_lba }
    else if v.dg_cur_type == 0
    then begin_interval v lba end_lba type
    else flush enough v lba end_lba type
