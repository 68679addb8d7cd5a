-- ===== src/ReadTest/Intervals/Report.antt =====
-- The numbers of the defect list, `write_dg_report` of libdevcheck/read_test.c.
pub mod Counts
use whdd_modify.Prelude.{
  ℕ, zero, suc, ◌+◌, ◌-◌, Bool, true, Option, List, [], ◌∷◌, ◌++◌, ◌==◌, if◌then◌else◌,
}
use whdd_modify.Prelude.Words.{add64, sub64}
use whdd_modify.ReadTest.Intervals.{Interval, Intervals, dg_interval_update}

-- The interval that is open when the scan ends is put to the others.
unfoldable pub flush_open : Bool → Intervals → Intervals
flush_open enough v = if v.dg_cur_type == 0 then v else dg_interval_update enough v 0 0 0

abbrev pub interval_sectors : Interval → ℕ
interval_sectors x = add64 (sub64 x.end_lba x.begin_lba) 1

-- `counts[type]`
unfoldable pub count_sectors : ℕ → List Interval → ℕ
count_sectors type [] = 0
count_sectors type (x ∷ xs) =
    let rest = count_sectors type xs in
    if x.type == type then add64 (interval_sectors x) rest else rest
