-- ===== src/ReadTest/Perform.antt =====
-- `Perform` of libdevcheck/read_test.c, and the device that it works on.
pub mod Request
pub mod Round
pub mod Position
use whdd_modify.Prelude.{
  ℕ, ◌+◌, ◌-◌, ◌*◌, ◌%◌, ◌^◌, Bool, true, false, not, Option, none, some, ltb, leb, ◌==◌,
  if◌then◌else◌,
}
use whdd_modify.Prelude.Words.{add64, sub64, mul64, slt64}
use whdd_modify.Procedure.{Api, ata, posix, BlockStatus, failed, Progress, BlockReport}
use whdd_modify.Ata.{prepare_ata_command}
use whdd_modify.Scsi.{ScsiCommand, prepare_scsi_command_from_ata, scsi_ata_check_return_status}
use whdd_modify.ReadTest.Intervals.{Intervals, dg_interval_update}
use whdd_modify.ReadTest.Stats.{Stats, defect_type, accumulate, last_lba}

-- `struct read_priv`, without the strings, the buffers and the descriptor. The LBAs are int64_t.
pub record ReadPriv : Type 0 where
  pub api : Api
  pub start_lba : ℕ
  pub sectors_at_once : ℕ
  pub end_lba : ℕ
  pub lba_to_process : ℕ
  pub current_lba : ℕ
  pub stats : Stats
  pub intervals : Intervals

-- `DC_ProcedureCtx` of a read test, and the file offset of the descriptor of the device.
pub record ReadCtx : Type 0 where
  pub priv : ReadPriv
  pub progress : Progress
  pub report : BlockReport
  pub position : ℕ

-- How the system answers the calls of one `Perform`. `ioctl` returns whether it fails, and the command
-- as the driver leaves it. `read` is asked at a file offset for a number of bytes; `none` is -1.
pub record System : Type 0 where
  pub ioctl : ScsiCommand → Bool × ScsiCommand
  pub read : ℕ → ℕ → Option ℕ
  pub access_time : ℕ
  pub realloc_works : Bool

unfoldable pub sectors_to_read : ReadPriv → ℕ
sectors_to_read p =
    if slt64 p.lba_to_process p.sectors_at_once then p.lba_to_process else p.sectors_at_once

-- WIN_VERIFY_EXT
unfoldable pub verify_command : ℕ → ℕ → ScsiCommand
verify_command lba sectors = prepare_scsi_command_from_ata (prepare_ata_command 0x42 lba sectors)

-- `(int)read_ret == (int)sectors_to_read * 512`, on the bits of an int. The bits of -1 are no
-- multiple of 512.
abbrev pub reads_all : Option ℕ → ℕ → Bool
reads_all none sectors = false
reads_all (some n) sectors = n % 2 ^ 32 == sectors * 512 % 2 ^ 32

-- `lseek(fd, offset, SEEK_SET)`: a negative offset is refused, and the position stays.
abbrev pub seek : ℕ → ℕ → ℕ
seek position offset = if slt64 offset 0 then position else offset

-- Reading: the status, the return value of `Perform` and the file offset.
unfoldable pub act : System → ReadPriv → ℕ → ℕ → BlockStatus × ℕ × ℕ
act y p sectors position = elim p.api [
  | ata ↦
      let answer = y.ioctl (verify_command p.current_lba sectors) in
      (scsi_ata_check_return_status answer.1, if answer.0 then 1 else 0, position)
  | posix ↦ elim (y.read position (sectors * 512)) [
    | none ↦ (BlockStatus.error, 0, seek position (mul64 512 p.current_lba))
    | some n ↦
        if reads_all (some n) sectors
        then (BlockStatus.ok, 0, add64 position n)
        else (BlockStatus.error, 0, seek position (mul64 512 p.current_lba))
  ]
]

abbrev pub report_of : System → ReadPriv → ℕ → BlockStatus → BlockReport
report_of y p sectors status = record {
  lba = p.current_lba;
  sectors_processed = sectors;
  blk_access_time = y.access_time;
  blk_status = status;
}

unfoldable pub perform : System → ReadCtx → ReadCtx × ℕ
perform y c =
    let p = c.priv in
    let sectors = sectors_to_read p in
    let answer = act y p sectors c.position in
    let report = report_of y p sectors answer.0 in
    (
      record {
        priv = record p {
          lba_to_process = sub64 p.lba_to_process sectors;
          current_lba = add64 p.current_lba sectors;
          stats = accumulate p.stats report;
          intervals =
              dg_interval_update y.realloc_works p.intervals report.lba (last_lba report)
                (defect_type p.stats.vis_thresholds report);
        };
        progress = record (c.progress) { num = add64 c.progress.num 1 };
        report = report;
        position = answer.2;
      },
      answer.1,
    )
