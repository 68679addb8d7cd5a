-- ===== src/WriteZeros.antt =====
-- The zero filling: libdevcheck/posix_write_zeros.c.
pub mod Round
pub mod Run
pub mod Open
mod Tests
use whdd_modify.Prelude.{
  ℕ, ◌+◌, ◌-◌, ◌*◌, ◌/◌, ◌%◌, ◌^◌, Bool, Option, none, some, ◌==◌, if◌then◌else◌, not,
}
use whdd_modify.Prelude.Words.{add64, sub64, mul64, slt64, sdiv64, srem64}
use whdd_modify.Procedure.{BlockStatus, Progress, BlockReport}
use whdd_modify.Copy.Perform.{overwrite, or_zero, is_exactly}

abbrev pub sectors_at_once : ℕ
sectors_at_once = 256

abbrev pub blk_size : ℕ
blk_size = sectors_at_once * 512

-- `struct posix_write_zeros_priv` without the buffer and the descriptor.
pub record PosixWriteZerosPriv : Type 0 where
  pub start_lba : ℕ
  pub end_lba : ℕ
  pub lba_to_process : ℕ
  pub blk_index : ℕ

-- `DC_ProcedureCtx`, the file offset of the descriptor, and the bytes of the device.
pub record ZerosCtx : Type 0 where
  pub priv : PosixWriteZerosPriv
  pub progress : Progress
  pub report : BlockReport
  pub position : ℕ
  pub device : ℕ → ℕ

-- How the system answers `write` at a file offset for a number of bytes; `none` is -1.
pub record System : Type 0 where
  pub write : ℕ → ℕ → Option ℕ
  pub access_time : ℕ

-- `Open`; the LBAs are int64_t. `none` is the return value 1.
unfoldable pub open_write_zeros : ℕ → ℕ → (ℕ → ℕ) → Bool → Bool → Option ZerosCtx
open_write_zeros capacity start_lba device allocates opens =
    let left = sub64 (capacity / 512) start_lba in
    if not allocates
    then none
    else if not opens
    then none
    else some (record {
      priv = record {
        start_lba = start_lba;
        end_lba = capacity / 512;
        lba_to_process = left;
        blk_index = 0;
      };
      progress = record {
        num = 0;
        den =
            if srem64 left sectors_at_once == 0
            then sdiv64 left sectors_at_once
            else add64 (sdiv64 left sectors_at_once) 1;
      };
      report = record {
        lba = 0;
        sectors_processed = 0;
        blk_access_time = 0;
        blk_status = BlockStatus.ok;
      };
      position = if slt64 (mul64 512 start_lba) 0 then 0 else mul64 512 start_lba;
      device = device;
    })

unfoldable pub sectors_to_write : PosixWriteZerosPriv → ℕ
sectors_to_write p =
    if slt64 p.lba_to_process sectors_at_once then p.lba_to_process else sectors_at_once

unfoldable pub perform : System → ZerosCtx → ZerosCtx × ℕ
perform y c =
    let p = c.priv in
    let sectors = sectors_to_write p in
    let ret = y.write c.position (sectors * 512) in
    let good = is_exactly ret (sectors * 512) in
    (
      record {
        priv = record p {
          blk_index = add64 p.blk_index 1;
          lba_to_process = sub64 p.lba_to_process sectors;
        };
        progress = record (c.progress) { num = add64 c.progress.num 1 };
        report = record {
          lba = add64 p.start_lba (mul64 sectors_at_once p.blk_index);
          sectors_processed = sectors;
          blk_access_time = y.access_time;
          blk_status = if good then BlockStatus.ok else BlockStatus.error;
        };
        position =
            if good
            then add64 c.position (sectors * 512)
            else add64 (mul64 512 p.start_lba) (mul64 blk_size (add64 p.blk_index 1));
        device = overwrite c.device c.position (λ _. 0) (or_zero ret);
      },
      0,
    )
