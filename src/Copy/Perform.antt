-- ===== src/Copy/Perform.antt =====
-- `Perform` of libdevcheck/copy.c, the device and the files that it works on.
use whdd_modify.Prelude.{
  ℕ, ◌+◌, ◌-◌, ◌*◌, Bool, false, not, ◌&&◌, Option, none, some, ltb, leb, ◌==◌, if◌then◌else◌, set,
  ◌>>=◌, ◌>>◌, assert,
}
use whdd_modify.Prelude.Words.{add64, sub64}
use whdd_modify.Procedure.{Api, ata, posix, BlockStatus, failed, Progress, BlockReport}
use whdd_modify.Ata.{prepare_ata_command}
use whdd_modify.Scsi.{
  from_dev, ScsiCommand, prepare_scsi_command_from_ata, scsi_ata_check_return_status,
}
use whdd_modify.Copy.State.{CopyPriv, blk_size}
use whdd_modify.Copy.Strategies.{Task, given, refused, get_task, use_results}

-- What `ioctl(SG_IO)` does: whether it fails, and the command and the buffer as it leaves them.
pub record SgAnswer : Type 0 where
  pub fails : Bool
  pub command : ScsiCommand
  pub data_read : ℕ → ℕ

-- What `read` does: `none` is the return value -1.
pub record ReadAnswer : Type 0 where
  pub ret : Option ℕ
  pub data_read : ℕ → ℕ

-- How the kernel answers the calls of one `Perform`. Reads and writes are asked at a file offset for a
-- number of bytes: each follows an `lseek`.
pub record Kernel : Type 0 where
  pub ioctl : ScsiCommand → SgAnswer
  pub read : ℕ → ℕ → ReadAnswer
  pub write : ℕ → ℕ → Option ℕ
  pub write_journal : ℕ → ℕ → Option ℕ
  pub access_time : ℕ

-- `DC_ProcedureCtx` of a copy, with the contents of the destination and of the journal, a byte to
-- each offset.
pub record CopyCtx : Type 0 where
  pub priv : CopyPriv
  pub progress : Progress
  pub report : BlockReport
  pub dst : ℕ → ℕ
  pub journal : ℕ → ℕ

-- `SectorStatus`
abbrev pub unread : ℕ
unread = 0

abbrev pub read_ok : ℕ
read_ok = 1

abbrev pub block_read_error : ℕ
block_read_error = 2

abbrev pub sector_read_error : ℕ
sector_read_error = 3

-- `write(fd, buf, n)` at an offset, of which `done` bytes arrive.
abbrev pub overwrite : (ℕ → ℕ) → ℕ → (ℕ → ℕ) → ℕ → ℕ → ℕ
overwrite file offset buf done k =
    if leb offset k && ltb k (offset + done) then buf (k - offset) else file k

abbrev pub or_zero : Option ℕ → ℕ
or_zero none = 0
or_zero (some n) = n

abbrev pub is_exactly : Option ℕ → ℕ → Bool
is_exactly none n = false
is_exactly (some m) n = m == n

-- READ DMA EXT with the protocol and the transfer length that it needs.
unfoldable pub read_command : Task → ScsiCommand
read_command t = record c {
  io_hdr = record (c.io_hdr) { dxfer_direction = from_dev; dxfer_len = blk_size };
  scsi_cmd = set (set c.scsi_cmd 1 13) 2 0x0e;
}
  where
    c : ScsiCommand
    c = prepare_scsi_command_from_ata (prepare_ata_command 0x25 t.lba_to_read t.sectors_to_read)

-- The outcome of the read: the block's status, `error_flag`, `ret` and the buffer.
pub record Outcome : Type 0 where
  pub status : BlockStatus
  pub error_flag : Bool
  pub ret : ℕ
  pub buf : ℕ → ℕ

unfoldable pub act : Api → Kernel → Task → Outcome
act ata k t =
    let a = k.ioctl (read_command t) in
    let status = scsi_ata_check_return_status a.command in
    record {
      status = status;
      error_flag = failed status;
      ret = if a.fails then 1 else 0;
      buf = a.data_read;
    }
act posix k t =
    let a = k.read (512 * t.lba_to_read) (t.sectors_to_read * 512) in
    let bad = not (is_exactly a.ret (t.sectors_to_read * 512)) in
    record {
      status = if bad then BlockStatus.error else BlockStatus.ok;
      error_flag = bad;
      ret = 0;
      buf = a.data_read;
    }

unfoldable pub write_block : Kernel → Task → Outcome → CopyCtx → CopyCtx
write_block k t o c =
    let ret = k.write (512 * t.lba_to_read) (t.sectors_to_read * 512) in
    if o.error_flag
    then record c { report = record (c.report) { blk_status = o.status } }
    else record c {
      report = record (c.report) {
        blk_status =
            if is_exactly ret (t.sectors_to_read * 512) then o.status else BlockStatus.error;
      };
      dst = overwrite c.dst (512 * t.lba_to_read) o.buf (or_zero ret);
    }

unfoldable pub sector_status : Task → Outcome → ℕ
sector_status t o =
    if o.error_flag
    then if t.sectors_to_read == 1 then sector_read_error else block_read_error
    else read_ok

-- The journal keeps a byte for each sector.
unfoldable pub write_journal : Kernel → Task → Outcome → CopyCtx → Option CopyCtx
write_journal k t o c =
    if c.priv.use_journal
    then assert (is_exactly (k.write_journal t.lba_to_read t.sectors_to_read) t.sectors_to_read)
      >> some (record c {
        journal = overwrite c.journal t.lba_to_read (λ _. sector_status t o) t.sectors_to_read;
      })
    else some c

abbrev pub begin_report : CopyCtx → CopyPriv → Task → ℕ → CopyCtx
begin_report c p t time = record c {
  priv = record p { blk_index = add64 p.blk_index 1 };
  report = record {
    lba = t.lba_to_read;
    sectors_processed = t.sectors_to_read;
    blk_access_time = time;
    blk_status = BlockStatus.ok;
  };
}

-- The strategy is told the result, and the progress moves on.
unfoldable pub conclude : Task → Outcome → CopyCtx → Option (CopyCtx × ℕ)
conclude t o c = use_results c.priv t c.report.blk_status >>= λ used. some (
  record c {
    priv = record (used.0) { lba_to_process = sub64 used.0.lba_to_process t.sectors_to_read };
    progress = record (c.progress) { num = add64 c.progress.num t.sectors_to_read };
  },
  if used.1 then 1 else o.ret,
)

unfoldable pub perform_task : Kernel → CopyCtx → CopyPriv → Task → Option (CopyCtx × ℕ)
perform_task k c p t =
    let o = act p.api k t in
    let behind_end =
      not (p.dst_file_end_lba == 0) && ltb p.dst_file_end_lba (t.lba_to_read + t.sectors_to_read) in
    if behind_end
    then some (record c { priv = p }, 1)
    else write_journal k t o (write_block k t o (begin_report c p t k.access_time)) >>= λ c'.
        conclude t o c'

unfoldable pub perform : Kernel → CopyCtx → Option (CopyCtx × ℕ)
perform k c = get_task c.priv >>= λ r. elim (r.1) [
  | given t ↦ perform_task k c r.0 t
  | refused ↦ some (record c { priv = r.0 }, 1)
]
