-- ===== src/Probe.antt =====
-- libdevcheck/blk_probe.c: the geometry of a block device, and single reads from it. The kernel's
-- answers are a record of functions.
pub mod Inside
mod Tests
use whdd_modify.Prelude.{
  ℕ, ◌+◌, ◌-◌, ◌*◌, ◌/◌, ◌%◌, ◌^◌, Bool, true, false, not, ◌&&◌, ◌||◌, Option, none, some, ltb, leb,
  ◌==◌, if◌then◌else◌, set,
}
use whdd_modify.Prelude.Words.{add64, sub64, mul64, sdiv64}
use whdd_modify.Procedure.{Api, ata, posix, BlockStatus, BlockReport}
use whdd_modify.Ata.{prepare_ata_command}
use whdd_modify.Scsi.{
  from_dev, ScsiCommand, prepare_scsi_command_from_ata, scsi_ata_check_return_status,
}

-- The value 0 with what is stored, or -1: with `errno` where the program sets it, else with what a
-- system call has left there.
pub data Result (A : Type 0) : Type 0 where
  ok : A → Result A
  failed : ℕ → Result A
  system : Result A

infixl 5 ◌>>=◌
abbrev pub ◌>>=◌ : {A B : Type 0} → Result A → (A → Result B) → Result B
ok a >>= f = f a
failed e >>= f = failed e
system >>= f = system

-- The numbers of <errno.h>
abbrev pub eperm : ℕ
eperm = 1

abbrev pub einval : ℕ
einval = 22

abbrev pub eoverflow : ℕ
eoverflow = 75

abbrev pub eopnotsupp : ℕ
eopnotsupp = 95

pub data Request : Type 0 where
  blkszget blkpbszget blkgetsize64 : Request

-- `struct timespec`
pub record Timespec : Type 0 where
  pub tv_sec : ℕ
  pub tv_nsec : ℕ

-- What `ioctl(SG_IO)` does: whether it fails, and the command as it leaves it.
pub record SgAnswer : Type 0 where
  pub fails : Bool
  pub command : ScsiCommand

-- What `pread` does: `none` is the return value -1.
pub record PreadAnswer : Type 0 where
  pub ret : Option ℕ
  pub errno : ℕ

-- `opens_query` and `query` are the `open` and the `ioctl` of the three queries, `none` a failure.
-- `open_direct` is given whether the flag O_NOATIME is there, and returns the errno of a failure.
-- `page_size` is 0 where `sysconf` returns no positive number.
pub record Kernel : Type 0 where
  pub opens_query : Request → Bool
  pub query : Request → Option ℕ
  pub page_size : ℕ
  pub memalign : ℕ → ℕ → Bool
  pub open_direct : Bool → Option ℕ
  pub open_ata : Bool
  pub time_pre : Option Timespec
  pub time_post : Option Timespec
  pub ioctl : ScsiCommand → SgAnswer
  pub pread : ℕ → ℕ → PreadAnswer

-- `open_read_direct`: whether a file is open at the end.
unfoldable pub open_read_direct : Kernel → Bool
open_read_direct k = elim (k.open_direct true) [
  | none ↦ true
  | some errno ↦
      if errno == eperm
      then (elim (k.open_direct false) [ none ↦ true | some e ↦ false ])
      else false
]

-- `given` tells whether both pointers are not null.
unfoldable pub ask : Kernel → Bool → Request → Result ℕ
ask k given request =
    if not given
    then failed einval
    else if not (k.opens_query request)
    then system
    else elim (k.query request) [ none ↦ system | some out ↦ ok out ]

-- A sector size of 0 is an error.
abbrev pub positive : ℕ → Result ℕ
positive out = if out == 0 then failed einval else ok out

unfoldable pub dc_dev_logical_sector_size : Kernel → Bool → Result ℕ
dc_dev_logical_sector_size k given = ask k given Request.blkszget >>= positive

unfoldable pub dc_dev_physical_sector_size : Kernel → Bool → Result ℕ
dc_dev_physical_sector_size k given = ask k given Request.blkpbszget >>= positive

unfoldable pub dc_dev_capacity_bytes : Kernel → Bool → Result ℕ
dc_dev_capacity_bytes k given = ask k given Request.blkgetsize64

-- Microseconds between two times; a `long` is its bit pattern.
unfoldable pub elapsed : Timespec → Timespec → ℕ
elapsed pre post =
    add64 (mul64 (sub64 post.tv_sec pre.tv_sec) 1000000)
      (sdiv64 (sub64 post.tv_nsec pre.tv_nsec) 1000)

-- The range that is read, in bytes.
pub record Range : Type 0 where
  pub byte_count : ℕ
  pub byte_offset : ℕ
  pub sector_size : ℕ

-- The guards on the API.
unfoldable pub check_api : Api → Bool → ℕ → Range → Result Range
check_api posix ata_capable sectors r = ok r
check_api ata ata_capable sectors r =
    if not ata_capable
    then failed eopnotsupp
    else if ltb 0xffff sectors || ltb (2 ^ 32 - 1) r.byte_count
    then failed einval
    else ok r

-- The guards against an overflow.
unfoldable pub check_fits : Api → Bool → ℕ → ℕ → ℕ → Result Range
check_fits api ata_capable start_lba sectors sector_size =
    let byte_count = mul64 sectors sector_size in
    let byte_offset = mul64 start_lba sector_size in
    let r : Range = record {
      byte_count = byte_count;
      byte_offset = byte_offset;
      sector_size = sector_size;
    } in
    if ltb ((2 ^ 64 - 1) / sector_size) sectors || ltb ((2 ^ 64 - 1) / sector_size) start_lba
    then failed eoverflow
    else if ltb (2 ^ 64 - 1) byte_count || ltb (2 ^ 63 - 1) byte_offset
    then failed eoverflow
    else check_api api ata_capable sectors r

-- The guards on the geometry.
unfoldable pub check_range : Api → Bool → ℕ → ℕ → ℕ → ℕ → Result Range
check_range api ata_capable start_lba sectors sector_size capacity_bytes =
    let sector_count = capacity_bytes / sector_size in
    if sector_size == 0 || not (capacity_bytes % sector_size == 0)
    then failed einval
    else if leb sector_count start_lba || ltb (sub64 sector_count start_lba) sectors
    then failed einval
    else check_fits api ata_capable start_lba sectors sector_size

abbrev pub alignment : Kernel → ℕ → ℕ
alignment k sector_size =
    let page_size = if k.page_size == 0 then 4096 else k.page_size in
    if ltb page_size sector_size then sector_size else page_size

-- A command that goes to the device.
pub data Sent : Type 0 where
  sg_io : ScsiCommand → Sent
  pread : ℕ → ℕ → Sent

-- READ DMA EXT
unfoldable pub read_command : ℕ → ℕ → ℕ → ScsiCommand
read_command start_lba sectors byte_count = record c {
  io_hdr = record (c.io_hdr) { dxfer_direction = from_dev; dxfer_len = byte_count };
  scsi_cmd = set (set c.scsi_cmd 1 13) 2 0x0e;
}
  where
    c : ScsiCommand
    c = prepare_scsi_command_from_ata (prepare_ata_command 0x25 start_lba sectors)

abbrev pub is_exactly : Option ℕ → ℕ → Bool
is_exactly none n = false
is_exactly (some m) n = m == n

unfoldable pub send : Kernel → Api → ℕ → ℕ → Range → Sent × BlockStatus × ℕ
send k ata start_lba sectors r =
    let c = read_command start_lba sectors r.byte_count in
    let a = k.ioctl c in
    (sg_io c, if a.fails then BlockStatus.error else scsi_ata_check_return_status a.command, 0)
send k posix start_lba sectors r =
    let a = k.pread r.byte_count r.byte_offset in
    let all = is_exactly a.ret r.byte_count in
    (
      pread r.byte_count r.byte_offset,
      if all then BlockStatus.ok else BlockStatus.error,
      if all then 0 else a.errno,
    )

-- The report and `posix_errno`.
pub record Reading : Type 0 where
  pub report : BlockReport
  pub posix_errno : ℕ

abbrev pub opens_device : Kernel → Api → Bool
opens_device k ata = k.open_ata
opens_device k posix = open_read_direct k

-- From `posix_memalign` on: what is sent, and the result.
unfoldable pub read_range : Kernel → Api → ℕ → ℕ → Range → Option Sent × Result Reading
read_range k api start_lba sectors r =
    if not (k.memalign (alignment k r.sector_size) r.byte_count)
    then (none, system)
    else if not (opens_device k api)
    then (none, system)
    else elim (k.time_pre) [
      | none ↦ (none, system)
      | some pre ↦
          let s = send k api start_lba sectors r in
          (
            some s.0,
            elim (k.time_post) [
              | none ↦ system
              | some post ↦ ok (record {
                report = record {
                  lba = start_lba;
                  sectors_processed = sectors;
                  blk_access_time = elapsed pre post;
                  blk_status = s.1;
                };
                posix_errno = s.2;
              })
            ],
          )
    ]

-- The queries and the guards.
unfoldable pub find_range : Kernel → Bool → Bool → Api → ℕ → ℕ → Result Range
find_range k given ata_capable api start_lba sectors =
    if not given || sectors == 0
    then failed einval
    else dc_dev_logical_sector_size k true >>= λ sector_size.
        dc_dev_capacity_bytes k true >>= λ capacity_bytes.
        check_range api ata_capable start_lba sectors sector_size capacity_bytes

-- `given` tells whether the pointers to the report, the device and its path are not null.
unfoldable pub dc_blk_read : Kernel → Bool → Bool → Api → ℕ → ℕ → Option Sent × Result Reading
dc_blk_read k given ata_capable api start_lba sectors =
    elim (find_range k given ata_capable api start_lba sectors) [
      | failed e ↦ (none, failed e)
      | system ↦ (none, system)
      | ok r ↦ read_range k api start_lba sectors r
    ]
