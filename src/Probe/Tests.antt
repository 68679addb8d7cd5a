-- ===== src/Probe/Tests.antt =====
-- One read of a small device, libdevcheck/blk_probe.c.
use whdd_modify.Prelude.{ℕ, ◌*◌, ◌≡◌, refl, Bool, true, false, Option, none, some, arith}
use whdd_modify.Procedure.{posix}
use whdd_modify.Probe.{
  ok, failed, Kernel, Request, pread, dc_blk_read, dc_dev_logical_sector_size,
  dc_dev_capacity_bytes, find_range, check_range, check_fits, check_api, read_range, ask, send,
  open_read_direct,
}
use whdd_modify.Probe.Inside.{IsAnswer, dc_blk_read-IsAnswer}

abbrev geometry : Request → Option ℕ
geometry Request.blkszget = some 512
geometry Request.blkpbszget = some 4096
geometry Request.blkgetsize64 = some (100 * 512)

abbrev kernel : Kernel
kernel = record {
  opens_query = λ r. true;
  query = geometry;
  page_size = 4096;
  memalign = λ a n. true;
  open_direct = λ noatime. if_noatime noatime;
  open_ata = false;
  time_pre = some (record { tv_sec = 5; tv_nsec = 900000 });
  time_post = some (record { tv_sec = 6; tv_nsec = 100000 });
  ioctl = λ c. record { fails = true; command = c };
  pread = λ n o. record { ret = some n; errno = 0 };
}
  where
    if_noatime : Bool → Option ℕ
    if_noatime true = some 1
    if_noatime false = none

size : dc_dev_logical_sector_size kernel true ≡ ok 512
unfolding dc_dev_logical_sector_size ask
size = refl

capacity : dc_dev_capacity_bytes kernel true ≡ ok (100 * 512)
unfolding dc_dev_capacity_bytes ask
capacity = refl

last_sectors : (dc_blk_read kernel true false posix 98 2).0 ≡ some (pread (2 * 512) (98 * 512))
unfolding dc_blk_read find_range dc_dev_logical_sector_size dc_dev_capacity_bytes ask check_range
    check_fits check_api read_range open_read_direct send
last_sectors = refl

behind_end : dc_blk_read kernel true false posix 99 2 ≡ (none, failed 22)
unfolding dc_blk_read find_range dc_dev_logical_sector_size dc_dev_capacity_bytes ask check_range
behind_end = refl

dc_blk_read-IsAnswer_example :
    IsAnswer posix false 98 2 512 (100 * 512) (dc_blk_read kernel true false posix 98 2)
dc_blk_read-IsAnswer_example =
    dc_blk_read-IsAnswer posix false 98 2 512 (100 * 512) kernel true size capacity (omega arith)
      (omega arith) (omega arith)
