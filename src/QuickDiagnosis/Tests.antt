-- ===== src/QuickDiagnosis/Tests.antt =====
-- The diagnosis of a sound disk of 100 sectors, libdevcheck/quick_diagnosis.c.
use whdd_modify.Prelude.{ℕ, ◌*◌, true, false, Option, none, some}
use whdd_modify.Scsi.Capacity.{Capacity, capacity}
use whdd_modify.Probe.{Kernel, Request}
use whdd_modify.QuickDiagnosis.{query}

abbrev geometry : Request → Option ℕ
geometry Request.blkszget = some 512
geometry Request.blkpbszget = some 4096
geometry Request.blkgetsize64 = some (100 * 512)

abbrev kernel : Kernel
kernel = record {
  opens_query = λ r. true;
  query = geometry;
  page_size = 4096;
  memalign = λ a n. true;
  open_direct = λ noatime. none;
  open_ata = false;
  time_pre = some (record { tv_sec = 5; tv_nsec = 0 });
  time_post = some (record { tv_sec = 5; tv_nsec = 700000 });
  ioctl = λ c. record { fails = true; command = c };
  pread = λ n o. record { ret = some n; errno = 0 };
}

abbrev answer : Capacity
answer =
    capacity
      (record { last_lba = 99; block_length = 512; prot_en = 0; p_type = 0; p_i_exponent = 0 })
