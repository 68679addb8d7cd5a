-- ===== src/QuickDiagnosis/Verdict.antt =====
-- What the conclusion "no issue found" of libdevcheck/quick_diagnosis.c says of a device.
use whdd_modify.Prelude.{ℕ, ◌-◌, ◌*◌, ◌/◌, ◌^◌, ◌<◌, ◌≡◌, ◌⊎◌, true}
use whdd_modify.Prelude.Words.{add64}
use whdd_modify.Scsi.Capacity.{ScsiCapacity16, Capacity, capacity}
use whdd_modify.Probe.{
  ok, Kernel, dc_dev_logical_sector_size, dc_dev_physical_sector_size, dc_dev_capacity_bytes,
}
use whdd_modify.QuickDiagnosis.Parts.{IsRead, IsStandard}

-- A device of whole sectors.
pub record IsWhole (k : Kernel) (size count : ℕ) : Type 0 where
  pub bytes : ℕ
  pub sector : dc_dev_logical_sector_size k true ≡ ok size
  pub capacity_lem : dc_dev_capacity_bytes k true ≡ ok bytes
  pub whole : bytes ≡ count * size
  pub some_sectors : 0 < count

-- What the conclusion "no issue found" says of the device: its size is a whole number of sectors of
-- a standard geometry, READ CAPACITY(16) tells the same size and number of sectors, or a number of
-- all ones, without protection information, and the first, the middle and the last sector could
-- be read.
pub record IsClean (k : Kernel) (c : Capacity) (reads : ℕ → Kernel) : Type 0 where
  pub size : ℕ
  pub count : ℕ
  pub physical : ℕ
  pub pi : ScsiCapacity16
  pub device : IsWhole k size count
  pub physical_size : dc_dev_physical_sector_size k true ≡ ok physical
  pub geometry : IsStandard size physical
  pub answer : c ≡ capacity pi
  pub same_size : pi.block_length ≡ size
  pub same_count : (pi.last_lba ≡ 2 ^ 64 - 1) ⊎ (add64 pi.last_lba 1 ≡ count)
  pub unprotected : pi.prot_en ≡ 0
  pub first : IsRead reads 0
  pub middle : IsRead reads (count / 2)
  pub last : IsRead reads (count - 1)
