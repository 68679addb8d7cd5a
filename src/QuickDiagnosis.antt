-- ===== src/QuickDiagnosis.antt =====
-- libdevcheck/quick_diagnosis.c: what `Open` finds out about a device, and its conclusion. The
-- summary that it prints is left out but for the conclusion.
pub mod Parts
pub mod Verdict
mod Tests
use whdd_modify.Prelude.{
  ℕ, zero, suc, ◌+◌, ◌-◌, ◌/◌, ◌%◌, ◌^◌, Bool, true, false, not, ◌&&◌, ◌||◌, Option, none, some,
  List, [], ◌∷◌, ltb, ◌==◌, if◌then◌else◌,
}
use whdd_modify.Prelude.Words.{add64}
use whdd_modify.Procedure.{posix, BlockStatus}
use whdd_modify.Procedure
use whdd_modify.Scsi.Capacity.{ScsiCapacity16, Capacity, capacity, einval, eio}
use whdd_modify.Probe.{
  Result, ok, failed, system, Kernel, dc_dev_logical_sector_size, dc_dev_physical_sector_size,
  dc_dev_capacity_bytes, dc_blk_read,
}

pub data Geometry : Type 0 where
  native_512 emulated_512 native_4k custom : Geometry

unfoldable pub geometry_name : ℕ → ℕ → Geometry
geometry_name logical physical =
    if logical == 512 && physical == 512
    then native_512
    else if logical == 512 && ltb logical physical
    then emulated_512
    else if logical == 4096 && physical == 4096
    then native_4k
    else custom

-- `QuickSample`
pub record QuickSample : Type 0 where
  pub lba : ℕ
  pub blk_status : BlockStatus

-- `QuickDiagnosisPriv`: `physical_sector_size` is `none` where `physical_known` is 0, and `pi` where
-- `pi_known` is 0.
pub record QuickDiagnosisPriv : Type 0 where
  pub logical_sector_size : ℕ
  pub physical_sector_size : Option ℕ
  pub capacity_bytes : ℕ
  pub sector_count : ℕ
  pub geometry_ok : Bool
  pub pi : Option ScsiCapacity16
  pub pi_mismatch : Bool
  pub samples : List QuickSample

abbrev pub known : Result ℕ → Option ℕ
known (ok n) = some n
known (failed e) = none
known system = none

unfoldable pub known_pi : Capacity → Option ScsiCapacity16
known_pi (capacity c) = if c.block_length == 0 then none else some c
known_pi einval = none
known_pi eio = none
known_pi (Capacity.system errno) = none

unfoldable pub mismatches : Bool → ℕ → ℕ → Option ScsiCapacity16 → Bool
mismatches geometry_ok logical sector_count none = false
mismatches geometry_ok logical sector_count (some c) =
    (geometry_ok && not (c.block_length == logical))
    || (geometry_ok && (not (c.last_lba == 2 ^ 64 - 1) && not (add64 c.last_lba 1 == sector_count)))

-- What the queries of the sector size and, if that is known, of the capacity give.
pub record Sizes : Type 0 where
  pub size : ℕ
  pub bytes : ℕ
  pub count : ℕ
  pub is_whole : Bool

unfoldable pub measure : Option ℕ → Option ℕ → Sizes
measure none bytes = record { size = 0; bytes = 0; count = 0; is_whole = false }
measure (some size) none = record { size = size; bytes = 0; count = 0; is_whole = false }
measure (some size) (some bytes) =
    if not (size == 0) && bytes % size == 0
    then record {
      size = size;
      bytes = bytes;
      count = bytes / size;
      is_whole = ltb 0 (bytes / size);
    }
    else record { size = size; bytes = bytes; count = 0; is_whole = false }

-- The queries; the samples are still to be read.
unfoldable pub query : Kernel → Capacity → QuickDiagnosisPriv
query k c =
    let m =
      measure (known (dc_dev_logical_sector_size k true)) (known (dc_dev_capacity_bytes k true)) in
    let pi = known_pi c in
    record {
      logical_sector_size = m.size;
      physical_sector_size = known (dc_dev_physical_sector_size k true);
      capacity_bytes = m.bytes;
      sector_count = m.count;
      geometry_ok = m.is_whole;
      pi = pi;
      pi_mismatch = mismatches m.is_whole m.size m.count pi;
      samples = [];
    }

-- A read that returns an error counts as failed.
unfoldable pub read_sample : Kernel → ℕ → QuickSample
read_sample k candidate = record {
  lba = candidate;
  blk_status = elim ((dc_blk_read k true false posix candidate 1).1) [
    | ok r ↦ r.report.blk_status
    | failed e ↦ BlockStatus.error
    | system ↦ BlockStatus.error
  ];
}

abbrev pub is_in : ℕ → List ℕ → Bool
is_in c [] = false
is_in c (d ∷ ds) = d == c || is_in c ds

-- The loop over the candidates, after those before; `reads` is the kernel at each read.
unfoldable pub sample_from : (ℕ → Kernel) → List ℕ → List ℕ → List QuickSample
sample_from reads before [] = []
sample_from reads before (c ∷ cs) =
    let rest = sample_from reads (c ∷ before) cs in
    if is_in c before then rest else read_sample (reads c) c ∷ rest

abbrev pub candidates : ℕ → List ℕ
candidates sector_count = 0 ∷ (sector_count / 2) ∷ (sector_count - 1) ∷ []

abbrev pub any_failed : List QuickSample → Bool
any_failed [] = false
any_failed (s ∷ ss) = Procedure.failed s.blk_status || any_failed ss

abbrev pub is_custom : Geometry → Bool
is_custom custom = true
is_custom native_512 = false
is_custom emulated_512 = false
is_custom native_4k = false

unfoldable pub geometry_warning : QuickDiagnosisPriv → Bool
geometry_warning p =
    if p.geometry_ok
    then elim (p.physical_sector_size) [
      | none ↦ true
      | some physical ↦ is_custom (geometry_name p.logical_sector_size physical)
    ]
    else true

pub data Conclusion : Type 0 where
  potential_issue compatibility_issue inconclusive pi_enabled no_issue : Conclusion

unfoldable pub conclude : QuickDiagnosisPriv → Conclusion
conclude p =
    if any_failed p.samples
    then potential_issue
    else if geometry_warning p || p.pi_mismatch
    then compatibility_issue
    else elim (p.pi) [
      | none ↦ inconclusive
      | some c ↦ if c.prot_en == 0 then no_issue else pi_enabled
    ]

-- `Open`: what is found, the conclusion and `ctx->blk_size`.
unfoldable pub open_quick_diagnosis :
    Kernel → Capacity → (ℕ → Kernel) → QuickDiagnosisPriv × Conclusion × ℕ
open_quick_diagnosis k c reads =
    let q = query k c in
    let p = record q {
      samples = if q.geometry_ok then sample_from reads [] (candidates q.sector_count) else [];
    } in
    (p, conclude p, if p.geometry_ok then p.logical_sector_size else 0)
