-- ===== src/QuickDiagnosis/Parts.antt =====
-- The parts of the conclusion of libdevcheck/quick_diagnosis.c, one after the other.
use whdd_modify.Prelude.{
  ℕ, ◌-◌, ◌^◌, ◌<◌, ◌≡◌, ◌⊎◌, refl, subst, ap, inl, inr, Bool, true, false, ◌&&◌, ◌||◌, Option,
  none, some, List, [], ◌∷◌, arith, ltb, ◌==◌, ==_iff, if◌then◌else◌, Bool-cases, Option-cases,
}
use whdd_modify.Prelude.Words.{add64}
use whdd_modify.Procedure.{posix, BlockStatus}
use whdd_modify.Procedure
use whdd_modify.Scsi.Capacity.{ScsiCapacity16, Capacity, capacity, einval, eio}
use whdd_modify.Probe.{Kernel, Result, ok, failed, system, Reading, dc_blk_read}
use whdd_modify.QuickDiagnosis.{
  QuickDiagnosisPriv, known_pi, mismatches, read_sample, is_in, sample_from, any_failed,
  geometry_warning, geometry_name, is_custom, Conclusion, potential_issue, compatibility_issue,
  inconclusive, pi_enabled, no_issue, native_4k, custom, conclude,
}

-- The conclusion from its conditions, and what its last branch takes.
by_conditions : Bool → Bool → Bool → Option ScsiCapacity16 → Conclusion
by_conditions bad warned mismatch pi =
    if bad
    then potential_issue
    else if warned || mismatch
    then compatibility_issue
    else elim pi [ none ↦ inconclusive | some c ↦ if c.prot_en == 0 then no_issue else pi_enabled ]

by_conditions-clear :
    (bad warned mismatch : Bool) (pi : Option ScsiCapacity16)
    → by_conditions bad warned mismatch pi ≡ no_issue
    → (bad ≡ false)
      × (warned ≡ false)
      × (mismatch ≡ false)
      × ((c : ScsiCapacity16) × (pi ≡ some c) × (c.prot_en ≡ 0))
unfolding by_conditions
by_conditions-clear true w m pi h = cc
by_conditions-clear false true m pi h = cc
by_conditions-clear false false true pi h = cc
by_conditions-clear false false false none h = cc
by_conditions-clear false false false (some c) h = elim (Bool-cases (c.prot_en == 0)) [
  | inl off ↦ (refl, refl, refl, (c, refl, (==_iff c.prot_en 0).0 off))
  | inr on ↦ absurd (differ (simp (on) at h))
]
  where
    differ : pi_enabled ≡ no_issue → ⊥
    differ e = cc

pub conclude-clear :
    (p : QuickDiagnosisPriv)
    → conclude p ≡ no_issue
    → (any_failed p.samples ≡ false)
      × (geometry_warning p ≡ false)
      × (p.pi_mismatch ≡ false)
      × ((c : ScsiCapacity16) × (p.pi ≡ some c) × (c.prot_en ≡ 0))
unfolding conclude by_conditions
conclude-clear p h = by_conditions-clear _ _ _ _ h

module _ (reads : ℕ → Kernel) where
  -- A sector that was read: the read of it returned, and its report has the status OK.
  pub record IsRead (c : ℕ) : Type 0 where
    pub reading : Reading
    pub returned : (dc_blk_read (reads c) true false posix c 1).1 ≡ ok reading
    pub good : reading.report.blk_status ≡ BlockStatus.ok

  read_sample-IsRead : (c : ℕ) → (read_sample (reads c) c).blk_status ≡ BlockStatus.ok → IsRead c
  unfolding read_sample
  read_sample-IsRead c h = of_result ((dc_blk_read (reads c) true false posix c 1).1) refl h
    where
      of_result :
          (r : Result Reading)
          → (dc_blk_read (reads c) true false posix c 1).1 ≡ r
          → (elim r [
            | ok a ↦ a.report.blk_status
            | failed e ↦ BlockStatus.error
            | system ↦ BlockStatus.error
          ])
            ≡ BlockStatus.ok
          → IsRead c
      of_result (ok a) e q = record { reading = a; returned = e; good = q }
      of_result (failed n) e q = cc
      of_result system e q = cc

  unfoldable pub AllRead : List ℕ → Type 0
  AllRead [] = Unit {0}
  AllRead (c ∷ cs) = IsRead c × AllRead cs

  pub sample_from-AllRead :
      (before cs : List ℕ)
      → ((d : ℕ) → is_in d before ≡ true → IsRead d)
      → any_failed (sample_from reads before cs) ≡ false
      → AllRead cs
  unfolding sample_from AllRead
  sample_from-AllRead before [] old h = tt
  sample_from-AllRead before (c ∷ cs) old h = elim (Bool-cases (is_in c before)) [
    | inl again ↦
        (old c again, sample_from-AllRead (c ∷ before) cs (more c (old c again)) (rw again at h))
    | inr new ↦
        let (now, later) = parts _ _ (rw new at h) in
        let read = read_sample-IsRead c now in
        (read, sample_from-AllRead (c ∷ before) cs (more c read) later)
  ]
    where
      more : (c : ℕ) → IsRead c → (d : ℕ) → is_in d (c ∷ before) ≡ true → IsRead d
      more c r d q = elim (Bool-cases (c == d)) [
        | inl e ↦ subst IsRead ((==_iff c d).0 e) r
        | inr e ↦ old d (rw e at q)
      ]

      parts :
          (s : BlockStatus) (b : Bool)
          → (Procedure.failed s || b) ≡ false
          → (s ≡ BlockStatus.ok) × (b ≡ false)
      parts BlockStatus.ok b q = (refl, q)
      parts BlockStatus.error b q = cc
      parts BlockStatus.timeout b q = cc
      parts BlockStatus.unc b q = cc
      parts BlockStatus.idnf b q = cc
      parts BlockStatus.abrt b q = cc
      parts BlockStatus.amnf b q = cc

-- The geometries that have a name.
abbrev pub IsStandard : ℕ → ℕ → Type 0
IsStandard logical physical =
    ((logical ≡ 512) × (physical ≡ 512))
    ⊎ ((logical ≡ 512) × (512 < physical))
    ⊎ ((logical ≡ 4096) × (physical ≡ 4096))

geometry_name-IsStandard : (l p : ℕ) → is_custom (geometry_name l p) ≡ false → IsStandard l p
unfolding geometry_name
geometry_name-IsStandard l p h = elim (Bool-cases (l == 512 && p == 512)) [
  | inl a ↦ inl (ground arith)
  | inr a ↦ elim (Bool-cases (l == 512 && ltb l p)) [
    | inl b ↦ inr (inl (ground arith))
    | inr b ↦ inr (inr (named l p (simp (a, b) at h)))
  ]
]
  where
    named :
        (x y : ℕ)
        → is_custom (if x == 4096 && y == 4096 then native_4k else custom) ≡ false
        → (x ≡ 4096) × (y ≡ 4096)
    named x y q = ground arith

pub warning-IsStandard :
    (p : QuickDiagnosisPriv)
    → geometry_warning p ≡ false
    → (p.geometry_ok ≡ true)
      × ((n : ℕ) × (p.physical_sector_size ≡ some n) × IsStandard p.logical_sector_size n)
unfolding geometry_warning
warning-IsStandard p h = elim (Bool-cases (p.geometry_ok)) [
  | inr bad ↦ absurd (differ (simp (bad) at h))
  | inl good ↦ elim (Option-cases (p.physical_sector_size)) [
    | inl e ↦ absurd (differ (simp (good, e) at h))
    | inr (n, e) ↦ (good, (n, e, geometry_name-IsStandard _ n (simp (good, e) at h)))
  ]
]
  where
    differ : true ≡ false → ⊥
    differ e = cc

pub known_pi-some : (c : Capacity) (s : ScsiCapacity16) → known_pi c ≡ some s → c ≡ capacity s
unfolding known_pi
known_pi-some (capacity c) s h = elim (Bool-cases (c.block_length == 0)) [
  | inl z ↦ absurd (not_some s (simp (z) at h))
  | inr z ↦ ap capacity (same c s (simp (z) at h))
]
  where
    not_some : (x : ScsiCapacity16) → none ≡ some x → ⊥
    not_some x q = cc

    same : (x y : ScsiCapacity16) → some x ≡ some y → x ≡ y
    same x y q = cc
known_pi-some einval s h = cc
known_pi-some eio s h = cc
known_pi-some (Capacity.system e) s h = cc

pub mismatches-not :
    (size count : ℕ) (c : ScsiCapacity16)
    → mismatches true size count (some c) ≡ false
    → (c.block_length ≡ size) × ((c.last_lba ≡ 2 ^ 64 - 1) ⊎ (add64 c.last_lba 1 ≡ count))
unfolding mismatches
mismatches-not size count c h = (
  ground arith,
  elim (Bool-cases (c.last_lba == 2 ^ 64 - 1)) [
    | inl e ↦ inl ((==_iff c.last_lba (2 ^ 64 - 1)).0 e)
    | inr e ↦ inr (ground arith)
  ],
)
