-- ===== src/Scsi/Status.antt =====
-- What `scsi_ata_check_return_status` makes of an answer, on the bytes of the sense buffer.
use whdd_modify.Prelude.{
  ℕ, ◌+◌, ◌*◌, ◌/◌, ◌%◌, ◌^◌, ◌<◌, ◌≤◌, ◌≡◌, ◌↔◌, ◌⊎◌, inl, inr, refl, sym, subst, ◌∙◌, Bool, true,
  false, ◌||◌, Bool-cases, Option-cases, some, none, List, arith, ◌==◌, ==_iff, ltb, get_or,
}
use whdd_modify.Procedure.{BlockStatus}
use whdd_modify.Scsi.{
  ScsiCommand, fill_scsi_ata_return_descriptor, get_sense_key_from_sense_buffer, above_recovered,
  is_key, scsi_ata_check_return_status,
}

-- The sense key is in the low half of byte 2 of fixed format sense data, which have the response codes
-- 70h and 71h, and of byte 1 of descriptor format sense data, which have 72h and 73h.
abbrev pub HasKey : List ℕ → ℕ → Type 0
HasKey b k =
    (k < 16)
    × (high : ℕ) × ((((get_or b 0 0 ≡ 0x70) ⊎ (get_or b 0 0 ≡ 0x71))
          × (get_or b 2 0 ≡ high * 16 + k))
        ⊎ (((get_or b 0 0 ≡ 0x72) ⊎ (get_or b 0 0 ≡ 0x73)) × (get_or b 1 0 ≡ high * 16 + k)))

-- A sense key above "recovered error".
abbrev pub IsSevere : List ℕ → Type 0
IsSevere b = (k : ℕ) × (1 < k) × HasKey b k

abbrev pub HasBit : ℕ → ℕ → Type 0
HasBit x i = x / 2 ^ i % 2 ≡ 1

-- In the descriptor behind 8 bytes of header, byte 3 is the error register and byte 13 the status.
abbrev pub error_of : ScsiCommand → ℕ
error_of c = get_or c.sense_buf 11 0

abbrev pub status_of : ScsiCommand → ℕ
status_of c = get_or c.sense_buf 21 0

-- CHECK CONDITION with the ERR bit.
abbrev pub HasError : ScsiCommand → Type 0
HasError c = (c.io_hdr.status ≡ 2) × HasBit (status_of c) 0

-- CHECK CONDITION without the ERR bit and the DF bit.
abbrev pub HasNoError : ScsiCommand → Type 0
HasNoError c = (c.io_hdr.status ≡ 2) × (¬ HasBit (status_of c) 0) × (¬ HasBit (status_of c) 5)

-- When an answer gets which status.
pub record Statuses (c : ScsiCommand) (s : BlockStatus) : Type 0 where
  pub is_ok : (s ≡ BlockStatus.ok) ↔ (
      (c.io_hdr.status ≡ 0)
      ⊎ (HasNoError c × (¬ IsSevere c.sense_buf) × (c.io_hdr.duration < c.io_hdr.timeout)))
  pub is_unc : (s ≡ BlockStatus.unc) ↔ (HasError c × HasBit (error_of c) 6)
  pub is_idnf :
      (s ≡ BlockStatus.idnf) ↔ (HasError c × (¬ HasBit (error_of c) 6) × HasBit (error_of c) 4)
  pub is_abrt : (s ≡ BlockStatus.abrt) ↔ (
      (HasError c × (¬ HasBit (error_of c) 6) × (¬ HasBit (error_of c) 4) × HasBit (error_of c) 2)
      ⊎ (HasNoError c × HasKey c.sense_buf 0x0b))
  pub is_amnf : (s ≡ BlockStatus.amnf) ↔ (
      HasError c
      × (¬ HasBit (error_of c) 6)
      × (¬ HasBit (error_of c) 4)
      × (¬ HasBit (error_of c) 2)
      × HasBit (error_of c) 0)
  pub is_timeout :
      (s ≡ BlockStatus.timeout)
      ↔ (HasNoError c × (¬ IsSevere c.sense_buf) × (c.io_hdr.timeout ≤ c.io_hdr.duration))

key_of : List ℕ → ℕ → Bool
key_of b k = is_key (get_sense_key_from_sense_buffer b) k

is_severe : List ℕ → Bool
is_severe b = above_recovered (get_sense_key_from_sense_buffer b)

key_found : (b : List ℕ) (k : ℕ) → get_sense_key_from_sense_buffer b ≡ some k → HasKey b k
unfolding get_sense_key_from_sense_buffer
key_found b k e = elim (Bool-cases (get_or b 0 0 == 0x70 || get_or b 0 0 == 0x71)) [
  | inl f ↦
      let q : some (get_or b 2 0 % 16) ≡ some k = rw f at e in
      (ground arith, get_or b 2 0 / 16, inl (ground arith, ground arith))
  | inr f ↦ elim (Bool-cases (get_or b 0 0 == 0x72 || get_or b 0 0 == 0x73)) [
    | inl d ↦
        let q : some (get_or b 1 0 % 16) ≡ some k = rw (f, d) at e in
        (ground arith, get_or b 1 0 / 16, inr (ground arith, ground arith))
    | inr d ↦ absurd (differ k (rw (f, d) at e))
  ]
]
  where
    differ : (k : ℕ) → none ≡ some k → ⊥
    differ k q = cc

key_is : (b : List ℕ) (k : ℕ) → HasKey b k → get_sense_key_from_sense_buffer b ≡ some k
unfolding get_sense_key_from_sense_buffer
key_is b k (l, high, inl (f, e)) = ground arith
key_is b k (l, high, inr (f, e)) = ground arith

key_iff : (b : List ℕ) → (key_of b 0x0b ≡ true) ↔ HasKey b 0x0b
unfolding key_of
key_iff b = (
  λ h. elim (Option-cases (get_sense_key_from_sense_buffer b)) [
    | inl e ↦ absurd (differ (simp (e) at h))
    | inr (k, e) ↦ subst (HasKey b) ((==_iff k 0x0b).0 (simp (e) at h)) (key_found b k e)
  ],
  λ h. rw (key_is b 0x0b h) refl,
)
  where
    differ : false ≡ true → ⊥
    differ q = cc

IsSevere-iff : (b : List ℕ) → (is_severe b ≡ true) ↔ IsSevere b
unfolding is_severe
IsSevere-iff b = (
  λ h. elim (Option-cases (get_sense_key_from_sense_buffer b)) [
    | inl e ↦ absurd (differ (simp (e) at h))
    | inr (k, e) ↦
        let above : ltb 1 k ≡ true = simp (e) at h in (k, ground (arith, above), key_found b k e)
  ],
  λ (k, m, h). rw (key_is b k h) (ground arith),
)
  where
    differ : false ≡ true → ⊥
    differ q = cc

IsSevere-not : (b : List ℕ) → (is_severe b ≡ false) ↔ (¬ IsSevere b)
IsSevere-not b = elim (Bool-cases (is_severe b)) [
  | inl y ↦ (λ n. absurd (differ (sym y ∙ n)), λ n. absurd (n ((IsSevere-iff b).0 y)))
  | inr n ↦ (λ m h. differ (sym ((IsSevere-iff b).1 h) ∙ n), λ m. n)
]
  where
    differ : true ≡ false → ⊥
    differ q = cc

-- "Aborted command" is a severe key.
aborted_severe : (b : List ℕ) → key_of b 0x0b ≡ true → is_severe b ≡ true
unfolding key_of is_severe
aborted_severe b h = (IsSevere-iff b).1 (0x0b, omega arith, (key_iff b).0 h)

-- The branches, by the bits and by what is known of the sense key.
module _ (c : ScsiCommand) where
  abbrev s : BlockStatus
  s = scsi_ata_check_return_status c

  unc_iff : (s ≡ BlockStatus.unc) ↔ (HasError c × HasBit (error_of c) 6)
  unfolding scsi_ata_check_return_status fill_scsi_ata_return_descriptor
  unc_iff = (λ h. ground arith, λ h. ground arith)

  idnf_iff :
      (s ≡ BlockStatus.idnf) ↔ (HasError c × (¬ HasBit (error_of c) 6) × HasBit (error_of c) 4)
  unfolding scsi_ata_check_return_status fill_scsi_ata_return_descriptor
  idnf_iff = (λ h. ground arith, λ h. ground arith)

  amnf_iff : (s ≡ BlockStatus.amnf) ↔ (
      HasError c
      × (¬ HasBit (error_of c) 6)
      × (¬ HasBit (error_of c) 4)
      × (¬ HasBit (error_of c) 2)
      × HasBit (error_of c) 0)
  unfolding scsi_ata_check_return_status fill_scsi_ata_return_descriptor
  amnf_iff = (λ h. ground arith, λ h. ground arith)

  abrt_iff : (s ≡ BlockStatus.abrt) ↔ (
      (HasError c × (¬ HasBit (error_of c) 6) × (¬ HasBit (error_of c) 4) × HasBit (error_of c) 2)
      ⊎ (HasNoError c × (is_severe c.sense_buf ≡ true) × (key_of c.sense_buf 0x0b ≡ true)))
  unfolding scsi_ata_check_return_status fill_scsi_ata_return_descriptor key_of is_severe
  abrt_iff = (λ h. ground arith, λ h. ground arith)

  timeout_iff :
      (s ≡ BlockStatus.timeout)
      ↔ (HasNoError c × (is_severe c.sense_buf ≡ false) × (c.io_hdr.timeout ≤ c.io_hdr.duration))
  unfolding scsi_ata_check_return_status fill_scsi_ata_return_descriptor is_severe
  timeout_iff = (λ h. ground arith, λ h. ground arith)

  ok_iff : (s ≡ BlockStatus.ok) ↔ (
      (c.io_hdr.status ≡ 0)
      ⊎ (HasNoError c × (is_severe c.sense_buf ≡ false) × (c.io_hdr.duration < c.io_hdr.timeout)))
  unfolding scsi_ata_check_return_status fill_scsi_ata_return_descriptor is_severe
  ok_iff = (λ h. ground arith, λ h. ground arith)

  -- When an answer gets which status, by the bytes of the sense buffer: byte 11 is the error register,
  -- byte 21 the status register, and the sense key is in the low half of byte 2 in fixed format and of
  -- byte 1 in descriptor format. OK: the SCSI status is GOOD, or it is CHECK CONDITION without the bits
  -- ERR and DF, without a sense key above "recovered error", and the command took less than its
  -- timeout. UNC, IDNF and AMNF: after CHECK CONDITION with the ERR bit, by the error register, where
  -- UNC goes before IDNF, ABRT and AMNF in this order. ABRT: by the register, or by the sense key
  -- "aborted command" without the ERR and DF bits. Timeout: without these bits and without a sense key
  -- above "recovered error", if the command took as long as its timeout.
  pub check_each_iff : Statuses c (scsi_ata_check_return_status c)
  check_each_iff = record {
    is_ok = (
      λ h. elim (ok_iff.0 h) [
        | inl good ↦ inl good
        | inr (n, k, l) ↦ inr (n, (IsSevere-not c.sense_buf).0 k, l)
      ],
      λ h. elim h [
        | inl good ↦ ok_iff.1 (inl good)
        | inr (n, k, l) ↦ ok_iff.1 (inr (n, (IsSevere-not c.sense_buf).1 k, l))
      ],
    );
    is_unc = unc_iff;
    is_idnf = idnf_iff;
    is_abrt = (
      λ h. elim (abrt_iff.0 h) [
        | inl error ↦ inl error
        | inr (n, _, k) ↦ inr (n, (key_iff c.sense_buf).0 k)
      ],
      λ h. elim h [
        | inl error ↦ abrt_iff.1 (inl error)
        | inr (n, key) ↦
            let k = (key_iff c.sense_buf).1 key in
            abrt_iff.1 (inr (n, aborted_severe c.sense_buf k, k))
      ],
    );
    is_amnf = amnf_iff;
    is_timeout = (
      λ h. let (n, k, l) = timeout_iff.0 h in (n, (IsSevere-not c.sense_buf).0 k, l),
      λ (n, k, l). timeout_iff.1 (n, (IsSevere-not c.sense_buf).1 k, l),
    );
  }
