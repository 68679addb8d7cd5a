-- ===== src/ReadTest/Perform/Request.antt =====
-- What a round of `Perform` of libdevcheck/read_test.c asks the device for.
use whdd_modify.Prelude.{
  ℕ, ◌*◌, ◌^◌, ◌%◌, ◌≡◌, ◌↔◌, refl, false, some, Option-cases, inl, inr, arith, get_or,
}
use whdd_modify.Procedure.{Api, ata, posix, BlockStatus, failed}
use whdd_modify.Ata.{prepare_ata_command}
use whdd_modify.Scsi.{ScsiCommand, prepare_scsi_command_from_ata, scsi_ata_check_return_status}
use whdd_modify.Scsi.Encoding.{cdb_lba, cdb_count}
use whdd_modify.ReadTest.Perform.{ReadPriv, System, verify_command, act}

-- The status of a block comes from the device's answer on these sectors: by the ATA API, to a command
-- READ VERIFY EXT whose bytes hold the low 48 bits of the LBA and the low 16 bits of the count; by the
-- POSIX API, to a read of so many sectors at the file offset, which counts as read exactly if the
-- number of bytes that came is the one asked for, on 32 bits.
abbrev pub Requested : Api → System → ℕ → ℕ → ℕ → BlockStatus → Type 0
Requested ata y position lba sectors status =
    (c : ScsiCommand) × (cdb_lba c.scsi_cmd ≡ lba % 2 ^ 48)
    × (cdb_count c.scsi_cmd ≡ sectors % 2 ^ 16)
    × (get_or c.scsi_cmd 14 0 ≡ 0x42)
    × (status ≡ scsi_ata_check_return_status (y.ioctl c).1)
Requested posix y position lba sectors status =
    (failed status ≡ false)
    ↔ ((n : ℕ) × (y.read position (sectors * 512) ≡ some n) × (n % 2 ^ 32 ≡ sectors * 512 % 2 ^ 32))

verify_command-decodes :
    (lba sectors : ℕ)
    → let b = (verify_command lba sectors).scsi_cmd in
      (cdb_lba b ≡ lba % 2 ^ 48) × (cdb_count b ≡ sectors % 2 ^ 16) × (get_or b 14 0 ≡ 0x42)
unfolding verify_command prepare_scsi_command_from_ata prepare_ata_command
verify_command-decodes lba sectors = (omega arith, omega arith, refl)

module _ (y : System) (p : ReadPriv) (sectors position : ℕ) where
  act_of :
      (a : Api)
      → p.api ≡ a
      → Requested a y position p.current_lba sectors (act y p sectors position).0
  unfolding act
  act_of ata e =
      let d = verify_command-decodes p.current_lba sectors in
      (verify_command p.current_lba sectors, d.0, d.1, d.2, rw e refl)
  act_of posix e = elim (Option-cases (y.read position (sectors * 512))) [
    | inl none_read ↦ rw (e, none_read) (λ h. cc, λ (n, h, m). cc)
    | inr (n, some_read) ↦
        simp (e, act, some_read) (λ h. (n, refl, ground arith), λ (m, q, h). ground arith)
  ]

pub act-Requested :
    (y : System) (p : ReadPriv) (sectors position : ℕ)
    → Requested p.api y position p.current_lba sectors (act y p sectors position).0
act-Requested y p sectors position = act_of y p sectors position p.api refl
