-- ===== src/Scsi/Encoding.antt =====
-- What the bytes of a pass-through command and of a returned descriptor say, against the layout
-- of the SCSI/ATA Translation standard: ATA PASS-THROUGH (16) and the ATA Status Return descriptor.
use whdd_modify.Prelude.{ℕ, ◌+◌, ◌*◌, ◌/◌, ◌%◌, ◌^◌, ◌<◌, ◌≡◌, refl, List, [], ◌∷◌, arith, get_or}
use whdd_modify.Ata.{prepare_ata_command}
use whdd_modify.Scsi.{IoHdr, prepare_scsi_command_from_ata, fill_scsi_ata_return_descriptor}

-- The 48-bit LBA of a pass-through command: bytes 8, 10, 12 hold its low half and 7, 9, 11 its high
-- half, each lowest byte first.
abbrev pub cdb_lba : List ℕ → ℕ
cdb_lba b =
    get_or b 8 0
    + get_or b 10 0 * 2 ^ 8
    + get_or b 12 0 * 2 ^ 16
    + get_or b 7 0 * 2 ^ 24
    + get_or b 9 0 * 2 ^ 32
    + get_or b 11 0 * 2 ^ 40

abbrev pub cdb_count : List ℕ → ℕ
cdb_count b = get_or b 6 0 + get_or b 5 0 * 2 ^ 8

-- The prepared command carries the ATA command, the LBA and the sector count that were asked for,
-- for every 48-bit LBA and 16-bit count; it is an extended one, and addresses by LBA.
pub prepare-decodes :
    (cmd lba size : ℕ)
    → cmd < 2 ^ 8
    → lba < 2 ^ 48
    → size < 2 ^ 16
    → let b = (prepare_scsi_command_from_ata (prepare_ata_command cmd lba size)).scsi_cmd in
      (cdb_lba b ≡ lba)
      × (cdb_count b ≡ size)
      × (get_or b 14 0 ≡ cmd)
      × (get_or b 0 0 ≡ 0x85)
      × (get_or b 1 0 % 2 ≡ 1)
      × (get_or b 13 0 ≡ 0x40)
unfolding prepare_scsi_command_from_ata prepare_ata_command
prepare-decodes cmd lba size c l s = (omega arith, omega arith, omega arith, refl, refl, refl)

-- The sense buffer of a device that returns a status, an error and a 48-bit LBA: eight bytes of
-- header, then the descriptor of 14 bytes with the LBA's high half in bytes 6, 8, 10.
abbrev pub returned : List ℕ → ℕ → ℕ → ℕ → List ℕ
returned header error status lba =
    get_or header 0 0
    ∷ get_or header 1 0
    ∷ get_or header 2 0
    ∷ get_or header 3 0
    ∷ get_or header 4 0
    ∷ get_or header 5 0
    ∷ get_or header 6 0
    ∷ get_or header 7 0
    ∷ 0x09
    ∷ 0x0c
    ∷ 0
    ∷ error
    ∷ 0
    ∷ 0
    ∷ (lba / 2 ^ 24 % 256)
    ∷ (lba % 256)
    ∷ (lba / 2 ^ 32 % 256)
    ∷ (lba / 2 ^ 8 % 256)
    ∷ (lba / 2 ^ 40 % 256)
    ∷ (lba / 2 ^ 16 % 256)
    ∷ 0
    ∷ status
    ∷ []

-- Reading the descriptor gives back the status, the error and the LBA that the device returned.
pub fill-returned :
    (h : IoHdr) (cmd header : List ℕ) (error status lba : ℕ)
    → lba < 2 ^ 48
    → let d =
        fill_scsi_ata_return_descriptor
          (record { io_hdr = h; scsi_cmd = cmd; sense_buf = returned header error status lba }) in
      (d.lba ≡ lba) × (d.error ≡ error) × (d.status ≡ status)
unfolding fill_scsi_ata_return_descriptor
fill-returned h cmd header error status lba l = (omega arith, refl, refl)
