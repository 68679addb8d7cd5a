-- ===== src/MaxLba/Drive.antt =====
-- What an ATA drive with a host protected area does, as far as libdevcheck/utils.c relies on it.
use whdd_modify.Prelude.{ℕ, ◌+◌, ◌≡◌, ◌<◌, ◌≤◌, ◌^◌, ◌%◌, Bool, true, false, get_or}
use whdd_modify.Scsi.{ScsiCommand, fill_scsi_ata_return_descriptor}
use whdd_modify.Scsi.Encoding.{cdb_lba, cdb_count}
use whdd_modify.MaxLba.{Answer, is_error, addressable}

-- The ATA command in a pass-through command
abbrev pub cdb_command : ScsiCommand → ℕ
cdb_command c = get_or c.scsi_cmd 14 0

-- An answer to a command that the drive carried out.
abbrev pub Succeeds : Answer → Type 0
Succeeds a = (a.fails ≡ false) × (is_error a.command ≡ false)

-- Of a state: the native highest LBA, the highest LBA that is set, and whether the last command was
-- READ NATIVE MAX ADDRESS EXT; `refuses` tells whether the drive refuses the next non-volatile setting.
-- The laws are those of the ATA standard: a non-volatile SET MAX ADDRESS EXT, which has bit 0 of its
-- count set, sets the highest LBA if that command comes just before it and the LBA is not above the
-- native one, and fails for an LBA above it. After one such setting since power-on, a drive should
-- refuse a second; `once` tells whether this one does.
pub record IsDrive {S : Type 0} (ioctl : ScsiCommand → S → Answer × S) (native max : S → ℕ)
    (armed : S → Bool) (once : Bool) (refuses : S → Bool) : Type 0 where
  pub range : (s : S) → (native s + 1 < 2 ^ 48) × (max s ≤ native s)
  pub read_native :
      (c : ScsiCommand) (s : S)
      → cdb_command c ≡ 0x27
      → ((ioctl c s).0.fails ≡ false)
        × ((fill_scsi_ata_return_descriptor (ioctl c s).0.command).lba ≡ native s)
        × (native (ioctl c s).1 ≡ native s)
        × (max (ioctl c s).1 ≡ max s)
        × (armed (ioctl c s).1 ≡ true)
        × (refuses (ioctl c s).1 ≡ refuses s)
  pub set_max :
      (c : ScsiCommand) (s : S)
      → cdb_command c ≡ 0x37
      → cdb_count c.scsi_cmd % 2 ≡ 1
      → armed s ≡ true
      → refuses s ≡ false
      → cdb_lba c.scsi_cmd ≤ native s
      → Succeeds (ioctl c s).0
        × (native (ioctl c s).1 ≡ native s)
        × (max (ioctl c s).1 ≡ cdb_lba c.scsi_cmd)
        × (refuses (ioctl c s).1 ≡ once)
  pub set_again :
      (c : ScsiCommand) (s : S)
      → cdb_command c ≡ 0x37
      → cdb_count c.scsi_cmd % 2 ≡ 1
      → refuses s ≡ true
      → (is_error (ioctl c s).0.command ≡ true)
        × (native (ioctl c s).1 ≡ native s)
        × (max (ioctl c s).1 ≡ max s)
  pub set_above :
      (c : ScsiCommand) (s : S)
      → cdb_command c ≡ 0x37
      → native s < cdb_lba c.scsi_cmd
      → (is_error (ioctl c s).0.command ≡ true)
        × (native (ioctl c s).1 ≡ native s)
        × (max (ioctl c s).1 ≡ max s)
  pub identify :
      (c : ScsiCommand) (s : S)
      → cdb_command c ≡ 0xec
      → Succeeds (ioctl c s).0 × (addressable (ioctl c s).0.data_read ≡ max s + 1)
