-- ===== src/MaxLba.antt =====
-- The queries and the setting of a drive's highest LBA in libdevcheck/utils.c, and the procedure
-- `hpa_set` of libdevcheck/hpa_set.c.
pub mod Drive
pub mod SetUp
mod Tests
use whdd_modify.Prelude.{
  ℕ, ◌+◌, ◌-◌, ◌*◌, ◌/◌, ◌%◌, ◌^◌, Bool, true, false, not, ◌||◌, Option, none, some, List, [],
  get_or, set, ◌==◌, if◌then◌else◌,
}
use whdd_modify.Prelude.Words.{add64, sub64, mul64}
use whdd_modify.Ata.{prepare_ata_command}
use whdd_modify.Scsi.{
  from_dev, ScsiCommand, prepare_scsi_command_from_ata, bit, fill_scsi_ata_return_descriptor,
  get_sense_key_from_sense_buffer, above_recovered,
}

-- What `ioctl(SG_IO)` does: whether it fails, and the command and the data as it leaves them.
pub record Answer : Type 0 where
  pub fails : Bool
  pub command : ScsiCommand
  pub data_read : List ℕ

abbrev pub prepared : ℕ → ℕ → ℕ → ScsiCommand
prepared cmd lba size = prepare_scsi_command_from_ata (prepare_ata_command cmd lba size)

-- WIN_IDENTIFY with the protocol PIO_IN and the transfer length that it needs
unfoldable pub identify_command : ScsiCommand
identify_command = record c {
  io_hdr = record (c.io_hdr) { dxfer_direction = from_dev; dxfer_len = 512 };
  scsi_cmd = set (set c.scsi_cmd 1 9) 2 0x2e;
}
  where
    c : ScsiCommand
    c = prepared 0xec 0 0

-- The test of the response.
unfoldable pub is_error : ScsiCommand → Bool
is_error c =
    bit (fill_scsi_ata_return_descriptor c).status 0
    || above_recovered (get_sense_key_from_sense_buffer c.sense_buf)

-- Words 100 to 102 of the identification
unfoldable pub addressable : List ℕ → ℕ
addressable buf =
    get_or buf 200 0
    + get_or buf 201 0 * 2 ^ 8
    + get_or buf 202 0 * 2 ^ 16
    + get_or buf 203 0 * 2 ^ 24
    + get_or buf 204 0 * 2 ^ 32
    + get_or buf 205 0 * 2 ^ 40

abbrev pub capacity_of : Option ℕ → Option ℕ
capacity_of none = none
capacity_of (some max_lba) = some (mul64 (add64 max_lba 1) 512)

-- `S` is the state of the drive; `opens` tells whether it can be opened. In a result, `none` is the
-- return value -1.
module _ {S : Type 0} (opens : Bool) (ioctl : ScsiCommand → S → Answer × S) where
  unfoldable pub dc_dev_ata_identify : S → Option (List ℕ) × S
  dc_dev_ata_identify s =
      let a = ioctl identify_command s in
      if not opens
      then (none, s)
      else if a.0.fails || is_error a.0.command
      then (none, a.1)
      else (some a.0.data_read, a.1)

  abbrev pub max_lba_of : Option (List ℕ) → Option ℕ
  max_lba_of none = none
  max_lba_of (some buf) = some (sub64 (addressable buf) 1)

  unfoldable pub dc_dev_get_max_lba : S → Option ℕ × S
  dc_dev_get_max_lba s = let r = dc_dev_ata_identify s in (max_lba_of r.0, r.1)

  unfoldable pub dc_dev_get_capacity : S → Option ℕ × S
  dc_dev_get_capacity s = let r = dc_dev_get_max_lba s in (capacity_of r.0, r.1)

  unfoldable pub dc_dev_ata_capable : S → Bool × S
  dc_dev_ata_capable s =
      let r = dc_dev_get_max_lba s in
      (elim (r.0) as (λ _. Bool) [ none ↦ false | some m ↦ true ], r.1)

  unfoldable pub dc_dev_get_native_max_lba : S → Option ℕ × S
  dc_dev_get_native_max_lba s =
      let a = ioctl (prepared 0x27 0 0) s in
      if not opens
      then (none, s)
      else if a.0.fails
      then (none, a.1)
      else (some (fill_scsi_ata_return_descriptor a.0.command).lba, a.1)

  unfoldable pub dc_dev_get_native_capacity : S → Option ℕ × S
  dc_dev_get_native_capacity s = let r = dc_dev_get_native_max_lba s in (capacity_of r.0, r.1)

  -- The flag tells whether the value is not 0.
  unfoldable pub dc_dev_set_max_lba : ℕ → S → Bool × S
  dc_dev_set_max_lba lba s =
      let native = dc_dev_get_native_capacity s in
      let a = ioctl (prepared 0x37 lba 1) native.1 in
      if not opens then (true, native.1) else (a.0.fails || is_error a.0.command, a.1)

  unfoldable pub dc_dev_set_max_capacity : ℕ → S → Bool × S
  dc_dev_set_max_capacity capacity = dc_dev_set_max_lba (sub64 (capacity / 512) 1)

  -- `SuggestDefaultValue` of hpa_set.c; the text is the number in decimal.
  abbrev pub suggested_max_lba : ℕ → ℕ
  suggested_max_lba native_capacity = sub64 (native_capacity / 512) 1

  -- `Open` of hpa_set.c: its flag tells whether an error is logged. It returns 0.
  unfoldable pub open_hpa_set : ℕ → ℕ → S → Bool × S
  open_hpa_set native_capacity max_lba s =
      let r = dc_dev_set_max_lba (sub64 (native_capacity / 512) 1) s in
      dc_dev_set_max_lba max_lba r.1
