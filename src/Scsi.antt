-- ===== src/Scsi.antt =====
-- libdevcheck/scsi.h and scsi.c: SCSI pass-through commands and what their answers mean.
pub mod Status
pub mod Encoding
pub mod Capacity
mod Tests
use whdd_modify.Prelude.{
  ℕ, ◌+◌, ◌-◌, ◌*◌, ◌/◌, ◌%◌, ◌^◌, Bool, true, false, not, ◌||◌, Option, none, some, List, [], ◌∷◌,
  ltb, leb, ◌==◌, if◌then◌else◌, get_or, replicate,
}
use whdd_modify.Procedure.{BlockStatus}
use whdd_modify.Ata.{AtaCommand, port}

pub data Direction : Type 0 where
  no_transfer from_dev : Direction

-- The members of `sg_io_hdr_t` that the program writes and reads. `resid` is an int that the
-- driver returns: `none` stands for a negative one.
pub record IoHdr : Type 0 where
  pub dxfer_direction : Direction
  pub dxfer_len : ℕ
  pub timeout : ℕ
  pub status : ℕ
  pub host_status : ℕ
  pub driver_status : ℕ
  pub resid : Option ℕ
  pub duration : ℕ

pub record ScsiCommand : Type 0 where
  pub io_hdr : IoHdr
  pub scsi_cmd : List ℕ
  pub sense_buf : List ℕ

-- `memset(.., 0, ..)`
abbrev pub zero_hdr : IoHdr
zero_hdr = record {
  dxfer_direction = no_transfer;
  dxfer_len = 0;
  timeout = 0;
  status = 0;
  host_status = 0;
  driver_status = 0;
  resid = some 0;
  duration = 0;
}

-- The protocol in bits 1 to 4, and the EXTEND flag.
abbrev pub non_data_extended : ℕ
non_data_extended = 3 * 2 + 1

unfoldable pub prepare_scsi_command_from_ata : AtaCommand → ScsiCommand
prepare_scsi_command_from_ata ata = record {
  io_hdr = record zero_hdr { timeout = 1000 };
  scsi_cmd =
      0x85
      ∷ non_data_extended
      ∷ 0x20
      ∷ port ata.hob_ports 1
      ∷ port ata.io_ports 1
      ∷ port ata.hob_ports 2
      ∷ port ata.io_ports 2
      ∷ port ata.hob_ports 3
      ∷ port ata.io_ports 3
      ∷ port ata.hob_ports 4
      ∷ port ata.io_ports 4
      ∷ port ata.hob_ports 5
      ∷ port ata.io_ports 5
      ∷ port ata.io_ports 6
      ∷ port ata.io_ports 7
      ∷ 0
      ∷ [];
  sense_buf = replicate 32 0;
}

-- Bit i of a byte.
abbrev pub bit : ℕ → ℕ → Bool
bit x i = x / 2 ^ i % 2 == 1

pub record ScsiAtaReturnDescriptor : Type 0 where
  pub error : ℕ
  pub status : ℕ
  pub lba : ℕ

-- The bytes do not overlap, so their disjunction is a sum.
unfoldable pub fill_scsi_ata_return_descriptor : ScsiCommand → ScsiAtaReturnDescriptor
fill_scsi_ata_return_descriptor c = record {
  error = descr 3;
  status = descr 13;
  lba =
      descr 7
      + descr 9 * 2 ^ 8
      + descr 11 * 2 ^ 16
      + descr 6 * 2 ^ 24
      + descr 8 * 2 ^ 32
      + descr 10 * 2 ^ 40;
}
  where
    descr : ℕ → ℕ
    descr i = get_or c.sense_buf (8 + i) 0

-- `none` is the return value -1.
unfoldable pub get_sense_key_from_sense_buffer : List ℕ → Option ℕ
get_sense_key_from_sense_buffer buf =
    if get_or buf 0 0 == 0x70 || get_or buf 0 0 == 0x71
    then some (get_or buf 2 0 % 16)
    else if get_or buf 0 0 == 0x72 || get_or buf 0 0 == 0x73
    then some (get_or buf 1 0 % 16)
    else none

-- `sense_key > 0x01`
abbrev pub above_recovered : Option ℕ → Bool
above_recovered none = false
above_recovered (some k) = ltb 1 k

abbrev pub is_key : Option ℕ → ℕ → Bool
is_key none k = false
is_key (some j) k = j == k

-- The branches on the descriptor's error register.
unfoldable pub error_register_status : ℕ → BlockStatus
error_register_status e =
    if bit e 6
    then BlockStatus.unc
    else if bit e 4
    then BlockStatus.idnf
    else if bit e 2
    then BlockStatus.abrt
    else if bit e 0
    then BlockStatus.amnf
    else BlockStatus.error

unfoldable pub scsi_ata_check_return_status : ScsiCommand → BlockStatus
unfolding error_register_status
scsi_ata_check_return_status c =
    let sense_key = get_sense_key_from_sense_buffer c.sense_buf in
    let scsi_ata_return = fill_scsi_ata_return_descriptor c in
    if c.io_hdr.status == 0
    then BlockStatus.ok
    else if not (c.io_hdr.status == 2)
    then BlockStatus.error
    else if bit scsi_ata_return.status 0
    then error_register_status scsi_ata_return.error
    else if bit scsi_ata_return.status 5
    then BlockStatus.error
    else if above_recovered sense_key
    then if is_key sense_key 0x0b then BlockStatus.abrt else BlockStatus.error
    else if leb c.io_hdr.timeout c.io_hdr.duration
    then BlockStatus.timeout
    else BlockStatus.ok
