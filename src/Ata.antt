-- ===== src/Ata.antt =====
-- libdevcheck/ata.c: the task file registers of an ATA command. A task file holds its eight
-- registers in the order of <linux/hdreg.h>: a port's number is the register's place.
use whdd_modify.Prelude.{ℕ, ◌-◌, ◌*◌, ◌/◌, ◌%◌, ◌^◌, [], ◌∷◌, get_or}

-- `task_struct_t` and `hob_struct_t`
pub record TaskFile : Type 0 where
  pub feature : ℕ
  pub sector_count : ℕ
  pub sector_number : ℕ
  pub low_cylinder : ℕ
  pub high_cylinder : ℕ
  pub device_head : ℕ
  pub command : ℕ

-- `io_ports[i]`, `hob_ports[i]`; port 0 is the data register, which stays 0.
abbrev pub port : TaskFile → ℕ → ℕ
port r i =
    get_or
      (0 ∷ r.feature ∷ r.sector_count ∷ r.sector_number ∷ r.low_cylinder ∷ r.high_cylinder
        ∷ r.device_head ∷ r.command ∷ [])
      i 0

pub record AtaCommand : Type 0 where
  pub io_ports : TaskFile
  pub hob_ports : TaskFile
  pub out_flags : ℕ

-- Byte i of the big-endian form of a uint64_t.
abbrev pub be_byte : ℕ → ℕ → ℕ
be_byte lba i = lba / 2 ^ (8 * (7 - i)) % 256

unfoldable pub prepare_ata_command : ℕ → ℕ → ℕ → AtaCommand
prepare_ata_command cmd lba size_in_sectors = record {
  io_ports = record {
    feature = 0;
    sector_count = size_in_sectors % 256;
    sector_number = be_byte lba 7;
    low_cylinder = be_byte lba 6;
    high_cylinder = be_byte lba 5;
    device_head = 0x40;
    command = cmd % 256;
  };
  hob_ports = record {
    feature = 0;
    sector_count = size_in_sectors / 256 % 256;
    sector_number = be_byte lba 4;
    low_cylinder = be_byte lba 3;
    high_cylinder = be_byte lba 2;
    device_head = 0;
    command = 0;
  };
  out_flags = 0xffff;
}
