-- ===== src/Scsi/Tests.antt =====
-- Commands and answers of libdevcheck/scsi.c on concrete values.
use whdd_modify.Scsi.Capacity.Decode.{response, IsComplete, dc_scsi_read_capacity16-reads}
use whdd_modify.Scsi.Capacity.{
  ScsiCapacity16, Answer, capacity, response_size, read_capacity_command, dc_scsi_read_capacity16,
}
use whdd_modify.Prelude.{◌%◌, ◌≡◌, ◌↔◌, refl, true, [], ◌∷◌, arith, get_or, none, Option, ℕ}
use whdd_modify.Procedure.{BlockStatus}
use whdd_modify.Ata.{prepare_ata_command}
use whdd_modify.Scsi.{
  ScsiCommand, zero_hdr, bit, prepare_scsi_command_from_ata, fill_scsi_ata_return_descriptor,
  scsi_ata_check_return_status, get_sense_key_from_sense_buffer,
}
use whdd_modify.Scsi.Status.{Statuses, check_each_iff}
use whdd_modify.Scsi.Encoding.{cdb_lba, cdb_count, returned, prepare-decodes, fill-returned}

abbrev verify_command : ScsiCommand
verify_command = prepare_scsi_command_from_ata (prepare_ata_command 0x42 0x123456789abc 0x1234)

prepare-decodes_example :
    let b = verify_command.scsi_cmd in
    (cdb_lba b ≡ 0x123456789abc)
    × (cdb_count b ≡ 0x1234)
    × (get_or b 14 0 ≡ 0x42)
    × (get_or b 0 0 ≡ 0x85)
    × (get_or b 1 0 % 2 ≡ 1)
    × (get_or b 13 0 ≡ 0x40)
prepare-decodes_example =
    prepare-decodes 0x42 0x123456789abc 0x1234 (omega arith) (omega arith) (omega arith)

-- UNC at a sector, with the status register's bits ERR and DRDY.
abbrev uncorrectable : ScsiCommand
uncorrectable = record {
  io_hdr = record zero_hdr { status = 2; timeout = 1000; duration = 30 };
  scsi_cmd = [];
  sense_buf = returned (0x72 ∷ 3 ∷ []) 0x40 0x41 0x123456789abc;
}

fill-returned_example :
    let d = fill_scsi_ata_return_descriptor uncorrectable in
    (d.lba ≡ 0x123456789abc) × (d.error ≡ 0x40) × (d.status ≡ 0x41)
fill-returned_example =
    fill-returned (record zero_hdr { status = 2; timeout = 1000; duration = 30 }) [] (0x72 ∷ 3 ∷ [])
      0x40 0x41 0x123456789abc (omega arith)

check_each_iff_example : Statuses uncorrectable (scsi_ata_check_return_status uncorrectable)
check_each_iff_example = check_each_iff uncorrectable

has_error_bit : bit (fill_scsi_ata_return_descriptor uncorrectable).status 0 ≡ true
unfolding fill_scsi_ata_return_descriptor
has_error_bit = refl

-- A disk of 2 ^ 40 sectors with 4096-byte blocks and protection of type 2.
abbrev large_disk : ScsiCapacity16
large_disk = record {
  last_lba = 0xffffffffff;
  block_length = 4096;
  prot_en = 1;
  p_type = 1;
  p_i_exponent = 3;
}

-- A driver that leaves the header as it got it.
abbrev answers : ScsiCommand → Answer
answers c = record { errno = none; command = c; response = response large_disk 2 5 [] }

same_length : (answers read_capacity_command).command.io_hdr.dxfer_len ≡ response_size
unfolding read_capacity_command
same_length = refl

dc_scsi_read_capacity16-reads_example :
    (dc_scsi_read_capacity16 true none answers ≡ capacity large_disk) ↔ (
      (true ≡ true)
      × (◌≡◌ {A = Option ℕ} none none)
      × ((answers read_capacity_command).errno ≡ none)
      × IsComplete (answers read_capacity_command).command.io_hdr
      × (large_disk ≡ large_disk))
dc_scsi_read_capacity16-reads_example =
    dc_scsi_read_capacity16-reads true none answers large_disk large_disk 2 5 []
      (record {
        last_lba = omega arith;
        block_length = omega arith;
        prot_en = omega arith;
        p_type = omega arith;
        p_i_exponent = omega arith;
      })
      (omega arith) (omega arith) refl same_length

-- "Aborted command" in fixed format, with the bit above the key set.
aborted :
    scsi_ata_check_return_status (record {
      io_hdr = record zero_hdr { status = 2; timeout = 1000; duration = 30 };
      scsi_cmd = [];
      sense_buf = 0x70 ∷ 0 ∷ 0x2b ∷ [];
    })
    ≡ BlockStatus.abrt
unfolding scsi_ata_check_return_status fill_scsi_ata_return_descriptor
    get_sense_key_from_sense_buffer
aborted = refl
