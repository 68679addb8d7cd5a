-- ===== src/Scsi/Capacity.antt =====
-- READ CAPACITY(16) of libdevcheck/scsi.c.
pub mod Decode
use whdd_modify.Prelude.{
  ℕ, zero, suc, ◌+◌, ◌-◌, ◌*◌, ◌/◌, ◌%◌, ◌^◌, Bool, true, false, not, ◌||◌, Option, none, some,
  List, [], ◌∷◌, ltb, leb, ◌==◌, if◌then◌else◌, get_or, set, replicate,
}
use whdd_modify.Prelude.Words.{sub64}
use whdd_modify.Scsi.{Direction, from_dev, IoHdr, ScsiCommand, zero_hdr}

-- `DC_ScsiCapacity16`
pub record ScsiCapacity16 : Type 0 where
  pub last_lba : ℕ
  pub block_length : ℕ
  pub prot_en : ℕ
  pub p_type : ℕ
  pub p_i_exponent : ℕ

-- The value 0 with the result, or the value -1 with `errno`, where `system` is what a call has left
-- there.
pub data Capacity : Type 0 where
  capacity : ScsiCapacity16 → Capacity
  einval eio : Capacity
  system : ℕ → Capacity

-- What `ioctl(SG_IO)` does: `errno` where it fails, and the command and the response as it leaves them.
pub record Answer : Type 0 where
  pub errno : Option ℕ
  pub command : ScsiCommand
  pub response : List ℕ

abbrev pub response_size : ℕ
response_size = 32

unfoldable pub be32_value : List ℕ → ℕ → ℕ
be32_value p at =
    get_or p at 0 * 2 ^ 24
    + get_or p (at + 1) 0 * 2 ^ 16
    + get_or p (at + 2) 0 * 2 ^ 8
    + get_or p (at + 3) 0

-- The loop over the bytes left, from `i` on.
unfoldable pub be64_from : List ℕ → ℕ → ℕ → ℕ → ℕ
be64_from p zero i value = value
be64_from p (suc n) i value = be64_from p n (i + 1) (value * 2 ^ 8 % 2 ^ 64 + get_or p i 0)

unfoldable pub be64_value : List ℕ → ℕ
be64_value p = be64_from p 8 0 0

unfoldable pub read_capacity_command : ScsiCommand
read_capacity_command = record {
  io_hdr = record zero_hdr {
    dxfer_direction = from_dev;
    dxfer_len = response_size;
    timeout = 3000;
  };
  scsi_cmd = set (set (set (replicate 16 0) 0 0x9e) 1 0x10) 13 response_size;
  sense_buf = replicate 32 0;
}

-- The test of the header. `resid` is an int; `dxfer_len` is unsigned.
unfoldable pub is_bad : IoHdr → Bool
is_bad h =
    not (h.status == 0)
    || (not (h.host_status == 0)
        || (not (h.driver_status == 0) || (elim (h.resid) [
          | none ↦ true
          | some n ↦ ltb response_size n || ltb ((h.dxfer_len + 2 ^ 32 - n) % 2 ^ 32) response_size
        ])))

unfoldable pub decode : List ℕ → ScsiCapacity16
decode r = record {
  last_lba = be64_value r;
  block_length = be32_value r 8;
  prot_en = get_or r 12 0 % 2;
  p_type = get_or r 12 0 / 2 % 8;
  p_i_exponent = get_or r 13 0 / 16 % 16;
}

-- `given` tells whether both pointers are not null; `opens` is the `errno` of an `open` that fails.
unfoldable pub dc_scsi_read_capacity16 : Bool → Option ℕ → (ScsiCommand → Answer) → Capacity
dc_scsi_read_capacity16 given opens ioctl =
    let a = ioctl read_capacity_command in
    if not given then einval else elim opens [
      | some errno ↦ system errno
      | none ↦ elim (a.errno) [
        | some errno ↦ system errno
        | none ↦ if is_bad a.command.io_hdr then eio else capacity (decode a.response)
      ]
    ]
