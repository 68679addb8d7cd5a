-- ===== src/Scsi/Capacity/Decode.antt =====
-- What `dc_scsi_read_capacity16` accepts and what it makes of a response, against the layout of the
-- SCSI Block Commands standard.
use whdd_modify.Prelude.{
  ℕ, ◌+◌, ◌*◌, ◌/◌, ◌%◌, ◌^◌, ◌<◌, ◌≡◌, ◌↔◌, refl, sym, ap, ◌∙◌, Bool, true, false, Option, none,
  some, List, ◌∷◌, arith,
}
use whdd_modify.Scsi.{IoHdr, ScsiCommand}
use whdd_modify.Scsi.Capacity.{
  ScsiCapacity16, capacity, Answer, response_size, be32_value, be64_from, be64_value,
  read_capacity_command, is_bad, decode, dc_scsi_read_capacity16,
}

-- The first bytes of a response: numbers with their highest byte first, then the protection fields.
-- The bits that no field names may be anything.
abbrev pub response : ScsiCapacity16 → ℕ → ℕ → List ℕ → List ℕ
response c high low rest =
    (c.last_lba / 2 ^ 56 % 256)
    ∷ (c.last_lba / 2 ^ 48 % 256)
    ∷ (c.last_lba / 2 ^ 40 % 256)
    ∷ (c.last_lba / 2 ^ 32 % 256)
    ∷ (c.last_lba / 2 ^ 24 % 256)
    ∷ (c.last_lba / 2 ^ 16 % 256)
    ∷ (c.last_lba / 2 ^ 8 % 256)
    ∷ (c.last_lba % 256)
    ∷ (c.block_length / 2 ^ 24 % 256)
    ∷ (c.block_length / 2 ^ 16 % 256)
    ∷ (c.block_length / 2 ^ 8 % 256)
    ∷ (c.block_length % 256)
    ∷ (high * 16 + c.p_type * 2 + c.prot_en)
    ∷ (c.p_i_exponent * 16 + low)
    ∷ rest

-- The fields as a response holds them.
pub record Fits (c : ScsiCapacity16) : Type 0 where
  pub last_lba : c.last_lba < 2 ^ 64
  pub block_length : c.block_length < 2 ^ 32
  pub prot_en : c.prot_en < 2
  pub p_type : c.p_type < 8
  pub p_i_exponent : c.p_i_exponent < 16

-- Each round of the loop leaves the bytes that are read so far.
shifted :
    (x : ℕ)
    → x < 2 ^ 64
    → (((((((0 + x / 2 ^ 56 % 256) * 2 ^ 8 % 2 ^ 64 + x / 2 ^ 48 % 256) * 2 ^ 8 % 2 ^ 64
                            + x / 2 ^ 40 % 256)
                          * 2 ^ 8
                          % 2 ^ 64
                        + x / 2 ^ 32 % 256)
                      * 2 ^ 8
                      % 2 ^ 64
                    + x / 2 ^ 24 % 256)
                  * 2 ^ 8
                  % 2 ^ 64
                + x / 2 ^ 16 % 256)
              * 2 ^ 8
              % 2 ^ 64
            + x / 2 ^ 8 % 256)
          * 2 ^ 8
          % 2 ^ 64
        + x % 256
      ≡ x
shifted x l = omega arith

-- Decoding a response gives back the capacity, the block length and the protection fields, whatever
-- the bits that no field names are.
pub decode-response :
    (c : ScsiCapacity16) (high low : ℕ) (rest : List ℕ)
    → Fits c
    → high < 16
    → low < 16
    → let d = decode (response c high low rest) in
      (d.last_lba ≡ c.last_lba)
      × (d.block_length ≡ c.block_length)
      × (d.prot_en ≡ c.prot_en)
      × (d.p_type ≡ c.p_type)
      × (d.p_i_exponent ≡ c.p_i_exponent)
unfolding decode be32_value be64_from be64_value
decode-response c high low rest f h l = (
  shifted c.last_lba f.last_lba,
  omega (arith, f.block_length),
  omega (arith, f.prot_en),
  omega (arith, f.prot_en, f.p_type),
  omega (arith, f.p_i_exponent),
)

-- The device has transferred the whole response, and neither it nor the driver nor the host adapter
-- has reported anything.
pub record IsComplete (h : IoHdr) : Type 0 where
  pub status : h.status ≡ 0
  pub host_status : h.host_status ≡ 0
  pub driver_status : h.driver_status ≡ 0
  pub nothing_missing : h.resid ≡ some 0

good_lem : (h : IoHdr) → IsComplete h → h.dxfer_len ≡ response_size → is_bad h ≡ false
unfolding is_bad
good_lem h w e = simp (w.status, w.host_status, w.driver_status, w.nothing_missing, e, is_bad) refl

complete_lem : (h : IoHdr) → is_bad h ≡ false → h.dxfer_len ≡ response_size → IsComplete h
unfolding is_bad
complete_lem h w e = record {
  status = ground arith;
  host_status = ground arith;
  driver_status = ground arith;
  nothing_missing = ground arith;
}

accepted_lem :
    (given : Bool) (opens : Option ℕ) (ioctl : ScsiCommand → Answer) (c : ScsiCapacity16)
    → (dc_scsi_read_capacity16 given opens ioctl ≡ capacity c) ↔ (
        (given ≡ true)
        × (opens ≡ none)
        × ((ioctl read_capacity_command).errno ≡ none)
        × (is_bad (ioctl read_capacity_command).command.io_hdr ≡ false)
        × (decode (ioctl read_capacity_command).response ≡ c))
unfolding dc_scsi_read_capacity16
accepted_lem given opens ioctl c = ground arith

-- With a driver that leaves the transfer length as it was asked for, a capacity is returned
-- exactly where the arguments are given, both calls succeed and the whole response has come
-- without any status; then it is the decoded response.
pub dc_scsi_read_capacity16_iff :
    (given : Bool) (opens : Option ℕ) (ioctl : ScsiCommand → Answer) (c : ScsiCapacity16)
    → (ioctl read_capacity_command).command.io_hdr.dxfer_len ≡ response_size
    → (dc_scsi_read_capacity16 given opens ioctl ≡ capacity c) ↔ (
        (given ≡ true)
        × (opens ≡ none)
        × ((ioctl read_capacity_command).errno ≡ none)
        × IsComplete (ioctl read_capacity_command).command.io_hdr
        × (decode (ioctl read_capacity_command).response ≡ c))
dc_scsi_read_capacity16_iff given opens ioctl c e =
    let (to, from) = accepted_lem given opens ioctl c in
    (
      λ h. let (g, o, n, w, d) = to h in (g, o, n, complete_lem _ w e, d),
      λ (g, o, n, w, d). from (g, o, n, good_lem _ w e, d),
    )

decode-same :
    (c : ScsiCapacity16) (high low : ℕ) (rest : List ℕ)
    → Fits c
    → high < 16
    → low < 16
    → decode (response c high low rest) ≡ c
decode-same c high low rest f h l =
    let (a, b, p, t, i) = decode-response c high low rest f h l in
    same_fields (decode (response c high low rest)) c a b p t i
  where
    same_fields :
        (d c : ScsiCapacity16)
        → d.last_lba ≡ c.last_lba
        → d.block_length ≡ c.block_length
        → d.prot_en ≡ c.prot_en
        → d.p_type ≡ c.p_type
        → d.p_i_exponent ≡ c.p_i_exponent
        → d ≡ c
    same_fields d c a b p t i = cc

-- A device that answers in the layout of the standard, whatever the bits that no field names are,
-- and a driver that leaves the transfer length as it was asked for. The call gives a capacity
-- exactly where the arguments are given, both calls succeed and the whole response has come without
-- any status, and it is that of the device: the LBA, the block length and the protection fields.
pub dc_scsi_read_capacity16-reads :
    (given : Bool) (opens : Option ℕ) (ioctl : ScsiCommand → Answer) (c x : ScsiCapacity16)
    (high low : ℕ) (rest : List ℕ)
    → Fits c
    → high < 16
    → low < 16
    → (ioctl read_capacity_command).response ≡ response c high low rest
    → (ioctl read_capacity_command).command.io_hdr.dxfer_len ≡ response_size
    → (dc_scsi_read_capacity16 given opens ioctl ≡ capacity x) ↔ (
        (given ≡ true)
        × (opens ≡ none)
        × ((ioctl read_capacity_command).errno ≡ none)
        × IsComplete (ioctl read_capacity_command).command.io_hdr
        × (c ≡ x))
dc_scsi_read_capacity16-reads given opens ioctl c x high low rest f h l r e =
    let told = ap decode r ∙ decode-same c high low rest f h l in
    let (to, from) = dc_scsi_read_capacity16_iff given opens ioctl x e in
    (
      λ q. let (g, o, n, w, d) = to q in (g, o, n, w, sym told ∙ d),
      λ (g, o, n, w, d). from (g, o, n, w, told ∙ d),
    )
