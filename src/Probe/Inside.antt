-- ===== src/Probe/Inside.antt =====
-- What `dc_blk_read` of libdevcheck/blk_probe.c sends to the device.
use whdd_modify.Prelude.{
  ℕ, ◌+◌, ◌-◌, ◌*◌, ◌/◌, ◌%◌, ◌^◌, ◌≤◌, ◌<◌, ◌≡◌, refl, ◌⊎◌, Bool, true, false, not, ◌||◌, Option,
  none, some, inl, inr, arith, ltb, leb, ◌==◌, Bool-cases, Option-cases,
}
use whdd_modify.Prelude.Words.{mul64, sub64}
use whdd_modify.Procedure.{Api, ata, posix}
use whdd_modify.Ata.{prepare_ata_command}
use whdd_modify.Scsi.{prepare_scsi_command_from_ata}
use whdd_modify.Scsi.Encoding.{cdb_lba, cdb_count}
use whdd_modify.Probe.{
  Result, ok, failed, system, Kernel, Range, Sent, sg_io, pread, Reading, check_api, check_fits,
  check_range, find_range, alignment, opens_device, read_range, read_command, send, dc_blk_read,
  dc_dev_logical_sector_size, dc_dev_capacity_bytes,
}

times_div : (a c s : ℕ) → a ≤ c / s → a * s ≤ c
times_div a c s h = grind arith

fits_div : (a s : ℕ) → a ≤ (2 ^ 64 - 1) / s → mul64 a s ≡ a * s
fits_div a s h = omega (arith, times_div a (2 ^ 64 - 1) s h)

-- What a range needs so that a command of the API can name it.
abbrev Addressed : Api → ℕ → Range → Type 0
Addressed ata sectors r = (sectors < 2 ^ 16) × (r.byte_count < 2 ^ 32)
Addressed posix sectors r = Unit {0}

check_api-Addressed :
    (api : Api) (ata_capable : Bool) (sectors : ℕ) (r : Range)
    → ((check_api api ata_capable sectors r ≡ ok r) × Addressed api sectors r)
      ⊎ ((e : ℕ) × (check_api api ata_capable sectors r ≡ failed e))
unfolding check_api
check_api-Addressed posix capable sectors r = inl (refl, tt)
check_api-Addressed ata false sectors r = inr (_, refl)
check_api-Addressed ata true sectors r =
    elim (Bool-cases (ltb 0xffff sectors || ltb (2 ^ 32 - 1) r.byte_count)) [
      | inl long ↦ rw long (inr (_, refl))
      | inr short ↦ rw short (inl (refl, ground arith))
    ]

module _ (api : Api) (ata_capable : Bool) (start_lba sectors sector_size capacity_bytes : ℕ) where
  -- A range of whole sectors of the device that the API can address.
  pub record IsRange (r : Range) : Type 0 where
    pub counts : r.byte_count ≡ sectors * sector_size
    pub starts : r.byte_offset ≡ start_lba * sector_size
    pub inside : start_lba + sectors ≤ capacity_bytes / sector_size
    pub begins : start_lba < capacity_bytes / sector_size
    pub small : r.byte_offset < 2 ^ 63

  data IsChecked : Result Range → Type 0 where
    checked : {r : Range} → IsRange r → Addressed api sectors r → IsChecked (ok r)
    refused : {e : ℕ} → IsChecked (failed e)

  check_api-IsChecked : (r : Range) → IsRange r → IsChecked (check_api api ata_capable sectors r)
  check_api-IsChecked r h = elim (check_api-Addressed api ata_capable sectors r) [
    | inl (e, a) ↦ rw e (checked h a)
    | inr (x, e) ↦ rw e refused
  ]

  check_fits-IsChecked :
      start_lba + sectors ≤ capacity_bytes / sector_size
      → start_lba < capacity_bytes / sector_size
      → IsChecked (check_fits api ata_capable start_lba sectors sector_size)
  unfolding check_fits
  check_fits-IsChecked inside begins =
      elim (Bool-cases
        (ltb ((2 ^ 64 - 1) / sector_size) sectors || ltb ((2 ^ 64 - 1) / sector_size) start_lba)) [
          | inl many ↦ rw many refused
          | inr few ↦
              rw few
                (elim (Bool-cases (
                  ltb (2 ^ 64 - 1) (mul64 sectors sector_size)
                  || ltb (2 ^ 63 - 1) (mul64 start_lba sector_size))) [
                    | inl high ↦ rw high refused
                    | inr low ↦ rw low (
                        check_api-IsChecked _ (record {
                          counts = fits_div sectors sector_size (ground arith);
                          starts = fits_div start_lba sector_size (ground arith);
                          inside = inside;
                          begins = begins;
                          small = ground arith;
                        }))
                  ])
        ]

  in_bounds :
      capacity_bytes < 2 ^ 64
      → start_lba < 2 ^ 64
      → (leb (capacity_bytes / sector_size) start_lba
          || ltb (sub64 (capacity_bytes / sector_size) start_lba) sectors)
        ≡ false
      → start_lba + sectors ≤ capacity_bytes / sector_size
  in_bounds c l h =
      let less : capacity_bytes / sector_size ≤ capacity_bytes = grind arith in ground arith

  check_range-IsChecked :
      capacity_bytes < 2 ^ 64
      → start_lba < 2 ^ 64
      → IsChecked (check_range api ata_capable start_lba sectors sector_size capacity_bytes)
  unfolding check_range
  check_range-IsChecked c l =
      elim (Bool-cases (sector_size == 0 || not (capacity_bytes % sector_size == 0))) [
        | inl bad ↦ rw bad refused
        | inr whole ↦
            rw whole
              (elim (Bool-cases (
                leb (capacity_bytes / sector_size) start_lba
                || ltb (sub64 (capacity_bytes / sector_size) start_lba) sectors)) [
                  | inl out ↦ rw out refused
                  | inr in_range ↦
                      rw in_range (check_fits-IsChecked (in_bounds c l in_range) (ground arith))
                ])
      ]

  find_range-IsChecked :
      (k : Kernel) (given : Bool)
      → dc_dev_logical_sector_size k true ≡ ok sector_size
      → dc_dev_capacity_bytes k true ≡ ok capacity_bytes
      → capacity_bytes < 2 ^ 64
      → start_lba < 2 ^ 64
      → IsChecked (find_range k given ata_capable api start_lba sectors)
  unfolding find_range
  find_range-IsChecked k given s z c l = elim (Bool-cases (not given || sectors == 0)) [
    | inl bad ↦ rw bad refused
    | inr good ↦ rw (good, s, z) (check_range-IsChecked c l)
  ]

  -- A command that reads the range: for ATA it names the sectors, else the bytes.
  abbrev pub Reads : Sent → Type 0
  Reads (sg_io c) =
      (cdb_lba c.scsi_cmd ≡ start_lba)
      × (cdb_count c.scsi_cmd ≡ sectors)
      × (c.io_hdr.dxfer_len ≡ sectors * sector_size)
  Reads (pread count offset) =
      (count ≡ sectors * sector_size)
      × (offset ≡ start_lba * sector_size)
      × (offset + count ≤ capacity_bytes)
      × (offset < 2 ^ 63)

  -- What comes of a call: an error with nothing sent, or a range of the device that is read.
  abbrev pub IsAnswer : Option Sent × Result Reading → Type 0
  IsAnswer (none, ok r) = ⊥
  IsAnswer (none, failed e) = Unit {0}
  IsAnswer (none, system) = Unit {0}
  IsAnswer (some c, ok r) =
      Reads c
      × (start_lba + sectors ≤ capacity_bytes / sector_size)
      × (r.report.lba ≡ start_lba)
      × (r.report.sectors_processed ≡ sectors)
  IsAnswer (some c, failed e) = ⊥
  IsAnswer (some c, system) = Reads c × (start_lba + sectors ≤ capacity_bytes / sector_size)

  send-Reads :
      (k : Kernel) (r : Range)
      → IsRange r
      → Addressed api sectors r
      → capacity_bytes / sector_size ≤ 2 ^ 48
      → Reads (send k api start_lba sectors r).0
  unfolding send read_command prepare_scsi_command_from_ata prepare_ata_command
  send-Reads k r h a c =
      let counts = h.counts in
      let starts = h.starts in
      let inside = h.inside in
      let begins = h.begins in
      let small = h.small in
      let ends : (start_lba + sectors) * sector_size ≤ capacity_bytes =
        times_div _ _ sector_size inside in
      elim api as (λ x. Addressed x sectors r → Reads (send k x start_lba sectors r).0) [
        | ata ↦ λ fit. (omega arith, omega arith, counts)
        | posix ↦ λ fit. (counts, starts, grind arith, small)
      ]
        a

  read_range-IsAnswer :
      (k : Kernel) (r : Range)
      → IsRange r
      → Addressed api sectors r
      → capacity_bytes / sector_size ≤ 2 ^ 48
      → IsAnswer (read_range k api start_lba sectors r)
  unfolding read_range
  read_range-IsAnswer k r h a c =
      elim (Bool-cases (k.memalign (alignment k r.sector_size) r.byte_count)) [
        | inr bad ↦ rw bad tt
        | inl memory ↦ rw memory (elim (Bool-cases (opens_device k api)) [
          | inr shut ↦ rw shut tt
          | inl open_file ↦ rw open_file (elim (Option-cases (k.time_pre)) [
            | inl e ↦ rw e tt
            | inr (pre, e) ↦ rw e (elim (Option-cases (k.time_post)) [
              | inl u ↦ rw u (send-Reads k r h a c, h.inside)
              | inr (post, u) ↦ rw u (send-Reads k r h a c, h.inside, refl, refl)
            ])
          ])
        ])
      ]

  -- For a device of the given geometry with at most 2 ^ 48 sectors, and a start LBA of 64 bits:
  -- either an error is returned and nothing is sent, or one command is sent that reads the
  -- requested sectors, all of them on the device, and the report is about these. A pread is sent at
  -- the bytes of the sectors, an ATA command names the sectors in full. No error of the program's
  -- own is returned after a command was sent.
  pub dc_blk_read-IsAnswer :
      (k : Kernel) (given : Bool)
      → dc_dev_logical_sector_size k true ≡ ok sector_size
      → dc_dev_capacity_bytes k true ≡ ok capacity_bytes
      → capacity_bytes < 2 ^ 64
      → start_lba < 2 ^ 64
      → capacity_bytes / sector_size ≤ 2 ^ 48
      → IsAnswer (dc_blk_read k given ata_capable api start_lba sectors)
  unfolding dc_blk_read
  dc_blk_read-IsAnswer k given s z c l m =
      answer (find_range k given ata_capable api start_lba sectors)
        (find_range-IsChecked k given s z c l)
    where
      answer :
          (r : Result Range)
          → IsChecked r
          → IsAnswer (elim r as (λ _. Option Sent × Result Reading) [
            | failed e ↦ (none, failed e)
            | system ↦ (none, system)
            | ok r ↦ read_range k api start_lba sectors r
          ])
      answer _ (checked {r} h a) = read_range-IsAnswer k r h a m
      answer _ refused = tt
