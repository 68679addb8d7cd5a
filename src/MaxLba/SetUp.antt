-- ===== src/MaxLba/SetUp.antt =====
-- What `hpa_set` of libdevcheck/hpa_set.c leaves on a drive, and what libdevcheck/utils.c reads there.
use whdd_modify.Prelude.{
  ℕ, ◌+◌, ◌*◌, ◌/◌, ◌%◌, ◌^◌, ◌<◌, ◌≡◌, refl, sym, ◌∙◌, ap, inl, inr, Bool-cases, Bool, true, false,
  ◌||◌, some, arith, ltb, ltb→lt, ltb→le, if◌then◌else◌,
}
use whdd_modify.Prelude.Words.{add64, sub64, mul64}
use whdd_modify.Ata.{prepare_ata_command}
use whdd_modify.Scsi.{ScsiCommand, prepare_scsi_command_from_ata}
use whdd_modify.Scsi.Encoding.{cdb_lba, cdb_count}
use whdd_modify.MaxLba.{
  Answer, prepared, identify_command, dc_dev_ata_identify, dc_dev_get_max_lba, dc_dev_get_capacity,
  dc_dev_get_native_max_lba, dc_dev_get_native_capacity, dc_dev_set_max_lba, open_hpa_set,
}
use whdd_modify.MaxLba.Drive.{cdb_command, IsDrive}

prepared_command : (cmd lba size : ℕ) → cmd < 2 ^ 8 → cdb_command (prepared cmd lba size) ≡ cmd
unfolding prepare_scsi_command_from_ata prepare_ata_command
prepared_command cmd lba size c = omega arith

prepared_lba :
    (cmd lba size : ℕ) → cmd < 2 ^ 8 → lba < 2 ^ 48 → cdb_lba (prepared cmd lba size).scsi_cmd ≡ lba
unfolding prepare_scsi_command_from_ata prepare_ata_command
prepared_lba cmd lba size c l = omega arith

identify_code : cdb_command identify_command ≡ 0xec
unfolding identify_command prepare_scsi_command_from_ata prepare_ata_command
identify_code = refl

or_true : (a b : Bool) → b ≡ true → (a || b) ≡ true
or_true true b h = refl
or_true false b h = h

or_false : (a b : Bool) → a ≡ false → b ≡ false → (a || b) ≡ false
or_false a b g h = rw g h

prepared_count : (lba : ℕ) → cdb_count (prepared 0x37 lba 1).scsi_cmd % 2 ≡ 1
unfolding prepare_scsi_command_from_ata prepare_ata_command
prepared_count lba = refl

module _ {S : Type 0} (ioctl : ScsiCommand → S → Answer × S) (native max : S → ℕ) (armed : S → Bool)
    (once : Bool) (refuses : S → Bool) (d : IsDrive ioctl native max armed once refuses) where
  -- The highest LBA after a command to set it, and whether it is refused.
  abbrev SetsTo : ℕ → S → Bool × S → Type 0
  SetsTo lba s r =
      (native r.1 ≡ native s)
      × (max r.1 ≡ (if refuses s || ltb (native s) lba then max s else lba))
      × (r.0 ≡ (refuses s || ltb (native s) lba))
      × ((refuses s || ltb (native s) lba) ≡ false → refuses r.1 ≡ once)

  set_max_lba-SetsTo :
      (lba : ℕ) (s : S) → lba < 2 ^ 48 → SetsTo lba s (dc_dev_set_max_lba true ioctl lba s)
  unfolding dc_dev_set_max_lba dc_dev_get_native_capacity dc_dev_get_native_max_lba
  set_max_lba-SetsTo lba s l =
      let q = d.read_native (prepared 0x27 0 0) s (prepared_command 0x27 0 0 (omega arith)) in
      let s' = (ioctl (prepared 0x27 0 0) s).1 in
      let at : cdb_lba (prepared 0x37 lba 1).scsi_cmd ≡ lba =
        prepared_lba 0x37 lba 1 (omega arith) l in
      let code = prepared_command 0x37 lba 1 (omega arith) in
      elim (Bool-cases (refuses s)) [
        | inl again ↦
            let r = d.set_again (prepared 0x37 lba 1) s' code (prepared_count lba) (q.5 ∙ again) in
            rw q.0 (rw again (r.1 ∙ q.2, r.2 ∙ q.3, or_true _ _ r.0, λ e. cc))
        | inr first ↦ elim (Bool-cases (ltb (native s) lba)) [
          | inl above ↦
              let r = d.set_above (prepared 0x37 lba 1) s' code (omega (arith, ltb→lt, q.2)) in
              rw q.0 (rw (first, above) (r.1 ∙ q.2, r.2 ∙ q.3, or_true _ _ r.0, λ e. cc))
          | inr low ↦
              let r =
                d.set_max (prepared 0x37 lba 1) s' code (prepared_count lba) q.4 (q.5 ∙ first)
                  (omega (arith, ltb→le, q.2)) in
              rw q.0 (rw (first, low) (r.1 ∙ q.2, r.2 ∙ at, or_false _ _ r.0.0 r.0.1, λ e. r.3))
        ]
      ]

  capacity_of_max : (s : S) → (dc_dev_get_capacity true ioctl s).0 ≡ some ((max s + 1) * 512)
  unfolding dc_dev_get_capacity dc_dev_get_max_lba dc_dev_ata_identify
  capacity_of_max s =
      let i = d.identify identify_command s identify_code in
      let g = d.range s in
      rw (or_false _ _ i.0.0 i.0.1)
        (ap (λ (n : ℕ). some n) (decoded _ i.1 (omega (arith, g.0, g.1))))
    where
      decoded :
          (n : ℕ)
          → n ≡ max s + 1
          → max s + 1 < 2 ^ 48
          → mul64 (add64 (sub64 n 1) 1) 512 ≡ (max s + 1) * 512
      decoded n e l = omega arith

  ends :
      (n m : ℕ) {s : S} (p q : Bool × S)
      → n ≡ native s
      → refuses s ≡ false
      → SetsTo n s p
      → SetsTo m p.1 q
      → let last = if once || ltb n m then n else m in
        (native q.1 ≡ n)
        × (max q.1 ≡ last)
        × (q.0 ≡ (once || ltb n m))
        × ((dc_dev_get_capacity true ioctl q.1).0 ≡ some ((last + 1) * 512))
  ends n m {s} p q h f a b =
      let same = a.0 ∙ sym h in
      let accepted : (refuses s || ltb (native s) n) ≡ false =
        or_false _ _ f (not_above (native s) n h) in
      let first : max p.1 ≡ n = a.1 ∙ rw accepted refl in
      let again : refuses p.1 ≡ once = a.3 accepted in
      let last : max q.1 ≡ (if once || ltb n m then n else m) =
        b.1 ∙ rw (same, first, again) refl in
      (
        b.0 ∙ same,
        last,
        b.2 ∙ rw (same, again) refl,
        capacity_of_max q.1 ∙ ap (λ (x : ℕ). some ((x + 1) * 512)) last,
      )
    where
      not_above : (k n : ℕ) → n ≡ k → ltb k n ≡ false
      not_above k n e = ground arith

  -- On a drive that follows the standard, with the native capacity known and no non-volatile setting
  -- since power-on: `Open` of the host protected area, for a highest LBA of 48 bits, first sets the
  -- native LBA and then the one that is given. If the drive refuses a second setting, or the LBA is
  -- above the native one, the drive is left without an area and an error is logged; else it is left
  -- at the LBA, without an error. The capacity that is read afterwards is that of the LBA that is set.
  pub open_hpa_set-capacity :
      (max_lba : ℕ) (s : S)
      → max_lba < 2 ^ 48
      → refuses s ≡ false
      → let r = open_hpa_set true ioctl ((native s + 1) * 512) max_lba s in
        let last = if once || ltb (native s) max_lba then native s else max_lba in
        (native r.1 ≡ native s)
        × (max r.1 ≡ last)
        × (r.0 ≡ (once || ltb (native s) max_lba))
        × ((dc_dev_get_capacity true ioctl r.1).0 ≡ some ((last + 1) * 512))
  unfolding open_hpa_set
  open_hpa_set-capacity max_lba s l f =
      let g = d.range s in
      let start : sub64 ((native s + 1) * 512 / 512) 1 ≡ native s = omega (arith, g.0) in
      let a = set_max_lba-SetsTo (native s) s (omega (arith, g.0)) in
      let b = set_max_lba-SetsTo max_lba (dc_dev_set_max_lba true ioctl (native s) s).1 l in
      rw (start, open_hpa_set) (ends (native s) max_lba _ _ refl f a b)
