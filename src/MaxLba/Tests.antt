-- ===== src/MaxLba/Tests.antt =====
-- A drive of 1000 sectors whose host protected area begins at sector 400, for libdevcheck/hpa_set.c.
use whdd_modify.Prelude.{
  ℕ, ◌+◌, ◌*◌, ◌/◌, ◌%◌, ◌^◌, ◌≤◌, ◌<◌, ◌≡◌, refl, Bool, true, false, not, ◌&&◌, some, List, [],
  ◌∷◌, ◌++◌, arith, leb, ◌==◌, if◌then◌else◌, replicate,
}
use whdd_modify.Scsi.{ScsiCommand, fill_scsi_ata_return_descriptor, get_sense_key_from_sense_buffer}
use whdd_modify.Scsi.Encoding.{cdb_lba, returned}
use whdd_modify.MaxLba.{Answer, is_error, addressable, dc_dev_get_capacity, open_hpa_set}
use whdd_modify.MaxLba.Drive.{cdb_command, IsDrive}
use whdd_modify.MaxLba.SetUp.{open_hpa_set-capacity}

-- The highest LBA, modulo the size, whether READ NATIVE MAX ADDRESS EXT was the last command, and
-- whether there was a non-volatile setting since power-on: the drive refuses a second one.
abbrev State : Type 0
State = ℕ × Bool × Bool

abbrev native : State → ℕ
native s = 999

abbrev max : State → ℕ
max s = s.0 % 1000

abbrev armed : State → Bool
armed s = s.1

abbrev refuses : State → Bool
refuses s = s.2

abbrev words : ℕ → List ℕ
words n =
    replicate 200 0
    ++ (n % 256)
      ∷ (n / 2 ^ 8 % 256)
      ∷ (n / 2 ^ 16 % 256)
      ∷ (n / 2 ^ 24 % 256)
      ∷ (n / 2 ^ 32 % 256)
      ∷ (n / 2 ^ 40 % 256)
      ∷ []

abbrev answer : ScsiCommand → ℕ → State → Answer
answer c status s = record {
  fails = false;
  command = record c { sense_buf = returned [] 0 status 999 };
  data_read = words (max s + 1);
}

-- The answer to an ATA command with an LBA.
carry_out : ℕ → ℕ → ScsiCommand → State → Answer × State
carry_out code lba c s =
    if code == 0x27
    then (answer c 0 s, (s.0, true, s.2))
    else if code == 0x37
    then if s.1 && (leb lba 999 && not s.2)
      then (answer c 0 s, (lba, false, true))
      else (answer c 1 s, (s.0, false, s.2))
    else (answer c 0 s, (s.0, false, s.2))

abbrev drive : ScsiCommand → State → Answer × State
drive c s = carry_out (cdb_command c) (cdb_lba c.scsi_cmd) c s

words_lem : (n : ℕ) → n < 2 ^ 48 → addressable (words n) ≡ n
unfolding addressable
words_lem n l = omega arith

answer-error :
    (c : ScsiCommand) (s : State)
    → (is_error (answer c 0 s).command ≡ false)
      × (is_error (answer c 1 s).command ≡ true)
      × ((fill_scsi_ata_return_descriptor (answer c 0 s).command).lba ≡ 999)
unfolding is_error fill_scsi_ata_return_descriptor get_sense_key_from_sense_buffer
answer-error c s = (refl, refl, refl)

set_near :
    (lba : ℕ) (c : ScsiCommand) (s : State)
    → s.1 ≡ true
    → s.2 ≡ false
    → lba ≤ 999
    → carry_out 0x37 lba c s ≡ (answer c 0 s, (lba, false, true))
unfolding carry_out
set_near lba c s a f l = rw (a, f, le→leb lba l) refl
  where
    le→leb : (n : ℕ) → n ≤ 999 → leb n 999 ≡ true
    le→leb n h = ground arith

set_far :
    (lba : ℕ) (c : ScsiCommand) (s : State)
    → (leb lba 999 && not s.2) ≡ false
    → carry_out 0x37 lba c s ≡ (answer c 1 s, (s.0, false, s.2))
unfolding carry_out
set_far lba c (m, true, r) l = rw l refl
set_far lba c (m, false, r) l = refl

too_far : (lba : ℕ) (r : Bool) → 999 < lba → (leb lba 999 && not r) ≡ false
too_far lba r l = ground arith

refused : (lba : ℕ) (r : Bool) → r ≡ true → (leb lba 999 && not r) ≡ false
refused lba r e = ground arith

drive-IsDrive : IsDrive drive native max armed true refuses
unfolding carry_out
drive-IsDrive = record {
  range = λ s. (omega arith, omega arith);
  read_native = λ c s h. rw h (refl, (answer-error c s).2, refl, refl, refl, refl);
  set_max = λ c s h n a f l.
      rw h (rw (set_near _ c s a f l) ((refl, (answer-error c s).0), refl, omega arith, refl));
  set_again =
      λ c s h n r. rw h (rw (set_far _ c s (refused _ s.2 r)) ((answer-error c s).1, refl, refl));
  set_above =
      λ c s h l. rw h (rw (set_far _ c s (too_far _ s.2 l)) ((answer-error c s).1, refl, refl));
  identify = λ c s h. rw h ((refl, (answer-error c s).0), words_lem (max s + 1) (omega arith));
}

-- The area is not set up: the drive refuses the second setting.
open_hpa_set-capacity_example :
    let r =
      open_hpa_set true drive ((native (399, false, false) + 1) * 512) 399 (399, false, false) in
    (native r.1 ≡ 999)
    × (max r.1 ≡ 999)
    × (r.0 ≡ true)
    × ((dc_dev_get_capacity true drive r.1).0 ≡ some (1000 * 512))
open_hpa_set-capacity_example =
    open_hpa_set-capacity drive native max armed true refuses drive-IsDrive 399 (399, false, false)
      (omega arith) refl
