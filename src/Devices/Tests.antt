-- ===== src/Devices/Tests.antt =====
-- A disk with a partition, a card and a device that is no disk, as /proc/partitions of
-- libdevcheck/libdevcheck.c.
use whdd_modify.Prelude.{
  ℕ, ◌≡◌, refl, true, false, Option, none, some, List, [], ◌∷◌, length, get_elem?, arith,
}
use whdd_modify.Devices.{
  Dev, Partition, is_whole_disk, after_prefix, has_char, last_char, Sources, dc_dev_list,
  find_device_by_name,
}
use whdd_modify.Devices.Listing.{whole_disks}
use whdd_modify.Devices.Finding.{IsNamed, find_device_by_name-finds}

abbrev sda : List ℕ
sda = b's' ∷ b'd' ∷ b'a' ∷ []

abbrev sda1 : List ℕ
sda1 = b's' ∷ b'd' ∷ b'a' ∷ b'1' ∷ []

abbrev nvme0n1 : List ℕ
nvme0n1 = b'n' ∷ b'v' ∷ b'm' ∷ b'e' ∷ b'0' ∷ b'n' ∷ b'1' ∷ []

abbrev nvme0n1p2 : List ℕ
nvme0n1p2 = b'n' ∷ b'v' ∷ b'm' ∷ b'e' ∷ b'0' ∷ b'n' ∷ b'1' ∷ b'p' ∷ b'2' ∷ []

whole :
    (is_whole_disk sda ≡ true)
    × (is_whole_disk sda1 ≡ false)
    × (is_whole_disk nvme0n1 ≡ true)
    × (is_whole_disk nvme0n1p2 ≡ false)
unfolding is_whole_disk after_prefix has_char last_char
whole = (refl, refl, refl, refl)

abbrev line : List ℕ → Option Partition
line name = some (record { ptname = name; sz = 8 })

-- The head of the file is no partition.
abbrev lines : List (Option Partition)
lines = none ∷ line sda ∷ line sda1 ∷ line nvme0n1 ∷ line nvme0n1p2 ∷ []

abbrev silent : Dev → Sources
silent d = record {
  identify = none;
  capacity = none;
  native_capacity = none;
  blank = [];
  vendor = none;
  product = none;
  serial_number = none;
  model_file = none;
  in_mtab = false;
}

two : length (whole_disks lines) ≡ 2
unfolding whole_disks is_whole_disk after_prefix has_char last_char
two = refl

first : get_elem? (whole_disks lines) 0 ≡ some (record { ptname = sda; sz = 8 })
unfolding whole_disks is_whole_disk after_prefix has_char last_char
first = refl

abbrev disk : Partition
disk = record { ptname = sda; sz = 8 }

find_device_by_name-finds_example :
    (d : Dev) × (find_device_by_name (dc_dev_list silent (some lines)) sda ≡ some d) × IsNamed sda d
find_device_by_name-finds_example =
    find_device_by_name-finds silent lines 1 0 disk (omega (arith, two)) first
