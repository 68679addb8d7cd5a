-- ===== src/Devices.antt =====
-- The list of devices of libdevcheck/libdevcheck.c, and the search for one in cui/main.c. A text is
-- the list of its characters' codes.
pub mod Listing
pub mod Finding
mod Tests
use whdd_modify.Prelude.{
  ℕ, zero, suc, ◌+◌, ◌*◌, ◌%◌, ◌^◌, Bool, true, false, not, ◌&&◌, ◌||◌, Option, none, some, List,
  [], ◌∷◌, ◌++◌, leb, ◌==◌, if◌then◌else◌, get_or,
}
use whdd_modify.Utils.AtaString.{dc_ata_ascii_to_c_string}

-- `DC_Dev`; a null text is `none`.
pub record Dev : Type 0 where
  pub dev_fs_name : List ℕ
  pub dev_path : List ℕ
  pub identify : List ℕ
  pub model_str : Option (List ℕ)
  pub serial_no : Option (List ℕ)
  pub ata_capable : Bool
  pub capacity : ℕ
  pub native_capacity : ℕ
  pub mounted : Bool

-- `DC_DevList`; the list is walked from `arr`.
pub record DevList : Type 0 where
  pub arr : List Dev
  pub arr_size : ℕ

-- `!strncmp(s, prefix, strlen(prefix))`, and what follows the prefix.
unfoldable pub after_prefix : List ℕ → List ℕ → Option (List ℕ)
after_prefix [] s = some s
after_prefix (p ∷ ps) [] = none
after_prefix (p ∷ ps) (c ∷ s) = let rest = after_prefix ps s in if p == c then rest else none

-- `strchr(s, c)`
unfoldable pub has_char : ℕ → List ℕ → Bool
has_char c [] = false
has_char c (d ∷ s) = d == c || has_char c s

-- `name[-1]` at the end of the text. No name is empty: `sscanf` does not read one.
unfoldable pub last_char : List ℕ → ℕ
last_char [] = 0
last_char (c ∷ []) = c
last_char (c ∷ (d ∷ s)) = last_char (d ∷ s)

abbrev pub is_digit : ℕ → Bool
is_digit c = leb b'0' c && leb c b'9'

abbrev pub mmcblk : List ℕ
mmcblk = b'm' ∷ b'm' ∷ b'c' ∷ b'b' ∷ b'l' ∷ b'k' ∷ []

abbrev pub nvme : List ℕ
nvme = b'n' ∷ b'v' ∷ b'm' ∷ b'e' ∷ []

abbrev pub dev_dir : List ℕ
dev_dir = b'/' ∷ b'd' ∷ b'e' ∷ b'v' ∷ b'/' ∷ []

unfoldable pub is_whole_disk : List ℕ → Bool
is_whole_disk name = elim (after_prefix mmcblk name) [
  | some rest ↦ not (has_char b'p' rest)
  | none ↦ elim (after_prefix nvme name) [
    | some rest ↦ not (has_char b'p' rest)
    | none ↦ not (is_digit (last_char name))
  ]
]

-- What `sscanf` reads from a line of /proc/partitions: the name and the size in KiB.
pub record Partition : Type 0 where
  pub ptname : List ℕ
  pub sz : ℕ

-- `calloc`, and the assignments after it.
unfoldable pub new_dev : Partition → Dev
new_dev p = record {
  dev_fs_name = p.ptname;
  dev_path = dev_dir ++ p.ptname;
  identify = [];
  model_str = none;
  serial_no = none;
  ata_capable = false;
  capacity = p.sz * 1024 % 2 ^ 64;
  native_capacity = 0;
  mounted = false;
}

-- The loop over the lines; `none` is a line that `sscanf` does not match.
unfoldable pub dev_list_build : List (Option Partition) → DevList → DevList
dev_list_build [] l = l
dev_list_build (none ∷ lines) l = dev_list_build lines l
dev_list_build (some p ∷ lines) l = dev_list_build lines (
    if is_whole_disk p.ptname
    then record { arr = new_dev p ∷ l.arr; arr_size = suc l.arr_size }
    else l)

-- What the device and the system tell about a device. `identify` is `none` where the command fails,
-- a capacity where its query fails. `smartctl` gives the value of a field, `model_file` the first
-- line of the model's file, and `blank` is what the erasing of a blank string leaves, which does not
-- stop at the string's start.
pub record Sources : Type 0 where
  pub identify : Option (List ℕ)
  pub capacity : Option ℕ
  pub native_capacity : Option ℕ
  pub blank : List ℕ
  pub vendor : Option (List ℕ)
  pub product : Option (List ℕ)
  pub serial_number : Option (List ℕ)
  pub model_file : Option (List ℕ)
  pub in_mtab : Bool

abbrev pub or_kept {ℓ} : {A : Type ℓ} → Option A → A → A
or_kept none a = a
or_kept (some b) a = b

-- Null, and then the other.
abbrev pub or_else {ℓ} : {A : Type ℓ} → Option A → Option A → Option A
or_else none b = b
or_else (some a) b = some a

-- A number of words of 16 bits from an offset, the low byte first.
unfoldable pub words_at : List ℕ → ℕ → ℕ → List ℕ
words_at identify offset zero = []
words_at identify offset (suc n) =
    (get_or identify offset 0 + 256 * get_or identify (offset + 1) 0)
    ∷ words_at identify (offset + 2) n

-- The answers of an ATA device.
unfoldable pub fill_ata : Sources → Dev → Dev
fill_ata s d = elim (s.identify) [
  | none ↦ record d { ata_capable = false; identify = [] }
  | some identify ↦ record d {
    ata_capable = true;
    identify = identify;
    capacity = or_kept s.capacity d.capacity;
    native_capacity = or_kept s.native_capacity d.native_capacity;
    serial_no = some (or_kept (dc_ata_ascii_to_c_string (words_at identify 20 10)) s.blank);
    model_str = some (or_kept (dc_ata_ascii_to_c_string (words_at identify 54 20)) s.blank);
  }
]

-- "%s %s" or "%s"
unfoldable pub smartctl_model : Sources → Option (List ℕ)
smartctl_model s = elim (s.vendor) [
  | none ↦ none
  | some model ↦ elim (s.product) [
    | none ↦ some model
    | some product ↦ some (model ++ (b' ' ∷ product))
  ]
]

-- The body of the loop of `dev_list_fill_info`, with `dev_modelname_fill` and `dev_mounted_fill`.
unfoldable pub fill_info : Sources → Dev → Dev
fill_info s d =
    let a = fill_ata s d in
    record a {
      model_str = or_else (or_else a.model_str (smartctl_model s)) s.model_file;
      serial_no = or_else a.serial_no s.serial_number;
      mounted = a.mounted || s.in_mtab;
    }

unfoldable pub dev_list_fill_info : (Dev → Sources) → List Dev → List Dev
dev_list_fill_info k [] = []
dev_list_fill_info k (d ∷ ds) = fill_info (k d) d ∷ dev_list_fill_info k ds

-- `procpt` is `none` where /proc/partitions cannot be opened.
unfoldable pub dc_dev_list : (Dev → Sources) → Option (List (Option Partition)) → DevList
dc_dev_list k procpt =
    let empty : DevList = record { arr = []; arr_size = 0 } in
    let built : DevList = elim procpt [ none ↦ empty | some lines ↦ dev_list_build lines empty ] in
    record built { arr = dev_list_fill_info k built.arr }

abbrev pub dc_dev_list_size : DevList → ℕ
dc_dev_list_size l = l.arr_size

unfoldable pub entry_from : List Dev → ℕ → Option Dev
entry_from [] index = none
entry_from (d ∷ ds) zero = some d
entry_from (d ∷ ds) (suc index) = entry_from ds index

unfoldable pub dc_dev_list_get_entry : DevList → ℕ → Option Dev
dc_dev_list_get_entry l index = entry_from l.arr index

-- `!strcmp(a, b)`
unfoldable pub same_text : List ℕ → List ℕ → Bool
same_text [] [] = true
same_text [] (d ∷ t) = false
same_text (c ∷ s) [] = false
same_text (c ∷ s) (d ∷ t) = c == d && same_text s t

-- The loop of `find_device_by_name`: `fuel` is the number of indexes left.
unfoldable pub find_from : ℕ → ℕ → DevList → List ℕ → Option Dev
find_from zero i l name = none
find_from (suc fuel) i l name =
    let rest = find_from fuel (i + 1) l name in
    elim (dc_dev_list_get_entry l i) [
      | none ↦ none
      | some d ↦ if same_text d.dev_fs_name name || same_text d.dev_path name then some d else rest
    ]

unfoldable pub find_device_by_name : DevList → List ℕ → Option Dev
find_device_by_name l name = find_from (dc_dev_list_size l) 0 l name
