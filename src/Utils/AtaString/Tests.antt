-- ===== src/Utils/AtaString/Tests.antt =====
-- Strings of IDENTIFY DEVICE, libdevcheck/utils.c.
use whdd_modify.Prelude.{◌≡◌, refl, none, some, List, [], ◌∷◌, ◌++◌, ℕ, arith}
use whdd_modify.Utils.AtaString.{
  find_first, print_rest, erase_trailing, in_order, dc_ata_ascii_to_c_string,
}
use whdd_modify.Utils.AtaString.Trimmed.{words_of, spaces, dc_ata_ascii_to_c_string-trims}

-- "WD 4"
abbrev model : List ℕ
model = 87 ∷ 68 ∷ 32 ∷ 52 ∷ []

dc_ata_ascii_to_c_string-trims_example :
    dc_ata_ascii_to_c_string (words_of (spaces 3 ++ (model ++ spaces 2))) ≡ some model
dc_ata_ascii_to_c_string-trims_example =
    dc_ata_ascii_to_c_string-trims 3 2 model
      (
        omega arith,
        omega arith,
        (omega arith, omega arith, (omega arith, omega arith, (omega arith, omega arith, tt))),
      )
      (omega arith) (omega arith) (omega arith)

-- NULs are left out.
nuls : dc_ata_ascii_to_c_string (words_of (87 ∷ 0 ∷ 68 ∷ 0 ∷ [])) ≡ some (87 ∷ 68 ∷ [])
unfolding dc_ata_ascii_to_c_string find_first print_rest erase_trailing in_order
nuls = refl

-- A blank string is erased beyond its start.
blank : dc_ata_ascii_to_c_string (words_of (spaces 20)) ≡ none
unfolding dc_ata_ascii_to_c_string find_first print_rest erase_trailing in_order
blank = refl
