-- ===== src/Utils/Comma/Tests.antt =====
-- Texts of libdevcheck/utils.c for concrete numbers and names.
use whdd_modify.Prelude.{ℕ, ◌≡◌, refl, Bool, List, [], ◌∷◌, ◌&&◌, ◌||◌, leb, arith}
use whdd_modify.Utils.Comma.{commaprint_from, commaprint, dc_sanitize_for_filename}
use whdd_modify.Utils.Comma.Reading.{read_on, commaprint-reads}

-- "1,953,525"
sectors : commaprint 1953525 ≡ 49 ∷ 44 ∷ 57 ∷ 53 ∷ 51 ∷ 44 ∷ 53 ∷ 50 ∷ 53 ∷ []
unfolding commaprint commaprint_from
sectors = refl

commaprint-reads_example : read_on 0 (commaprint 1953525168) ≡ 1953525168
commaprint-reads_example = commaprint-reads 1953525168 (omega arith)

-- The letters and digits of ASCII
abbrev isalnum : ℕ → Bool
isalnum c = (leb 48 c && leb c 57) || ((leb 65 c && leb c 90) || (leb 97 c && leb c 122))

-- "S 1/x" as a name
abbrev serial : List ℕ
serial = 83 ∷ 32 ∷ 49 ∷ 47 ∷ 120 ∷ []

cleaned : dc_sanitize_for_filename isalnum serial ≡ 83 ∷ 95 ∷ 49 ∷ 95 ∷ 120 ∷ []
unfolding dc_sanitize_for_filename
cleaned = refl
