-- ===== src/Utils/Comma.antt =====
-- `commaprint` and `dc_sanitize_for_filename` of libdevcheck/utils.c. A string is the list of its
-- characters' codes.
pub mod Reading
mod Tests
use whdd_modify.Prelude.{
  ℕ, zero, suc, ◌+◌, ◌/◌, ◌%◌, Bool, true, false, not, ◌&&◌, ◌||◌, List, [], ◌∷◌, map, ◌==◌,
  if◌then◌else◌,
}

abbrev pub comma : ℕ
comma = 44

-- The digit '0'
abbrev pub digit_zero : ℕ
digit_zero = 48

-- The loop, which writes from the end of the buffer: `p` is what is written so far. A uint64_t has
-- at most 20 digits, each a round.
unfoldable pub commaprint_from : ℕ → ℕ → ℕ → List ℕ → List ℕ
commaprint_from zero i n p = p
commaprint_from (suc fuel) i n p =
    let grouped = if i % 3 == 0 && not (i == 0) then comma ∷ p else p in
    let written = (digit_zero + n % 10) ∷ grouped in
    let rest = commaprint_from fuel (i + 1) (n / 10) written in
    if n / 10 == 0 then written else rest

unfoldable pub commaprint : ℕ → List ℕ
commaprint n = commaprint_from 20 0 n []

-- `isalnum` goes by the locale.
unfoldable pub dc_sanitize_for_filename : (ℕ → Bool) → List ℕ → List ℕ
dc_sanitize_for_filename isalnum [] = []
dc_sanitize_for_filename isalnum (c ∷ s) =
    let rest = dc_sanitize_for_filename isalnum s in
    (if not (isalnum c) && (not (c == 95) && not (c == 45)) then 95 else c) ∷ rest
