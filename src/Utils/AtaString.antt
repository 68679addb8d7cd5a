-- ===== src/Utils/AtaString.antt =====
-- `dc_ata_ascii_to_c_string` of libdevcheck/utils.c. A string of IDENTIFY DEVICE is a list of words
-- of 16 bits, of which the high byte is the first character. What is written at `dst` is the list of
-- its bytes, the last one first.
pub mod Trimmed
mod Tests
use whdd_modify.Prelude.{
  ℕ, ◌/◌, ◌%◌, not, Option, none, some, List, [], ◌∷◌, ◌==◌, ltb, length, if◌then◌else◌, ◌>>=◌,
}

abbrev pub space : ℕ
space = 32

-- `(*p) >> 8`, and `*p` as a byte.
abbrev pub high_byte : ℕ → ℕ
high_byte w = w / 256 % 256

abbrev pub low_byte : ℕ → ℕ
low_byte w = w % 256

-- A NUL is left out.
abbrev pub print : ℕ → List ℕ → List ℕ
print c written = if c == 0 then written else c ∷ written

-- "find first non-space & print it": the words that are left, and what is written.
unfoldable pub find_first : List ℕ → List ℕ × List ℕ
find_first [] = ([], [])
find_first (w ∷ ws) =
    let next = find_first ws in
    if not (high_byte w == space)
    then (w ∷ ws, [])
    else if not (low_byte w == space)
    then (ws, print (low_byte w) [])
    else next

-- "print the rest"
unfoldable pub print_rest : List ℕ → List ℕ → List ℕ
print_rest [] written = written
print_rest (w ∷ ws) written = print_rest ws (print (low_byte w) (print (high_byte w) written))

-- "Erase trailing spaces": `none` is an access before the start of the string.
unfoldable pub erase_trailing : List ℕ → Option (List ℕ)
erase_trailing [] = none
erase_trailing (c ∷ written) =
    let rest = erase_trailing written in if c == space then rest else some (c ∷ written)

-- The written bytes, the first one first, before some others.
unfoldable pub in_order : List ℕ → List ℕ → List ℕ
in_order [] s = s
in_order (c ∷ written) s = in_order written (c ∷ s)

-- The words are counted by a uint8_t, which stays below a length of 256 or more: the loop that prints
-- the rest then runs on beyond the string, which is `none` too.
unfoldable pub dc_ata_ascii_to_c_string : List ℕ → Option (List ℕ)
dc_ata_ascii_to_c_string ata_ascii_string =
    let first = find_first ata_ascii_string in
    if ltb (length ata_ascii_string) 256
    then (erase_trailing (print_rest first.0 first.1) >>= λ written. some (in_order written []))
    else none
