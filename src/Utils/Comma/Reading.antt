-- ===== src/Utils/Comma/Reading.antt =====
-- What the text of `commaprint` says, and how long it is.
use native.Mathlib.Nat.{pow-suc}
use whdd_modify.Prelude.{
  ℕ, zero, suc, ◌+◌, ◌-◌, ◌*◌, ◌/◌, ◌%◌, ◌^◌, ◌≤◌, ◌<◌, ◌≡◌, refl, ◌∙◌, ap, inl, inr, Bool, true,
  false, not, ◌&&◌, ◌||◌, List, [], ◌∷◌, length, ◌==◌, if◌then◌else◌, arith, Bool-cases,
}
use whdd_modify.Utils.Comma.{
  comma, digit_zero, commaprint_from, commaprint, dc_sanitize_for_filename,
}

-- Reading a decimal number on from a value, commas left out.
unfoldable pub read_on : ℕ → List ℕ → ℕ
read_on v [] = v
read_on v (c ∷ s) = if c == comma then read_on v s else read_on (v * 10 + (c - digit_zero)) s

minus_zero_digit : (d : ℕ) → digit_zero + d - digit_zero ≡ d
minus_zero_digit d = omega arith

digit_lem :
    (v d : ℕ) (s : List ℕ) → d < 10 → read_on v ((digit_zero + d) ∷ s) ≡ read_on (v * 10 + d) s
unfolding read_on
digit_lem v d s l = ground (arith, minus_zero_digit d)

comma_lem : (v : ℕ) (b : Bool) (s : List ℕ) → read_on v (if b then comma ∷ s else s) ≡ read_on v s
unfolding read_on
comma_lem v true s = refl
comma_lem v false s = refl

-- The text with one more digit, and a comma where one is due.
abbrev grouped : ℕ → List ℕ → List ℕ
grouped i s = if i % 3 == 0 && not (i == 0) then comma ∷ s else s

written_lem :
    (i v n : ℕ) (s : List ℕ)
    → v * 10 + n % 10 ≡ n
    → read_on v ((digit_zero + n % 10) ∷ grouped i s) ≡ read_on n s
written_lem i v n s e =
    digit_lem v (n % 10) (grouped i s) (omega arith)
    ∙ ap (λ w. read_on w (grouped i s)) e
    ∙ comma_lem n (i % 3 == 0 && not (i == 0)) s

fewer : (fuel n : ℕ) → n < 10 ^ suc fuel → n / 10 < 10 ^ fuel
fewer fuel n l = let h = simp (pow-suc 10 fuel) at l in omega arith

some_left : (fuel n : ℕ) → n < 10 ^ suc fuel → 10 ≤ n → 0 < fuel
some_left zero n l m = absurd (omega arith)
some_left (suc fuel) n l m = omega arith

from_lem :
    (fuel i n : ℕ) (s : List ℕ)
    → n < 10 ^ fuel
    → 0 < fuel
    → read_on 0 (commaprint_from fuel i n s) ≡ read_on n s
unfolding commaprint_from
from_lem zero i n s l p = absurd (omega arith)
from_lem (suc fuel) i n s l p = elim (Bool-cases (n / 10 == 0)) [
  | inl last ↦ rw last (written_lem i 0 n s (ground arith))
  | inr more ↦ rw more (
      from_lem fuel (i + 1) (n / 10) ((digit_zero + n % 10) ∷ grouped i s) (fewer fuel n l)
        (some_left fuel n l (ground arith))
      ∙ written_lem i (n / 10) n s (omega arith))
]

-- The printed number reads as the number that was to be printed.
pub commaprint-reads : (n : ℕ) → n < 2 ^ 64 → read_on 0 (commaprint n) ≡ n
unfolding commaprint read_on
commaprint-reads n l = from_lem 20 0 n [] (omega arith) (omega arith)

length_lem :
    (fuel i n : ℕ) (s : List ℕ)
    → length (commaprint_from fuel i n s) + (i + 2) / 3 ≤ length s + fuel + (i + fuel + 2) / 3
unfolding commaprint_from
length_lem zero i n s = omega arith
length_lem (suc fuel) i n s = ground (
  arith,
  length_lem fuel (i + 1) (n / 10) ((digit_zero + n % 10) ∷ comma ∷ s),
  length_lem fuel (i + 1) (n / 10) ((digit_zero + n % 10) ∷ s),
)

-- With its end, the printed number fits into the buffers of 30 bytes that it is printed to.
pub commaprint_fits : (n : ℕ) → length (commaprint n) + 1 ≤ 30
unfolding commaprint
commaprint_fits n = omega (arith, length_lem 20 0 n [])

-- The characters that a file name may have.
abbrev pub is_safe : (ℕ → Bool) → ℕ → Bool
is_safe isalnum c = isalnum c || (c == 95 || c == 45)

-- A clean version of a name: as long, all characters safe, and the safe ones as they were.
abbrev pub IsCleaned : (ℕ → Bool) → List ℕ → List ℕ → Type 0
IsCleaned isalnum [] [] = Unit {0}
IsCleaned isalnum [] (d ∷ t) = ⊥
IsCleaned isalnum (c ∷ s) [] = ⊥
IsCleaned isalnum (c ∷ s) (d ∷ t) =
    (is_safe isalnum d ≡ true) × (is_safe isalnum c ≡ true → d ≡ c) × IsCleaned isalnum s t

-- Whatever the locale calls alphanumeric, the sanitized name is as long as the name, has only safe
-- characters (alphanumeric ones, '_' and '-'), and keeps the safe characters of the name.
pub dc_sanitize_for_filename-IsCleaned :
    (isalnum : ℕ → Bool) (s : List ℕ) → IsCleaned isalnum s (dc_sanitize_for_filename isalnum s)
unfolding dc_sanitize_for_filename
dc_sanitize_for_filename-IsCleaned isalnum [] = tt
dc_sanitize_for_filename-IsCleaned isalnum (c ∷ s) =
    (ground arith, λ h. ground arith, dc_sanitize_for_filename-IsCleaned isalnum s)
