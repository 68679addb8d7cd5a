-- ===== src/Utils/AtaString/Trimmed.antt =====
-- What is left of a padded string of IDENTIFY DEVICE.
use mathlib.Core.List.{append_assoc, append-nil}
use whdd_modify.Prelude.{
  ℕ, zero, suc, ◌+◌, ◌*◌, ◌/◌, ◌<◌, ◌≤◌, length, ltb, ◌≡◌, ◌≢◌, refl, ap, ◌∙◌, true, false, some,
  List, [], ◌∷◌, ◌++◌, ◌==◌, ◌>>=◌, if◌then◌else◌, replicate, arith, inl, inr, Bool-cases,
}
use whdd_modify.Utils.AtaString.{
  space, high_byte, low_byte, print, find_first, print_rest, erase_trailing, in_order,
  dc_ata_ascii_to_c_string,
}

-- The characters of some words, in order.
pub chars : List ℕ → List ℕ
chars [] = []
chars (w ∷ ws) = high_byte w ∷ low_byte w ∷ chars ws

-- Characters in words, as ATA stores them; an odd one is followed by a space.
abbrev pub words_of : List ℕ → List ℕ
words_of [] = []
words_of (a ∷ []) = (a * 256 + space) ∷ []
words_of (a ∷ b ∷ cs) = (a * 256 + b) ∷ words_of cs

abbrev pub spaces : ℕ → List ℕ
spaces n = replicate n space

-- Characters that are bytes and no NUL.
abbrev pub IsText : List ℕ → Type 0
IsText [] = Unit {0}
IsText (c ∷ cs) = (0 < c) × (c < 256) × IsText cs

-- The first and the last character; a space where there is none.
abbrev pub first_of : List ℕ → ℕ
first_of [] = space
first_of (c ∷ cs) = c

abbrev pub last_of : ℕ → List ℕ → ℕ
last_of before [] = before
last_of before (c ∷ cs) = last_of c cs

drop_spaces : List ℕ → List ℕ
drop_spaces [] = []
drop_spaces (c ∷ cs) = if c == space then drop_spaces cs else c ∷ cs

print_all : List ℕ → List ℕ → List ℕ
print_all [] written = written
print_all (c ∷ cs) written = print_all cs (print c written)

print_rest_lem : (ws written : List ℕ) → print_rest ws written ≡ print_all (chars ws) written
unfolding print_rest chars print_all
print_rest_lem [] written = refl
print_rest_lem (w ∷ ws) written =
    print_rest_lem ws (print (low_byte w) (print (high_byte w) written))

-- The two loops print what follows the leading spaces.
loops_print :
    (ws : List ℕ)
    → print_rest (find_first ws).0 (find_first ws).1 ≡ print_all (drop_spaces (chars ws)) []
unfolding find_first chars drop_spaces print_all
loops_print [] = print_rest_lem [] []
loops_print (w ∷ ws) = elim (Bool-cases (high_byte w == space)) [
  | inr first ↦ rw first (print_rest_lem (w ∷ ws) [])
  | inl blank ↦ elim (Bool-cases (low_byte w == space)) [
    | inr second ↦ rw (blank, second) (print_rest_lem ws (print (low_byte w) []))
    | inl both ↦ rw (blank, both) (loops_print ws)
  ]
]

print_all-append :
    (xs ys written : List ℕ) → print_all (xs ++ ys) written ≡ print_all ys (print_all xs written)
unfolding print_all
print_all-append [] ys written = refl
print_all-append (x ∷ xs) ys written = print_all-append xs ys (print x written)

erase_spaces :
    (n : ℕ) (written : List ℕ)
    → erase_trailing (print_all (spaces n) written) ≡ erase_trailing written
unfolding print_all erase_trailing
erase_spaces zero written = refl
erase_spaces (suc n) written = erase_spaces n (space ∷ written)

erase_text :
    (t written : List ℕ)
    → IsText t
    → last_of space t ≢ space
    → erase_trailing (print_all t written) ≡ some (print_all t written)
unfolding print_all erase_trailing
erase_text [] written o l = absurd (l refl)
erase_text (c ∷ []) written o l =
    let some_char : (c == 0) ≡ false = ground (arith, o.0) in
    let no_space : (c == space) ≡ false = ground (arith, l) in rw some_char (rw no_space refl)
erase_text (c ∷ d ∷ t) written o l = erase_text (d ∷ t) (print c written) o.2 l

in_order_text :
    (t written s : List ℕ) → IsText t → in_order (print_all t written) s ≡ in_order written (t ++ s)
unfolding print_all in_order
in_order_text [] written s o = refl
in_order_text (c ∷ t) written s o =
    let some_char : (c == 0) ≡ false = ground (arith, o.0) in
    in_order_text t (print c written) s o.2 ∙ rw some_char refl

drop_leading :
    (n : ℕ) (t s : List ℕ) → first_of t ≢ space → drop_spaces (spaces n ++ (t ++ s)) ≡ t ++ s
unfolding drop_spaces
drop_leading zero [] s f = absurd (f refl)
drop_leading zero (c ∷ t) s f =
    let no_space : (c == space) ≡ false = ground (arith, f) in rw no_space refl
drop_leading (suc n) t s f = drop_leading n t s f

-- Bytes
abbrev AreBytes : List ℕ → Type 0
AreBytes [] = Unit {0}
AreBytes (c ∷ cs) = (c < 256) × AreBytes cs

chars_words : (cs : List ℕ) → AreBytes cs → (n : ℕ) × (chars (words_of cs) ≡ cs ++ spaces n)
unfolding chars
chars_words [] o = (0, refl)
chars_words (a ∷ []) o =
    let h : high_byte (a * 256 + space) ≡ a = omega (arith, o.0) in
    let l : low_byte (a * 256 + space) ≡ space = omega arith in (1, cc)
chars_words (a ∷ b ∷ cs) o =
    let (n, e) = chars_words cs o.1.1 in
    let h : high_byte (a * 256 + b) ≡ a = omega (arith, o.0, o.1.0) in
    let l : low_byte (a * 256 + b) ≡ b = omega (arith, o.1.0) in (n, cc)

spaces_add : (m n : ℕ) → spaces m ++ spaces n ≡ spaces (m + n)
spaces_add zero n = let same : n ≡ 0 + n = omega arith in ap spaces same
spaces_add (suc m) n =
    let same : suc (m + n) ≡ suc m + n = omega arith in
    ap (λ s. space ∷ s) (spaces_add m n) ∙ ap spaces same

bytes_of_spaces : (n : ℕ) → AreBytes (spaces n)
bytes_of_spaces zero = tt
bytes_of_spaces (suc n) = (omega arith, bytes_of_spaces n)

bytes_of_text : (t s : List ℕ) → IsText t → AreBytes s → AreBytes (t ++ s)
bytes_of_text [] s o b = b
bytes_of_text (c ∷ t) s o b = (o.1, bytes_of_text t s o.2 b)

bytes_of_padded : (i : ℕ) (s : List ℕ) → AreBytes s → AreBytes (spaces i ++ s)
bytes_of_padded zero s b = b
bytes_of_padded (suc i) s b = (omega arith, bytes_of_padded i s b)

length-words_of : (cs : List ℕ) → length (words_of cs) ≡ (length cs + 1) / 2
length-words_of [] = omega arith
length-words_of (a ∷ []) = omega arith
length-words_of (a ∷ b ∷ cs) = omega (arith, length-words_of cs)

length-spaces : (n : ℕ) → length (spaces n) ≡ n
length-spaces zero = omega arith
length-spaces (suc n) = omega (arith, length-spaces n)

length-append_lem : (xs ys : List ℕ) → length (xs ++ ys) ≡ length xs + length ys
length-append_lem [] ys = omega arith
length-append_lem (x ∷ xs) ys = omega (arith, length-append_lem xs ys)

length-padded : (i j : ℕ) (t : List ℕ) → length (spaces i ++ (t ++ spaces j)) ≡ i + length t + j
length-padded i j t = omega (
  arith,
  length-append_lem (spaces i) (t ++ spaces j),
  length-append_lem t (spaces j),
  length-spaces i,
  length-spaces j,
)

fits_counter : (n : ℕ) → n < 256 → ltb n 256 ≡ true
fits_counter n l = ground arith

-- A text of bytes without NUL that begins and ends with another character than a space, and that is
-- stored as ATA strings are, with spaces before and behind it, in fewer than 256 words, that is, with at
-- most 510 characters in all: the text comes back.
pub dc_ata_ascii_to_c_string-trims :
    (i j : ℕ) (t : List ℕ)
    → IsText t
    → first_of t ≢ space
    → last_of space t ≢ space
    → i + length t + j ≤ 510
    → dc_ata_ascii_to_c_string (words_of (spaces i ++ (t ++ spaces j))) ≡ some t
unfolding dc_ata_ascii_to_c_string in_order
dc_ata_ascii_to_c_string-trims i j t o f l few =
    let padded = spaces i ++ (t ++ spaces j) in
    let short : ltb (length (words_of padded)) 256 ≡ true =
      fits_counter _ (omega (arith, length-words_of padded, length-padded i j t, few)) in
    let (n, e) =
      chars_words padded (bytes_of_padded i _ (bytes_of_text t _ o (bytes_of_spaces j))) in
    let shape : chars (words_of padded) ≡ spaces i ++ (t ++ spaces (j + n)) =
      e
      ∙ append_assoc (spaces i) (t ++ spaces j) (spaces n)
      ∙ ap (λ s. spaces i ++ s)
          (append_assoc t (spaces j) (spaces n) ∙ ap (λ s. t ++ s) (spaces_add j n)) in
    let printed =
      loops_print (words_of padded)
      ∙ ap (λ s. print_all (drop_spaces s) []) shape
      ∙ ap (λ s. print_all s []) (drop_leading i t (spaces (j + n)) f)
      ∙ print_all-append t (spaces (j + n)) [] in
    let erased =
      ap erase_trailing printed ∙ erase_spaces (j + n) (print_all t []) ∙ erase_text t [] o l in
    rw short (ap (λ r. r >>= λ written. some (in_order written [])) erased)
    ∙ ap some (in_order_text t [] [] o ∙ append-nil t)
