-- ===== src/Devices/Finding.antt =====
-- `find_device_by_name` of cui/main.c on the list of libdevcheck/libdevcheck.c.
use whdd_modify.Prelude.{
  ℕ, zero, suc, ◌+◌, ◌≡◌, ◌<◌, ◌≤◌, ◌≢◌, refl, sym, ap, ◌∙◌, Bool, true, false, ◌||◌, Option, none,
  some, List, [], ◌∷◌, length, get_elem?, arith, inl, inr, ◌⊎◌, Bool-cases, if◌then◌else◌, ==_iff,
}
use whdd_modify.Devices.{
  Dev, DevList, Partition, new_dev, Sources, fill_ata, fill_info, dc_dev_list, entry_from,
  dc_dev_list_get_entry, same_text, find_from, find_device_by_name,
}
use whdd_modify.Devices.Listing.{whole_disks, dc_dev_list-entry}

same_text-eq : (a b : List ℕ) → same_text a b ≡ true → a ≡ b
unfolding same_text
same_text-eq [] [] h = refl
same_text-eq [] (d ∷ t) h = cc
same_text-eq (c ∷ s) [] h = cc
same_text-eq (c ∷ s) (d ∷ t) h = ground (arith, same_text-eq s t)

same_text_refl : (a : List ℕ) → same_text a a ≡ true
unfolding same_text
same_text_refl [] = refl
same_text_refl (c ∷ s) = rw ((==_iff c c).1 refl) (same_text_refl s)

entry_from-below :
    (ds : List Dev) (i j : ℕ) (d : Dev)
    → entry_from ds j ≡ some d
    → i ≤ j
    → (x : Dev) × (entry_from ds i ≡ some x)
unfolding entry_from
entry_from-below [] i j d e h = absurd (not_some d e)
  where
    not_some : (a : Dev) → none ≡ some a → ⊥
    not_some a q = cc
entry_from-below (x ∷ ds) zero j d e h = (x, refl)
entry_from-below (x ∷ ds) (suc i) zero d e h = absurd (omega arith)
entry_from-below (x ∷ ds) (suc i) (suc j) d e h = entry_from-below ds i j d e (omega arith)

-- The name or the path is the text.
abbrev pub IsNamed : List ℕ → Dev → Type 0
IsNamed name d = (d.dev_fs_name ≡ name) ⊎ (d.dev_path ≡ name)

abbrev matches : Dev → List ℕ → Bool
matches d name = same_text d.dev_fs_name name || same_text d.dev_path name

matches-IsNamed : (d : Dev) (name : List ℕ) → matches d name ≡ true → IsNamed name d
matches-IsNamed d name h = elim (Bool-cases (same_text d.dev_fs_name name)) [
  | inl e ↦ inl (same_text-eq _ _ e)
  | inr e ↦ inr (same_text-eq _ _ (rw e at h))
]

find_from-step :
    (fuel i : ℕ) (l : DevList) (name : List ℕ) (x : Dev)
    → entry_from l.arr i ≡ some x
    → find_from (suc fuel) i l name
      ≡ (if matches x name then some x else find_from fuel (i + 1) l name)
unfolding find_from dc_dev_list_get_entry
find_from-step fuel i l name x q = rw (q, find_from) refl

same_entry :
    (l : DevList) (i j : ℕ) (x d : Dev)
    → entry_from l.arr i ≡ some x
    → entry_from l.arr j ≡ some d
    → i ≡ j
    → x ≡ d
same_entry l i j x d q e s = cc

find_from-finds :
    (fuel i j : ℕ) (l : DevList) (name : List ℕ) (d : Dev)
    → entry_from l.arr j ≡ some d
    → matches d name ≡ true
    → i ≤ j
    → j < i + fuel
    → (x : Dev) × (find_from fuel i l name ≡ some x) × IsNamed name x
find_from-finds zero i j l name d e m h k = absurd (omega arith)
find_from-finds (suc fuel) i j l name d e m h k =
    let (x, q) = entry_from-below l.arr i j d e h in
    let step = find_from-step fuel i l name x q in
    elim (Bool-cases (matches x name)) [
      | inl hit ↦ (x, step ∙ rw hit refl, matches-IsNamed x name hit)
      | inr miss ↦
          let other : i ≢ j = λ s.
            true_ne_false (
              sym m ∙ ap (λ (y : Dev). matches y name) (sym (same_entry l i j x d q e s)) ∙ miss) in
          let (y, found, named) =
            find_from-finds fuel (i + 1) j l name d e m (omega arith) (omega arith) in
          (y, step ∙ rw miss found, named)
    ]
  where
    true_ne_false : true ≡ false → ⊥
    true_ne_false t = cc

fill_info-name : (s : Sources) (d : Dev) → (fill_info s d).dev_fs_name ≡ d.dev_fs_name
unfolding fill_info fill_ata
fill_info-name s d = ground arith

-- Every line of /proc/partitions that names a whole disk can be found: the search by its name gives
-- a device that has this name or path.
pub find_device_by_name-finds :
    (s : Dev → Sources) (lines : List (Option Partition)) (i k : ℕ) (p : Partition)
    → suc (i + k) ≡ length (whole_disks lines)
    → get_elem? (whole_disks lines) k ≡ some p
    → (d : Dev) × (find_device_by_name (dc_dev_list s (some lines)) p.ptname ≡ some d)
      × IsNamed p.ptname d
unfolding find_device_by_name new_dev dc_dev_list_get_entry
find_device_by_name-finds s lines i k p e q =
    let (size, entry) = dc_dev_list-entry s lines i k p e q in
    let name = fill_info-name (s (new_dev p)) (new_dev p) in
    find_from-finds _ 0 i _ p.ptname _ entry (rw name (rw (same_text_refl p.ptname) refl))
      (omega arith) (omega arith)
