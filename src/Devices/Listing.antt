-- ===== src/Devices/Listing.antt =====
-- Which devices the list of libdevcheck/libdevcheck.c holds, and how they are found.
use whdd_modify.Prelude.{
  ℕ, zero, suc, ◌+◌, ◌≡◌, refl, ap, ◌∙◌, Option, none, some, List, [], ◌∷◌, map, length, get_elem?,
  arith, inl, inr, Bool-cases, if◌then◌else◌,
}
use whdd_modify.Devices.{
  Dev, DevList, Partition, is_whole_disk, new_dev, dev_list_build, Sources, fill_info,
  dev_list_fill_info, dc_dev_list, dc_dev_list_size, entry_from, dc_dev_list_get_entry,
}

-- The lines that name a whole disk, in the order of the file.
unfoldable pub whole_disks : List (Option Partition) → List Partition
whole_disks [] = []
whole_disks (none ∷ lines) = whole_disks lines
whole_disks (some p ∷ lines) =
    let rest = whole_disks lines in if is_whole_disk p.ptname then p ∷ rest else rest

-- The list as it is built from the disks alone.
build : List Partition → DevList → DevList
build [] l = l
build (p ∷ ps) l = build ps (record { arr = new_dev p ∷ l.arr; arr_size = suc l.arr_size })

dev_list_build-build :
    (lines : List (Option Partition)) (l : DevList)
    → dev_list_build lines l ≡ build (whole_disks lines) l
unfolding dev_list_build whole_disks build
dev_list_build-build [] l = refl
dev_list_build-build (none ∷ lines) l = dev_list_build-build lines l
dev_list_build-build (some p ∷ lines) l = elim (Bool-cases (is_whole_disk p.ptname)) [
  | inl whole ↦ rw whole (dev_list_build-build lines _)
  | inr part ↦ rw part (dev_list_build-build lines l)
]

build-size : (ps : List Partition) (l : DevList) → (build ps l).arr_size ≡ l.arr_size + length ps
unfolding build
build-size [] l = omega arith
build-size (p ∷ ps) l = build-size ps _ ∙ omega arith

build-behind :
    (ps : List Partition) (l : DevList) (j : ℕ)
    → entry_from (build ps l).arr (length ps + j) ≡ entry_from l.arr j
unfolding build entry_from
build-behind [] l j = let same : 0 + j ≡ j = omega arith in ap (entry_from l.arr) same
build-behind (p ∷ ps) l j =
    let step : suc (length ps) + j ≡ length ps + suc j = omega arith in
    ap (entry_from (build ps _).arr) step ∙ build-behind ps _ (suc j)

build-entry :
    (ps : List Partition) (l : DevList) (i k : ℕ)
    → suc (i + k) ≡ length ps
    → entry_from (build ps l).arr i ≡ get_elem? (map new_dev ps) k
unfolding build entry_from
build-entry [] l i k e = absurd (omega arith)
build-entry (p ∷ ps) l i zero e =
    let last : i ≡ length ps + 0 = omega arith in
    ap (entry_from (build ps _).arr) last ∙ build-behind ps _ 0
build-entry (p ∷ ps) l i (suc k) e = build-entry ps _ i k (omega arith)

entry-fill :
    (k : Dev → Sources) (ds : List Dev) (i : ℕ) (d : Dev)
    → entry_from ds i ≡ some d
    → entry_from (dev_list_fill_info k ds) i ≡ some (fill_info (k d) d)
unfolding dev_list_fill_info entry_from
entry-fill k [] i d e = cc
entry-fill k (x ∷ ds) zero d e = ap (λ (o : Option Dev). filled o) e
  where
    filled : Option Dev → Option Dev
    filled none = none
    filled (some y) = some (fill_info (k y) y)
entry-fill k (x ∷ ds) (suc i) d e = entry-fill k ds i d e

get_elem?-map :
    (ps : List Partition) (k : ℕ) (p : Partition)
    → get_elem? ps k ≡ some p
    → get_elem? (map new_dev ps) k ≡ some (new_dev p)
get_elem?-map [] k p e = cc
get_elem?-map (x ∷ ps) zero p e = cc
get_elem?-map (x ∷ ps) (suc k) p e = get_elem?-map ps k p e

-- The size of the list is the number of lines of /proc/partitions that name a whole disk, and the
-- k-th of these is the device at an index i if i + k + 1 is their number: it is filled in from what
-- the device and the system tell.
pub dc_dev_list-entry :
    (s : Dev → Sources) (lines : List (Option Partition)) (i k : ℕ) (p : Partition)
    → suc (i + k) ≡ length (whole_disks lines)
    → get_elem? (whole_disks lines) k ≡ some p
    → (dc_dev_list_size (dc_dev_list s (some lines)) ≡ length (whole_disks lines))
      × (dc_dev_list_get_entry (dc_dev_list s (some lines)) i
          ≡ some (fill_info (s (new_dev p)) (new_dev p)))
unfolding dc_dev_list dc_dev_list_get_entry
dc_dev_list-entry s lines i k p e q =
    let b = dev_list_build-build lines (record { arr = []; arr_size = 0 }) in
    rw b (
      build-size (whole_disks lines) _ ∙ omega arith,
      entry-fill s _ i (new_dev p)
          (build-entry (whole_disks lines) _ i k e ∙ get_elem?-map _ k p q),
    )
