-- ===== src/Render/WholeSpace/Cells.antt =====
-- What the map of cui/whole_space_renderer.c shows, and that it fits into its window.
use whdd_modify.Prelude.{
  ℕ, zero, suc, ◌+◌, ◌-◌, ◌*◌, ◌%◌, ◌<◌, ◌≤◌, ◌≡◌, refl, sym, ap, ◌∙◌, get_or, Bool, true, false,
  some, ◌/◌, ◌^◌, ltb, not, ◌&&◌, ◌||◌, List, [], ◌∷◌, arith, ◌==◌, if◌then◌else◌, length, take,
  inl, inr, Bool-cases,
}
use whdd_modify.Render.WholeSpace.Map.{
  Cell, with_errors, unread, processed, cell_of, drop, cells_from, render_map, blocks_per_vis_of,
}

-- Whether one of the blocks has a status.
pub any_is : ℕ → List ℕ → Bool
any_is s [] = false
any_is s (t ∷ ts) = t == s || any_is s ts

cell_of-any :
    (ss : List ℕ) (full : Bool)
    → cell_of ss full ≡ (
        if any_is 2 ss
        then with_errors
        else if full && not (any_is 0 ss)
        then processed
        else unread)
unfolding cell_of any_is
cell_of-any [] true = refl
cell_of-any [] false = refl
cell_of-any (s ∷ ss) full = ground (arith, cell_of-any ss (full && not (s == 0)))

length-drop : {A : Type 0} (n : ℕ) (xs : List A) → length (drop n xs) ≡ length xs - n
length-drop zero xs = omega arith
length-drop (suc n) [] = omega arith
length-drop (suc n) (x ∷ xs) = omega (arith, length-drop n xs)

cells_from-fits :
    (fuel b : ℕ) (ss : List ℕ) (cells : ℕ)
    → length ss ≤ cells * b
    → length (cells_from fuel b ss) ≤ cells
unfolding cells_from
cells_from-fits fuel b [] cells h = omega arith
cells_from-fits zero b (s ∷ ss) cells h = omega arith
cells_from-fits (suc fuel) b (s ∷ ss) zero h = absurd (omega arith)
cells_from-fits (suc fuel) b (s ∷ ss) (suc cells) h =
    let more : suc cells * b ≡ cells * b + b = grind arith in
    omega (
      arith,
      cells_from-fits fuel b (drop b (s ∷ ss)) cells (omega (arith, length-drop b (s ∷ ss))),
    )

enough : (n cells : ℕ) → 0 < cells → n ≤ cells * blocks_per_vis_of n cells
unfolding blocks_per_vis_of
enough n cells h = elim (Bool-cases (n % cells == 0)) [
  | inl e ↦ rw e (grind arith)
  | inr e ↦ rw e (grind arith)
]

drop_nil : {A : Type 0} (n : ℕ) → ◌≡◌ {A = List A} (drop n []) []
drop_nil zero = refl
drop_nil (suc n) = refl

drop_add : {A : Type 0} (m n : ℕ) (xs : List A) → drop (m + n) xs ≡ drop n (drop m xs)
drop_add zero n xs = let same : 0 + n ≡ n = omega arith in ap (λ (k : ℕ). drop k xs) same
drop_add (suc m) n [] =
    let step : suc m + n ≡ suc (m + n) = omega arith in rw step (sym (drop_nil n))
drop_add (suc m) n (x ∷ xs) =
    let step : suc m + n ≡ suc (m + n) = omega arith in rw step (drop_add m n xs)

-- What a cell has to show of its blocks: an error if there is one, else whether all are done.
abbrev pub shows : List ℕ → Cell
shows ss = if any_is 2 ss then with_errors else if any_is 0 ss then unread else processed

cell_of-shows : (ss : List ℕ) → cell_of ss true ≡ shows ss
cell_of-shows ss = cell_of-any ss true ∙ ground arith

cells_from-shows :
    (fuel b : ℕ) (ss : List ℕ) (i : ℕ)
    → 0 < b
    → i * b < length ss
    → length ss ≤ fuel
    → get_or (cells_from fuel b ss) i processed ≡ shows (take b (drop (i * b) ss))
unfolding cells_from
cells_from-shows fuel b [] i p l f = absurd (omega arith)
cells_from-shows zero b (s ∷ ss) i p l f = absurd (omega arith)
cells_from-shows (suc fuel) b (s ∷ ss) zero p l f =
    let first : 0 * b ≡ 0 = omega arith in rw first (cell_of-shows (take b (s ∷ ss)))
cells_from-shows (suc fuel) b (s ∷ ss) (suc i) p l f =
    let step : suc i * b ≡ b + i * b = grind arith in
    rw step (
      rw (drop_add b (i * b) (s ∷ ss)) (
        cells_from-shows fuel b (drop b (s ∷ ss)) i p (omega (arith, length-drop b (s ∷ ss)))
          (omega (arith, length-drop b (s ∷ ss)))))

whole_le : (m b : ℕ) → m / b * b ≤ m
whole_le m zero = omega arith
whole_le m (suc b) = grind arith

blocks_per_vis_le : (n cells : ℕ) → 0 < cells → blocks_per_vis_of n cells ≤ n + 1
unfolding blocks_per_vis_of
blocks_per_vis_le n cells p =
    let le : n / cells ≤ n = grind arith in
    elim (Bool-cases (n % cells == 0)) [ inl e ↦ rw e (omega arith) | inr e ↦ rw e (omega arith) ]

-- The last index of the outer loop.
last_fits :
    (n cells : ℕ)
    → 0 < cells
    → n < 2 ^ 30
    → ltb
        ((n + blocks_per_vis_of n cells - 1)
          / blocks_per_vis_of n cells
          * blocks_per_vis_of n cells)
        (2 ^ 31)
      ≡ true
last_fits n cells p few = below _ (
    omega (
      arith,
      whole_le (n + blocks_per_vis_of n cells - 1) (blocks_per_vis_of n cells),
      blocks_per_vis_le n cells p,
    ))
  where
    below : (m : ℕ) → m < 2 ^ 31 → ltb m (2 ^ 31) ≡ true
    below m l = ground arith

-- For a window of some cells, with as many blocks to a cell as `Open` computes, and fewer than 2 ^ 30
-- blocks: no index overflows, the map has no more cells than the window, and each cell that begins before the last block shows an error if one of
-- its blocks has the status 2, else unread space if one has the status 0, else processed space.
pub render_map-fits :
    (ss : List ℕ) (cells i : ℕ)
    → 0 < cells
    → length ss < 2 ^ 30
    → i * blocks_per_vis_of (length ss) cells < length ss
    → let b = blocks_per_vis_of (length ss) cells in
      (map : List Cell) × (render_map b ss ≡ some map)
      × (length map ≤ cells)
      × (get_or map i processed ≡ shows (take b (drop (i * b) ss)))
unfolding render_map
render_map-fits ss cells i h few l =
    let b = blocks_per_vis_of (length ss) cells in
    let all = enough (length ss) cells h in
    (
      cells_from (length ss) b ss,
      rw (last_fits (length ss) cells h few) refl,
      cells_from-fits (length ss) b ss cells all,
      cells_from-shows (length ss) b ss i (positive b cells (length ss) all (omega arith)) l
          (omega arith),
    )
  where
    positive : (b c n : ℕ) → n ≤ c * b → 0 < n → 0 < b
    positive zero c n a p = absurd (grind arith)
    positive (suc b) c n a p = omega arith
