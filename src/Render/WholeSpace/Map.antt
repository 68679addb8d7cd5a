-- ===== src/Render/WholeSpace/Map.antt =====
-- The map of cui/whole_space_renderer.c, `render_map`: the cells that are drawn for the statuses.
use whdd_modify.Prelude.{
  ℕ, zero, suc, ◌+◌, ◌/◌, ◌%◌, Bool, true, Option, some, none, ltb, ◌-◌, ◌*◌, ◌^◌, not, ◌&&◌, List,
  [], ◌∷◌, ◌==◌, if◌then◌else◌, length, take,
}

-- What a cell of the map shows.
pub data Cell : Type 0 where
  with_errors unread processed : Cell

-- The inner loop of `render_map` over the statuses of a cell's blocks.
unfoldable pub cell_of : List ℕ → Bool → Cell
cell_of [] fully_processed = if fully_processed then processed else unread
cell_of (s ∷ ss) fully_processed =
    let rest = cell_of ss (fully_processed && not (s == 0)) in if s == 2 then with_errors else rest

abbrev pub drop {ℓ} : {A : Type ℓ} → ℕ → List A → List A
drop zero xs = xs
drop (suc n) [] = []
drop (suc n) (x ∷ xs) = drop n xs

-- The outer loop: a cell for each `blocks_per_vis` blocks. Each round takes at least one.
unfoldable pub cells_from : ℕ → ℕ → List ℕ → List Cell
cells_from fuel blocks_per_vis [] = []
cells_from zero blocks_per_vis (s ∷ ss) = []
cells_from (suc fuel) blocks_per_vis (s ∷ ss) =
    cell_of (take blocks_per_vis (s ∷ ss)) true
    ∷ cells_from fuel blocks_per_vis (drop blocks_per_vis (s ∷ ss))

-- The loops count blocks by ints; `none` is an index that one cannot hold. The outer one is the larger,
-- and ends at the first multiple of `blocks_per_vis` from `nb_blocks` on. With 0 blocks to a cell it
-- would not end, but then there are no blocks.
unfoldable pub render_map : ℕ → List ℕ → Option (List Cell)
render_map blocks_per_vis blocks_map =
    let nb_blocks = length blocks_map in
    let last = (nb_blocks + blocks_per_vis - 1) / blocks_per_vis * blocks_per_vis in
    if ltb last (2 ^ 31) then some (cells_from nb_blocks blocks_per_vis blocks_map) else none

-- `blocks_per_vis` for a window of so many cells.
unfoldable pub blocks_per_vis_of : ℕ → ℕ → ℕ
blocks_per_vis_of nb_blocks vis_cells_avail =
    if nb_blocks % vis_cells_avail == 0
    then nb_blocks / vis_cells_avail
    else nb_blocks / vis_cells_avail + 1
