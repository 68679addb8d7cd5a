-- ===== src/Copy/Zones.antt =====
-- The list of unread zones of libdevcheck/copy.h. A pointer to a `Zone` is the address of its node;
-- the nodes stand in the order of their `next` links.
pub mod Order
pub mod Coverage
use whdd_modify.Prelude.{
  ℕ, ◌+◌, ◌-◌, ◌≤◌, ◌<◌, Bool, false, ◌&&◌, ◌||◌, Option, none, some, List, [], ◌∷◌, ◌++◌, ◌≡◌, ltb,
  leb, ◌==◌, if◌then◌else◌,
}

-- `struct zone`; the two `int` flags are only tested for zero.
pub record Zone : Type 0 where
  pub addr : ℕ
  pub begin_lba : ℕ
  pub end_lba : ℕ
  pub begin_lba_defective : Bool
  pub end_lba_defective : Bool

-- The node behind a pointer.
unfoldable pub find : ℕ → List Zone → Option Zone
find a [] = none
find a (z ∷ zs) = if z.addr == a then some z else find a zs

-- The node at an address gives way to some nodes.
unfoldable pub splice : ℕ → (Zone → List Zone) → List Zone → List Zone
splice a g [] = []
splice a g (z ∷ zs) = if z.addr == a then g z ++ zs else z ∷ splice a g zs

-- Assignments through a pointer.
unfoldable pub store : ℕ → (Zone → Zone) → List Zone → List Zone
store a f = splice a (λ z. f z ∷ [])

-- `newentry->next = entry->next; entry->next = newentry;`
unfoldable pub insert_after : ℕ → Zone → List Zone → List Zone
insert_after a n = splice a (λ z. z ∷ n ∷ [])

-- The search for the node and its predecessor, the relinking and the `free`.
unfoldable pub unlink : ℕ → List Zone → List Zone
unlink a = splice a (λ z. [])

abbrev pub zone_length : Zone → ℕ
zone_length z = z.end_lba - z.begin_lba

-- The sectors of all zones.
abbrev pub total : List Zone → ℕ
total [] = 0
total (z ∷ zs) = zone_length z + total zs

abbrev pub within : ℕ → ℕ → ℕ → Bool
within lo hi k = leb lo k && ltb k hi

-- Whether sector k is in a zone: the abstract view of the list.
unfoldable pub covers : List Zone → ℕ → Bool
covers [] k = false
covers (z ∷ zs) k = within z.begin_lba z.end_lba k || covers zs k

-- The nodes have addresses of their own below `next`, and the zones are not empty, ascend and
-- lie between `lo` and `hi`.
abbrev pub IsOrdered : ℕ → ℕ → ℕ → List Zone → Type 0
IsOrdered next lo hi [] = lo ≤ hi
IsOrdered next lo hi (z ∷ zs) =
    (lo ≤ z.begin_lba)
    × (z.begin_lba < z.end_lba)
    × (z.addr < next)
    × (find z.addr zs ≡ none)
    × IsOrdered next z.end_lba hi zs
