-- ===== src/Copy/Choice.antt =====
-- Facts about the searches of libdevcheck/copy_read_strategies.c through the list of zones.
use whdd_modify.Prelude.{
  ℕ, ◌≡◌, ◌⊎◌, inl, inr, Bool, true, false, ◌||◌, none, some, List, [], ◌∷◌, arith, ◌==◌,
  Bool-cases, ◌≢◌, ltb,
}
use whdd_modify.Copy.Zones.{Zone, find, zone_length, IsOrdered}
use whdd_modify.Copy.State.{ReadStrategy, is_smart_no_reverse}
use whdd_modify.Copy.Strategies.{find_largest_from, first_processable}

abbrev pub All : (Zone → Type 0) → List Zone → Type 0
All P [] = Unit
All P (z ∷ zs) = P z × All P zs

All-map : {P Q : Zone → Type 0} (zs : List Zone) → ((z : Zone) → P z → Q z) → All P zs → All Q zs
All-map [] f h = tt
All-map (z ∷ zs) f h = (f z h.0, All-map zs f h.1)

pub All-find :
    (P : Zone → Type 0) (a : ℕ) (zs : List Zone) {z : Zone} → All P zs → find a zs ≡ some z → P z
unfolding find
All-find P a [] h e = cc
All-find P a (y ∷ ys) {z = z} h e = elim (Bool-cases (y.addr == a)) [
  | inl t ↦ let same : y ≡ z = ground arith in rw same at (h.0)
  | inr t ↦ All-find P a ys h.1 (rw t at e)
]

abbrev pub Found : List Zone → Zone → Type 0
Found zs z = find z.addr zs ≡ some z

-- The nodes of an ordered list are found by their addresses.
pub All-Found : (next lo hi : ℕ) (zs : List Zone) → IsOrdered next lo hi zs → All (Found zs) zs
unfolding find
All-Found next lo hi [] o = tt
All-Found next lo hi (y ∷ ys) o = (
  ground arith,
  All-map {P = Found ys} {Q = Found (y ∷ ys)} ys (λ z h. ground arith)
      (All-Found next y.end_lba hi ys o.4),
)

-- A zone that can be read at a border is of the list; backward only where that is allowed.
pub first_processable-Found :
    (rs : ReadStrategy) (zs all : List Zone) (a : ℕ) (back : Bool)
    → All (Found all) zs
    → first_processable rs zs ≡ some (a, back)
    → (find a all ≢ none) × ((back ≡ false) ⊎ (is_smart_no_reverse rs ≡ false))
unfolding first_processable
first_processable-Found rs [] all a back h e = cc
first_processable-Found rs (z ∷ zs) all a back h e =
    ground (arith, first_processable-Found rs zs all a back h.1)

-- Where there is none, all borders that the strategy reads from are defective.
abbrev pub IsBlocked : ReadStrategy → Zone → Type 0
IsBlocked rs z =
    (z.begin_lba_defective ≡ true) × ((is_smart_no_reverse rs || z.end_lba_defective) ≡ true)

pub first_processable-IsBlocked :
    (rs : ReadStrategy) (zs : List Zone) → first_processable rs zs ≡ none → All (IsBlocked rs) zs
unfolding first_processable
first_processable-IsBlocked rs [] e = tt
first_processable-IsBlocked rs (z ∷ zs) e = ground (arith, first_processable-IsBlocked rs zs)

pub find_largest_from-All :
    (P : Zone → Type 0) (largest : Zone) (zs : List Zone)
    → P largest
    → All P zs
    → P (find_largest_from largest zs)
unfolding find_largest_from
find_largest_from-All P largest [] h a = h
find_largest_from-All P largest (z ∷ zs) h a =
    elim (Bool-cases (ltb (zone_length largest) (zone_length z))) [
      | inl t ↦ rw t (find_largest_from-All P z zs a.0 a.1)
      | inr t ↦ rw t (find_largest_from-All P largest zs h a.1)
    ]
