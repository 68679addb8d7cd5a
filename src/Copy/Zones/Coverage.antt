-- ===== src/Copy/Zones/Coverage.antt =====
-- What the writes to the list of zones do to the set of sectors that it stands for.
use whdd_modify.Prelude.{
  ℕ, ◌≤◌, ◌<◌, ◌≡◌, refl, inl, inr, true, not, ◌&&◌, ◌||◌, some, List, [], ◌∷◌, ◌++◌, arith, ◌==◌,
  Bool-cases,
}
use whdd_modify.Copy.Zones.{Zone, find, splice, within, covers, IsOrdered}
use whdd_modify.Copy.Zones.Order.{IsOrdered-le, find_in_order}

pub covers-append : (xs ys : List Zone) (k : ℕ) → covers (xs ++ ys) k ≡ (covers xs k || covers ys k)
unfolding covers
covers-append [] ys k = refl
covers-append (x ∷ xs) ys k = ground (arith, covers-append xs ys k)

-- A covered sector lies between the bounds.
pub covered_in_order :
    (next lo hi : ℕ) (zs : List Zone) (k : ℕ)
    → IsOrdered next lo hi zs
    → covers zs k ≡ true
    → (lo ≤ k) × (k < hi)
unfolding covers
covered_in_order next lo hi [] k o h = cc
covered_in_order next lo hi (z ∷ zs) k o h =
    ground
      (arith, covered_in_order next z.end_lba hi zs k o.4, IsOrdered-le next z.end_lba hi zs o.4)

pub covers-find :
    (a : ℕ) (zs : List Zone) (k : ℕ) {z : Zone}
    → find a zs ≡ some z
    → within z.begin_lba z.end_lba k ≡ true
    → covers zs k ≡ true
unfolding find covers
covers-find a [] k h w = cc
covers-find a (y ∷ ys) k {z = z} h w = elim (Bool-cases (y.addr == a)) [
  | inl e ↦ ground arith
  | inr e ↦ ground (arith, covers-find a ys k {z = z})
]

module _ (a : ℕ) (g : Zone → List Zone) {z : Zone} (k : ℕ) where
  -- New nodes that stand for the sectors of the old one leave the set as it is.
  pub covers-splice_same :
      (zs : List Zone)
      → find a zs ≡ some z
      → covers (g z) k ≡ within z.begin_lba z.end_lba k
      → covers (splice a g zs) k ≡ covers zs k
  unfolding find splice covers
  covers-splice_same [] h c = cc
  covers-splice_same (y ∷ ys) h c = elim (Bool-cases (y.addr == a)) [
    | inl e ↦ ground (arith, covers-append (g y) ys k)
    | inr e ↦ ground (arith, covers-splice_same ys)
  ]

  -- New nodes that stand for the sectors of the old one without an interval take it off the set.
  pub covers-splice_without :
      (next lo hi b e : ℕ) (zs : List Zone)
      → IsOrdered next lo hi zs
      → find a zs ≡ some z
      → z.begin_lba ≤ b
      → e ≤ z.end_lba
      → covers (g z) k ≡ (within z.begin_lba z.end_lba k && not (within b e k))
      → covers (splice a g zs) k ≡ (covers zs k && not (within b e k))
  unfolding find splice covers
  covers-splice_without next lo hi b e [] o h p q c = cc
  covers-splice_without next lo hi b e (y ∷ ys) o h p q c = elim (Bool-cases (y.addr == a)) [
    | inl t ↦ ground (arith, covers-append (g y) ys k, covered_in_order next y.end_lba hi ys k o.4)
    | inr t ↦ ground (
      arith,
      covers-splice_without next y.end_lba hi b e ys o.4,
      find_in_order next y.end_lba hi a ys {z = z} o.4,
    )
  ]
