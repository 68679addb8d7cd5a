-- ===== src/Copy/Zones/Order.antt =====
-- What the writes to the list of zones keep: order, disjointness, distinct addresses.
use whdd_modify.Prelude.{
  ℕ, ◌+◌, ◌≤◌, ◌<◌, ◌≡◌, refl, ◌∙◌, ◌≢◌, inl, inr, none, some, List, [], ◌∷◌, ◌++◌, arith, length,
  length-append, ◌==◌, Bool-cases, ==_iff,
}
use whdd_modify.Copy.Zones.{Zone, find, splice, zone_length, total, IsOrdered}

pub IsOrdered-lower :
    (next hi lo lo' : ℕ) (zs : List Zone)
    → lo' ≤ lo
    → IsOrdered next lo hi zs
    → IsOrdered next lo' hi zs
IsOrdered-lower next hi lo lo' [] h o = omega arith
IsOrdered-lower next hi lo lo' (z ∷ zs) h o = (omega arith, o.1, o.2, o.3, o.4)

pub IsOrdered-allocate :
    (lo hi next : ℕ) (zs : List Zone) → IsOrdered next lo hi zs → IsOrdered (next + 1) lo hi zs
IsOrdered-allocate lo hi next [] o = o
IsOrdered-allocate lo hi next (z ∷ zs) o =
    (o.0, o.1, omega arith, o.3, IsOrdered-allocate z.end_lba hi next zs o.4)

pub IsOrdered-le : (next lo hi : ℕ) (zs : List Zone) → IsOrdered next lo hi zs → lo ≤ hi
IsOrdered-le next lo hi [] o = o
IsOrdered-le next lo hi (z ∷ zs) o = omega (arith, IsOrdered-le next z.end_lba hi zs o.4)

-- A node found lies in its place.
pub find_in_order :
    (next lo hi a : ℕ) (zs : List Zone) {z : Zone}
    → IsOrdered next lo hi zs
    → find a zs ≡ some z
    → (z.addr ≡ a) × (a < next) × (lo ≤ z.begin_lba) × (z.begin_lba < z.end_lba) × (z.end_lba ≤ hi)
unfolding find
find_in_order next lo hi a [] o h = cc
find_in_order next lo hi a (y ∷ ys) {z = z} o h = elim (Bool-cases (y.addr == a)) [
  | inl e ↦ ground (arith, IsOrdered-le next y.end_lba hi ys o.4)
  | inr e ↦ ground (arith, find_in_order next y.end_lba hi a ys {z = z} o.4)
]

pub find_fresh :
    (next lo hi a : ℕ) (zs : List Zone) → IsOrdered next lo hi zs → next ≤ a → find a zs ≡ none
unfolding find
find_fresh next lo hi a [] o h = refl
find_fresh next lo hi a (z ∷ zs) o h = ground (arith, find_fresh next z.end_lba hi a zs o.4)

pub total-append : (xs ys : List Zone) → total (xs ++ ys) ≡ total xs + total ys
total-append [] ys = omega arith
total-append (x ∷ xs) ys = omega (arith, total-append xs ys)

module _ (a : ℕ) (g : Zone → List Zone) {z : Zone} where
  pub total-splice :
      (zs : List Zone)
      → find a zs ≡ some z
      → total (splice a g zs) + zone_length z ≡ total zs + total (g z)
  unfolding find splice
  total-splice [] h = cc
  total-splice (y ∷ ys) h = elim (Bool-cases (y.addr == a)) [
    | inl e ↦ ground (arith, total-append (g y) ys)
    | inr e ↦ ground (arith, total-splice ys)
  ]

  pub length-splice :
      (zs : List Zone) → find a zs ≡ some z → length (splice a g zs) + 1 ≡ length zs + length (g z)
  unfolding find splice
  length-splice [] h = cc
  length-splice (y ∷ ys) h = elim (Bool-cases (y.addr == a)) [
    | inl e ↦ ground (arith, length-append (g y) ys)
    | inr e ↦ ground (arith, length-splice ys)
  ]

  -- Where the new nodes answer to `a` and to fresh addresses only, the others are found as before.
  pub find-splice_ne :
      (b : ℕ) (zs : List Zone)
      → find a zs ≡ some z
      → a ≢ b
      → ((rest : List Zone) → find b (g z ++ rest) ≡ find b rest)
      → find b (splice a g zs) ≡ find b zs
  unfolding find splice
  find-splice_ne b [] h n f = cc
  find-splice_ne b (y ∷ ys) h n f = elim (Bool-cases (y.addr == a)) [
    | inl e ↦ ground (arith, f ys)
    | inr e ↦ ground (arith, find-splice_ne b ys)
  ]

  -- The node at `a` after the write.
  pub find-splice_self :
      (zs : List Zone) (y : Zone)
      → find a zs ≡ some z
      → ((rest : List Zone) → find a (g z ++ rest) ≡ some y)
      → find a (splice a g zs) ≡ some y
  unfolding find splice
  find-splice_self [] y h f = cc
  find-splice_self (x ∷ xs) y h f = elim (Bool-cases (x.addr == a)) [
    | inl e ↦ ground (arith, f xs)
    | inr e ↦ ground (arith, find-splice_self xs y)
  ]

  -- A new node with a fresh address.
  pub find-splice_fresh :
      (next lo hi b : ℕ) (zs : List Zone) (y : Zone)
      → IsOrdered next lo hi zs
      → next ≤ b
      → find a zs ≡ some z
      → ((rest : List Zone) → find b (g z ++ rest) ≡ some y)
      → find b (splice a g zs) ≡ some y
  unfolding find splice
  find-splice_fresh next lo hi b [] y o n h f = cc
  find-splice_fresh next lo hi b (x ∷ xs) y o n h f = elim (Bool-cases (x.addr == a)) [
    | inl e ↦ ground (arith, f xs)
    | inr e ↦ ground (arith, find-splice_fresh next x.end_lba hi b xs y o.4)
  ]

  -- Where they fit between the neighbours of the node that they replace, the order is kept.
  pub splice-IsOrdered :
      (next next' lo hi : ℕ) (zs : List Zone)
      → next ≤ next'
      → IsOrdered next lo hi zs
      → find a zs ≡ some z
      → ((b : ℕ) (rest : List Zone) → b < next → a ≢ b → find b (g z ++ rest) ≡ find b rest)
      → ((rest : List Zone)
          → find a rest ≡ none
          → IsOrdered next z.end_lba hi rest
          → IsOrdered next' z.begin_lba hi (g z ++ rest))
      → IsOrdered next' lo hi (splice a g zs)
  unfolding find splice
  splice-IsOrdered next next' lo hi [] n o h f s = cc
  splice-IsOrdered next next' lo hi (y ∷ ys) n o h f s = elim (Bool-cases (y.addr == a)) [
    | inl e ↦
        let same : y ≡ z = ground arith in
        let gone : find a ys ≡ none = rw ((==_iff y.addr a).0 e) at (o.3) in
        rw (e, same)
          (IsOrdered-lower _ _ _ _ (g z ++ ys) (rw same at o.0) (s ys gone (rw same at (o.4))))
    | inr e ↦ rw e (
      o.0,
      o.1,
      omega arith,
      find-splice_ne y.addr ys (rw e at h) (ground arith)
            (λ rest. f y.addr rest (omega arith) (ground arith))
          ∙ o.3,
      splice-IsOrdered next next' y.end_lba hi ys n o.4 (rw e at h) f s,
    )
  ]

-- Ascending zones have no more sectors than the range that they lie in.
pub total_bound : (next lo hi : ℕ) (zs : List Zone) → IsOrdered next lo hi zs → lo + total zs ≤ hi
total_bound next lo hi [] o = omega arith
total_bound next lo hi (z ∷ zs) o = omega (arith, total_bound next z.end_lba hi zs o.4, o.0, o.1)
