-- ===== src/Procedure/Registry/Order.antt =====
-- The places that procedures get in the list of libdevcheck/procedure.c.
use whdd_modify.Prelude.{
  ℕ, zero, suc, ◌+◌, ◌≡◌, ◌∙◌, Option, none, some, List, [], ◌∷◌, map, length, get_elem?, arith, ap,
  Option-cases, inl, inr, sym, ◌<◌, ◌≢◌, Bool-cases, ==_iff, ◌==◌, false, subst,
}
use whdd_modify.Procedure.Registry.{
  Procedure, Registry, numbered, dc_procedure_register, register_all, entry_at, find_from,
  dc_find_procedure, dc_get_procedure_by_index,
}

-- What was registered before lies behind.
register_all-behind :
    (r : Registry) (ps : List Procedure) (j : ℕ)
    → dc_get_procedure_by_index (register_all r ps) (length ps + j) ≡ dc_get_procedure_by_index r j
unfolding register_all dc_get_procedure_by_index dc_procedure_register entry_at
register_all-behind r [] j =
    let same : 0 + j ≡ j = omega arith in ap (dc_get_procedure_by_index r) same
register_all-behind r (p ∷ ps) j =
    let step : suc (length ps) + j ≡ length ps + suc j = omega arith in
    ap (dc_get_procedure_by_index (register_all (dc_procedure_register r p) ps)) step
    ∙ register_all-behind (dc_procedure_register r p) ps (suc j)

register_all-grows :
    (r : Registry) (ps : List Procedure)
    → (register_all r ps).nb_procedures ≡ r.nb_procedures + length ps
unfolding register_all dc_procedure_register
register_all-grows r [] = omega arith
register_all-grows r (p ∷ ps) = register_all-grows (dc_procedure_register r p) ps ∙ omega arith

register_all-places :
    (r : Registry) (ps : List Procedure) (i k : ℕ)
    → suc (i + k) ≡ length ps
    → dc_get_procedure_by_index (register_all r ps) i ≡ get_elem? (map numbered ps) k
unfolding register_all dc_get_procedure_by_index dc_procedure_register entry_at
register_all-places r [] i k e = absurd (omega arith)
register_all-places r (p ∷ ps) i zero e =
    let last : i ≡ length ps + 0 = omega arith in
    ap (dc_get_procedure_by_index (register_all (dc_procedure_register r p) ps)) last
    ∙ register_all-behind (dc_procedure_register r p) ps 0
register_all-places r (p ∷ ps) i (suc k) e =
    register_all-places (dc_procedure_register r p) ps i k (omega arith)

-- The number of procedures grows by those that are registered, and of these, the one that was
-- registered k-th, its options counted, is the one at an index i if i + k + 1 is their number: the
-- last comes first.
pub register_all-indexes :
    (r : Registry) (ps : List Procedure) (i k : ℕ)
    → suc (i + k) ≡ length ps
    → ((register_all r ps).nb_procedures ≡ r.nb_procedures + length ps)
      × (dc_get_procedure_by_index (register_all r ps) i ≡ get_elem? (map numbered ps) k)
register_all-indexes r ps i k e = (register_all-grows r ps, register_all-places r ps i k e)

not_some : (p : Procedure) → none ≡ some p → ⊥
not_some p h = cc

same : {p q : Procedure} → some p ≡ some q → p ≡ q
same h = cc

-- The first entry with a name: it has the name, and no entry before it has.
abbrev pub IsFirst : ℕ → (ℕ → Option Procedure) → Procedure → ℕ → Type 0
IsFirst n entry p i =
    (entry i ≡ some p)
    × (p.name ≡ n)
    × ((j : ℕ) (q : Procedure) → j < i → entry j ≡ some q → q.name ≢ n)

first_behind :
    (n : ℕ) (q : Procedure) (ps : List Procedure) (i : ℕ)
    → (q.name == n) ≡ false
    → ((j : ℕ) (r : Procedure) → j < i → entry_at ps j ≡ some r → r.name ≢ n)
    → (j : ℕ) (r : Procedure) → j < suc i
    → entry_at (q ∷ ps) j ≡ some r
    → r.name ≢ n
unfolding entry_at
first_behind n q ps i other before zero r l a =
    subst (λ (x : Procedure). x.name ≢ n) (same a) (ground arith)
first_behind n q ps i other before (suc j) r l a = before j r (omega arith) a

find_from-IsFirst :
    (n : ℕ) (ps : List Procedure) (p : Procedure)
    → find_from n ps ≡ some p
    → (i : ℕ) × IsFirst n (entry_at ps) p i
unfolding find_from entry_at
find_from-IsFirst n [] p e = absurd (not_some p e)
find_from-IsFirst n (q ∷ qs) p e = elim (Bool-cases (q.name == n)) [
  | inl named ↦
      let h = same (simp (named) at e) in
      (
        0,
        (
          ap some h,
          subst (λ (x : Procedure). x.name ≡ n) h ((==_iff q.name n).0 named),
          λ j x l a. absurd (omega arith),
        ),
      )
  | inr other ↦
      let (i, first) = find_from-IsFirst n qs p (simp (other) at e) in
      (suc i, (first.0, first.1, first_behind n q qs i other first.2))
]

-- A name that is not found is no entry's.
find_from-none :
    (n : ℕ) (ps : List Procedure)
    → find_from n ps ≡ none
    → (j : ℕ) (r : Procedure) → entry_at ps j ≡ some r
    → r.name ≢ n
unfolding find_from entry_at
find_from-none n [] e j r a = absurd (not_some r a)
find_from-none n (q ∷ qs) e zero r a = elim (Bool-cases (q.name == n)) [
  | inl named ↦ absurd (not_some q (sym (simp (named) at e)))
  | inr other ↦ subst (λ (x : Procedure). x.name ≢ n) (same a) (ground arith)
]
find_from-none n (q ∷ qs) e (suc k) r a = elim (Bool-cases (q.name == n)) [
  | inl named ↦ absurd (not_some q (sym (simp (named) at e)))
  | inr other ↦ find_from-none n qs (simp (other) at e) k r a
]

-- What a search for a name gives: the first entry that has it, or null if no entry has it.
abbrev pub IsFound : ℕ → (ℕ → Option Procedure) → Option Procedure → Type 0
IsFound n entry none = (j : ℕ) (q : Procedure) → entry j ≡ some q → q.name ≢ n
IsFound n entry (some p) = (i : ℕ) × IsFirst n entry p i

-- Among the procedures that the indexes give, `dc_find_procedure` gives the first one with the
-- name; it gives null only if no index gives a procedure with the name.
pub dc_find_procedure-IsFound :
    (r : Registry) (n : ℕ) → IsFound n (dc_get_procedure_by_index r) (dc_find_procedure r n)
unfolding dc_find_procedure dc_get_procedure_by_index
dc_find_procedure-IsFound r n = elim (Option-cases (find_from n r.procedure_list)) [
  | inl e ↦
      subst (IsFound n (entry_at r.procedure_list)) (sym e) (find_from-none n r.procedure_list e)
  | inr (p, e) ↦
      subst (IsFound n (entry_at r.procedure_list)) (sym e)
        (find_from-IsFirst n r.procedure_list p e)
]
