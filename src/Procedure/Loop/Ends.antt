-- ===== src/Procedure/Loop/Ends.antt =====
-- When the loop over `perform` ends, and in what state.
use whdd_modify.Prelude.{
  ℕ, ◌-◌, ◌≤◌, ◌<◌, ◌≡◌, ◌≢◌, inl, inr, Bool, true, false, Option, none, some, List, [], ◌∷◌, arith,
  length, leb, ◌==◌, Bool-cases, subst, leb→le, leb→lt, Option-cases, ==_iff,
}
use whdd_modify.Procedure.Loop.{Exit, completed, perform_failed, callback_failed, running, loop}

-- A run of the loop that has ended in a state with `P`. A completed run has done all; it was not
-- completed only if the frontend interrupted, or one of the two functions returned non-zero.
abbrev pub Ended :
    {S U : Type 0} → (S → ℕ) → (S → ℕ) → (S → Type 0) → Option (S × U × Exit) → Type 0
Ended num den P none = ⊥
Ended num den P (some (s, u, e)) =
    P s
    × (e ≢ running)
    × (e ≡ completed → den s ≤ num s)
    × (e ≢ perform_failed 0)
    × (e ≢ callback_failed 0)

-- A round that keeps `P` and, where it succeeds, makes progress towards the same goal.
abbrev pub Keeps : {S : Type 0} → (S → ℕ) → (S → ℕ) → (S → Type 0) → S → Option (S × ℕ) → Type 0
Keeps num den P s none = ⊥
Keeps num den P s (some (s', r)) = P s' × (den s' ≡ den s) × (r ≡ 0 → num s < num s')

module _ {S U I : Type 0} (num den : S → ℕ) (perform : S → I → Option (S × ℕ))
    (callback : S → U → U × ℕ) (P : S → Type 0)
    (keeps : (s : S) (i : I) → P s → num s < den s → Keeps num den P s (perform s i)) where
  -- For a `perform` that, where `P` holds and the progress is short of the goal, does not abort, keeps
  -- `P` and the goal and, where it returns 0, makes some progress: from a state with `P`, the loop ends
  -- within as many rounds as there is progress to make, whatever the frontend does between and in the
  -- rounds, and `P` holds at the end.
  pub loop-Ended :
      (rounds : List (Bool × I)) (s : S) (u : U)
      → P s
      → den s - num s < length rounds
      → Ended num den P (loop num den perform callback rounds s u)
  unfolding loop
  loop-Ended [] s u h l = absurd (omega arith)
  loop-Ended ((true, i) ∷ rounds) s u h l = (h, λ e. cc, λ e. cc, λ e. cc, λ e. cc)
  loop-Ended ((false, i) ∷ rounds) s u h l = elim (Bool-cases (leb (den s) (num s))) [
    | inl all ↦ rw all (h, λ e. cc, λ e. leb→le _ _ all, λ e. cc, λ e. cc)
    | inr more ↦ rw more (elim (Option-cases (perform s i)) [
      | inl e ↦ absurd (subst (Keeps num den P s) e (keeps s i h (leb→lt _ _ more)))
      | inr ((s', r), e) ↦ rw e (
          let (h', d, p) = subst (Keeps num den P s) e (keeps s i h (leb→lt _ _ more)) in
          elim (Bool-cases (r == 0)) [
            | inl z ↦ rw z (elim (Bool-cases ((callback s' u).1 == 0)) [
              | inl y ↦ rw y (
                  loop-Ended rounds s' (callback s' u).0 h'
                    (omega (arith, p ((==_iff r 0).0 z), leb→lt _ _ more)))
              | inr y ↦ rw y (h', λ w. cc, λ w. cc, λ w. cc, λ w. ground arith)
            ])
            | inr z ↦ rw z (h', λ w. cc, λ w. cc, λ w. ground arith, λ w. cc)
          ])
    ])
  ]
