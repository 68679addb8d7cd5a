-- ===== src/Procedure/Loop/Tests.antt =====
-- The loop of libdevcheck/procedure.c over a concrete procedure.
use whdd_modify.Prelude.{
  ℕ, ◌+◌, ◌≤◌, ◌<◌, refl, Bool, true, false, Option, some, List, [], ◌∷◌, arith, ◌%◌,
}
use whdd_modify.Procedure.Loop.{loop}
use whdd_modify.Procedure.Loop.Ends.{Ended, Keeps, loop-Ended}

-- Each round does one to three units, as the device says.
abbrev work : ℕ → ℕ → Option (ℕ × ℕ)
work s i = some (s + i % 3 + 1, 0)

abbrev count_calls : ℕ → ℕ → ℕ × ℕ
count_calls s u = (u + 1, 0)

abbrev rounds : List (Bool × ℕ)
rounds = (false, 2) ∷ (false, 0) ∷ (false, 4) ∷ (false, 0) ∷ (true, 0) ∷ (false, 0) ∷ []

work-Keeps : (s i : ℕ) → s ≤ 7 → s < 5 → Keeps (λ s. s) (λ s. 5) (λ s. s ≤ 7) s (work s i)
work-Keeps s i h l = (omega arith, refl, λ e. omega arith)

loop-Ended_example :
    Ended (λ s. s) (λ s. 5) (λ s. s ≤ 7) (loop (λ s. s) (λ s. 5) work count_calls rounds 0 0)
loop-Ended_example =
    loop-Ended (λ s. s) (λ s. 5) work count_calls (λ s. s ≤ 7) work-Keeps rounds 0 0 (omega arith)
      (omega arith)
