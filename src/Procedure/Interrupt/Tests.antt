-- ===== src/Procedure/Interrupt/Tests.antt =====
-- A signal at the second test, for `procedure_perform_until_interrupt` of libdevcheck/utils.c.
use whdd_modify.Prelude.{ℕ, ◌≡◌, refl, true, false, Bool, Option, List, some, [], ◌∷◌}
use whdd_modify.Procedure.Interrupt.{
  Poll, wait, finished, joined, returns, aborts, ran, join_and_close,
  procedure_perform_until_interrupt,
}

abbrev quiet : Poll
quiet = record { finished = false; signalled = false }

abbrev signal : Poll
signal = record { finished = false; signalled = true }

-- A procedure that makes no progress.
abbrev idle : ℕ → Unit {0} → Option (ℕ × ℕ)
idle s i = some (s, 0)

abbrev silent : ℕ → Unit {0} → Unit {0} × ℕ
silent s u = (tt, 0)

interrupted :
    procedure_perform_until_interrupt true true (quiet ∷ signal ∷ []) (joined 0) false ≡ record {
      outcome = returns 0;
      interrupt = true;
      performed = true;
      closed = true;
      caught = false;
    }
unfolding procedure_perform_until_interrupt wait ran join_and_close
interrupted = refl

-- A failed `pthread_join`
not_joined :
    (procedure_perform_until_interrupt true true (quiet ∷ signal ∷ []) (joined 3) false).outcome
    ≡ aborts
unfolding procedure_perform_until_interrupt wait ran join_and_close
not_joined = refl

-- The thread's third test finds the interrupt.
abbrev seen : List (Bool × Unit {0})
seen = (false, tt) ∷ (false, tt) ∷ (true, tt) ∷ []
