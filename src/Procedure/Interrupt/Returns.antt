-- ===== src/Procedure/Interrupt/Returns.antt =====
-- A signal ends a procedure: libdevcheck/utils.c and the loop of libdevcheck/procedure.c.
use whdd_modify.Prelude.{ℕ, ◌≡◌, ◌≢◌, refl, Bool, true, false, Option, none, some, List}
use whdd_modify.Procedure.Loop.{Exit, running}
use whdd_modify.Procedure.Interrupt.{
  Poll, Waited, finished, waiting, wait, Joined, joined, returns, join_and_close, ran,
  procedure_perform_until_interrupt,
}

-- Where the waiting ends and the thread is joined, the call returns 0 and closes the procedure.
ran-ended :
    (w : Waited × Bool)
    → w.0 ≢ waiting
    → ((ran (joined 0) w).outcome ≡ returns 0) × ((ran (joined 0) w).closed ≡ true)
unfolding ran join_and_close
ran-ended (finished, c) h = (refl, refl)
ran-ended (Waited.interrupted, c) h = (refl, refl)
ran-ended (waiting, c) h = absurd (h refl)

-- A call whose thread is started, if it is, and ends, and whose waiting ends, closes the procedure.
pub procedure_perform_until_interrupt-closes :
    (handles starts caught : Bool) (ps : List Poll) (j : Joined)
    → (handles ≡ true → starts ≡ true → ((wait ps caught).0 ≢ waiting) × (j ≡ joined 0))
    → (procedure_perform_until_interrupt handles starts ps j caught).closed ≡ true
unfolding procedure_perform_until_interrupt
procedure_perform_until_interrupt-closes false starts caught ps j h = refl
procedure_perform_until_interrupt-closes true false caught ps j h = refl
procedure_perform_until_interrupt-closes true true caught ps j h =
    let (w, e) = h refl refl in rw e (ran-ended (wait ps caught) w).1

module _ {S U I : Type 0} (num den : S → ℕ) (perform : S → I → Option (S × ℕ))
    (callback : S → U → U × ℕ) where
  -- Not `running`, or aborted.
  abbrev pub IsOver : Option (S × U × Exit) → Type 0
  IsOver none = Unit {0}
  IsOver (some r) = r.2 ≢ running
