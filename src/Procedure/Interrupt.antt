-- ===== src/Procedure/Interrupt.antt =====
-- `procedure_perform_until_interrupt` of libdevcheck/utils.c with its signal handler.
pub mod Returns
mod Tests
use whdd_modify.Prelude.{
  Bool, true, false, ◌||◌, Option, none, some, List, [], ◌∷◌, ◌==◌, if◌then◌else◌, ℕ,
}
use whdd_modify.Procedure.Loop.{Exit, completed, perform_failed, callback_failed, running}

-- What a test of `actctx->finished` finds, and whether a signal has come since the test before.
pub record Poll : Type 0 where
  pub finished : Bool
  pub signalled : Bool

-- How the waiting stands. `waiting` means that the given tests did not end it.
pub data Waited : Type 0 where
  finished interrupted waiting : Waited

-- The loop; the flag is `termination_signal_caught`, before and after.
unfoldable pub wait : List Poll → Bool → Waited × Bool
wait [] caught = (waiting, caught)
wait (p ∷ ps) caught =
    let rest = wait ps (caught || p.signalled) in
    if p.finished
    then (finished, caught || p.signalled)
    else if caught || p.signalled
    then (interrupted, false)
    else rest

-- What `pthread_join` finds: the loop's thread has aborted the program, has not ended yet, or has
-- ended, and `pthread_join` returns a value.
pub data Joined : Type 0 where
  thread_aborts thread_runs : Joined
  joined : ℕ → Joined

-- `pthread_join` on a thread that runs the loop over some rounds.
abbrev pub join_of : {A B : Type 0} → ℕ → Option (A × B × Exit) → Joined
join_of value none = thread_aborts
join_of value (some (s, u, running)) = thread_runs
join_of value (some (s, u, completed)) = joined value
join_of value (some (s, u, Exit.interrupted)) = joined value
join_of value (some (s, u, perform_failed r)) = joined value
join_of value (some (s, u, callback_failed r)) = joined value

-- How a call stands: it has returned a value, it waits, or the program has aborted.
pub data Outcome : Type 0 where
  returns : ℕ → Outcome
  waits aborts : Outcome

-- What a call leaves: how it stands, `actctx->interrupt`, whether the loop ran in a thread, whether
-- the procedure is closed, and `termination_signal_caught`.
pub record Ran : Type 0 where
  pub outcome : Outcome
  pub interrupt : Bool
  pub performed : Bool
  pub closed : Bool
  pub caught : Bool

-- From `pthread_join` on. Its value must be 0.
unfoldable pub join_and_close : Joined → Bool → Bool → Ran
join_and_close j interrupt caught = elim j [
  | thread_aborts ↦ stands aborts false
  | thread_runs ↦ stands waits false
  | joined r ↦ if r == 0 then stands (returns 0) true else stands aborts false
]
  where
    stands : Outcome → Bool → Ran
    stands outcome closed = record {
      outcome = outcome;
      interrupt = interrupt;
      performed = true;
      closed = closed;
      caught = caught;
    }

-- From the waiting on.
unfoldable pub ran : Joined → Waited × Bool → Ran
ran j (finished, caught) = join_and_close j false caught
ran j (interrupted, caught) = join_and_close j true caught
ran j (waiting, caught) = record {
  outcome = waits;
  interrupt = false;
  performed = true;
  closed = false;
  caught = caught;
}

-- `handles` and `starts` tell whether the signal handlers and the thread can be set up.
unfoldable pub procedure_perform_until_interrupt : Bool → Bool → List Poll → Joined → Bool → Ran
procedure_perform_until_interrupt handles starts polls j caught =
    if handles then if starts then ran j (wait polls caught) else failed else failed
  where
    failed : Ran
    failed = record {
      outcome = returns 1;
      interrupt = false;
      performed = false;
      closed = true;
      caught = caught;
    }
