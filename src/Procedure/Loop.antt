-- ===== src/Procedure/Loop.antt =====
-- `dc_procedure_perform_loop` of libdevcheck/procedure.c, for any procedure and any frontend.
pub mod Ends
mod Tests
use whdd_modify.Prelude.{
  ℕ, zero, suc, ◌+◌, ◌-◌, ◌≤◌, ◌<◌, ◌≡◌, refl, Bool, true, false, Option, none, some, List, [], ◌∷◌,
  arith, length, leb, ◌==◌, if◌then◌else◌, ◌>>=◌,
}

-- How the loop stands. `running` means that the given rounds did not end it.
pub data Exit : Type 0 where
  completed : Exit
  interrupted : Exit
  perform_failed : ℕ → Exit
  callback_failed : ℕ → Exit
  running : Exit

-- The value that the C function returns.
abbrev pub return_code : Exit → ℕ
return_code completed = 0
return_code interrupted = 0
return_code (perform_failed r) = r
return_code (callback_failed r) = r
return_code running = 0

-- `S` is the procedure's context, `U` the frontend's, `I` what the device answers in a round.
-- A round's first part is `ctx->interrupt`, as another thread has left it when the test reads it.
module _ {S U I : Type 0} (num den : S → ℕ) (perform : S → I → Option (S × ℕ))
    (callback : S → U → U × ℕ) where
  unfoldable pub loop : List (Bool × I) → S → U → Option (S × U × Exit)
  loop [] s u = some (s, u, running)
  loop ((interrupt, i) ∷ rounds) s u =
      if interrupt
      then some (s, u, interrupted)
      else if leb (den s) (num s)
      then some (s, u, completed)
      else perform s i >>= λ r.
          let called = callback r.0 u in
          let rest = loop rounds r.0 called.0 in
          if r.1 == 0
          then if called.1 == 0 then rest else some (r.0, called.0, callback_failed called.1)
          else some (r.0, called.0, perform_failed r.1)
