-- ===== src/Frontend.antt =====
-- What the two frontends, cui/main.c and cli/main.c, share: what the user sees them do, and in which
-- order they may do it.
pub mod Cli
pub mod Cui
pub mod Orderly
mod Tests
use whdd_modify.Prelude.{
  ℕ, zero, suc, ◌≡◌, ◌⊎◌, Bool, true, false, not, ◌||◌, Option, none, some, List, [], ◌∷◌, ◌++◌,
  ◌==◌, if◌then◌else◌, take, ◌+◌, ◌>>=◌,
}
use whdd_modify.Devices.{Dev}
use whdd_modify.Procedure.Registry.{Procedure}
use whdd_modify.Procedure.Interrupt.{Poll, Ran, procedure_perform_until_interrupt}

-- `menu` begins a pass of the main loop. The two questions come with their answers. `opens` is a
-- call of `dc_procedure_open`, with whether it succeeds; `performs` is a run of the procedure's
-- loop, and `closes` a call of `dc_procedure_close`.
pub data Event : Type 0 where
  menu : Event
  asks_invasive : Procedure → Dev → Bool → Event
  asks_mounted : Procedure → Dev → Bool → Event
  opens : Procedure → Dev → Bool → Event
  performs : Event
  closes : Event

-- Where the program stands between two events: nothing is agreed on; the user has agreed to an
-- invasive procedure on a device; has done so knowing that the device is mounted; a procedure is
-- open.
pub data Phase : Type 0 where
  free : Phase
  agreed : Procedure → Dev → Phase
  agreed_mounted : Procedure → Dev → Phase
  busy : Phase

-- After a question
abbrev pub answered : Bool → Phase → Phase
answered true p = p
answered false p = Phase.free

abbrev pub opened : Bool → Phase
opened true = busy
opened false = Phase.free

-- An invasive procedure may be opened on a device only if the user has just agreed to it.
abbrev pub MayOpen : Phase → Procedure → Dev → Type 0
MayOpen Phase.free p d = p.is_invasive ≡ false
MayOpen (agreed q e) p d = (q ≡ p) × (e ≡ d) × (d.mounted ≡ false)
MayOpen (agreed_mounted q e) p d = (q ≡ p) × (e ≡ d)
MayOpen busy p d = ⊥

-- What may happen from a phase on. Only one procedure is open at a time; it is closed before the
-- next pass, and before the program ends.
abbrev pub IsOrderly : (Procedure → Dev → Type 0) → Phase → List Event → Type 0
IsOrderly Offered busy [] = ⊥
IsOrderly Offered phase [] = Unit {0}
IsOrderly Offered busy (performs ∷ es) = IsOrderly Offered busy es
IsOrderly Offered busy (closes ∷ es) = IsOrderly Offered Phase.free es
IsOrderly Offered busy (e ∷ es) = ⊥
IsOrderly Offered phase (menu ∷ es) = IsOrderly Offered Phase.free es
IsOrderly Offered phase (asks_invasive p d a ∷ es) = IsOrderly Offered (answered a (agreed p d)) es
IsOrderly Offered (agreed q e) (asks_mounted p d a ∷ es) =
    (q ≡ p) × (e ≡ d) × IsOrderly Offered (answered a (agreed_mounted p d)) es
IsOrderly Offered phase (asks_mounted p d a ∷ es) = ⊥
IsOrderly Offered phase (opens p d ok ∷ es) =
    Offered p d × MayOpen phase p d × IsOrderly Offered (opened ok) es
IsOrderly Offered phase (performs ∷ es) = ⊥
IsOrderly Offered phase (closes ∷ es) = ⊥

-- The user's answers to the two questions.
pub record Answers : Type 0 where
  pub yes : Bool
  pub yes_mounted : Bool

-- The questions on an invasive procedure, and whether to go on.
unfoldable pub confirm : Procedure → Dev → Answers → List Event × Bool
confirm p d a =
    if p.is_invasive
    then if a.yes
      then if d.mounted
        then (asks_invasive p d true ∷ asks_mounted p d a.yes_mounted ∷ [], a.yes_mounted)
        else (asks_invasive p d true ∷ [], true)
      else (asks_invasive p d false ∷ [], false)
    else ([], true)

-- What `procedure_perform_until_interrupt` does.
abbrev pub ran_events : Ran → List Event
ran_events r =
    let end = if r.closed then closes ∷ [] else [] in if r.performed then performs ∷ end else end

-- The rest of a pass after `dc_procedure_open`, given what performing the procedure does.
unfoldable pub open_and_run : Procedure → Dev → Bool → List Event → List Event
open_and_run p d ok performing =
    if ok
    then opens p d true ∷ (if p.performs then performing else closes ∷ [])
    else opens p d false ∷ []

-- What a pass of a main loop does: it ends the program, or another follows.
pub data Pass : Type 0 where
  leaves : List Event → Pass
  goes_on : List Event → Pass

-- The main loop, over what comes in from outside in each pass.
unfoldable pub main_loop : {I : Type 0} → (I → Pass) → List I → List Event
main_loop round [] = []
main_loop round (i ∷ is) =
    let rest = main_loop round is in elim (round i) [ leaves es ↦ es | goes_on es ↦ es ++ rest ]

-- `entered_value` after the test for an empty line; `snprintf` writes at most 199 characters.
abbrev pub result_value : List ℕ → List ℕ → List ℕ
result_value [] suggested = take 199 suggested
result_value (c ∷ s) suggested = if c == 10 then take 199 suggested else c ∷ s

-- The loop over the options from an index on: the values, or `none` where one is not given.
unfoldable pub ask_options :
    (ℕ → Option (List ℕ)) → (ℕ → List ℕ → Option (List ℕ)) → ℕ → ℕ → Option (List (List ℕ))
ask_options suggest ask zero i = some []
ask_options suggest ask (suc left) i = suggest i >>= λ suggested. ask i suggested >>= λ value.
    ask_options suggest ask left (i + 1) >>= λ values. some (value ∷ values)
