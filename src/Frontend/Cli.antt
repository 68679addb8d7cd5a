-- ===== src/Frontend/Cli.antt =====
-- The main loop of cli/main.c.
use whdd_modify.Prelude.{ℕ, Bool, Option, none, some, List, [], ◌∷◌, ◌++◌, leb, if◌then◌else◌, take}
use whdd_modify.Devices.{Dev, DevList, dc_dev_list_size, dc_dev_list_get_entry}
use whdd_modify.Procedure.Registry.{Procedure, Registry, dc_get_procedure_by_index}
use whdd_modify.Procedure.Interrupt.{Poll, Joined, procedure_perform_until_interrupt}
use whdd_modify.Frontend.{
  Event, menu, Answers, confirm, ran_events, open_and_run, Pass, leaves, goes_on, result_value,
  ask_options,
}

-- What comes in during a pass. A number that is typed is `none` where the line has none, where there
-- is no line, and where it is negative. `enter` is the line for an option, without its end of text.
pub record Input : Type 0 where
  pub devlist : DevList
  pub device_number : Option ℕ
  pub action_number : Option ℕ
  pub answers : Answers
  pub suggest : ℕ → Option (List ℕ)
  pub enter : ℕ → Option (List ℕ)
  pub open_succeeds : List (List ℕ) → Bool
  pub handles : Bool
  pub starts : Bool
  pub polls : List Poll
  pub joined : Joined
  pub caught : Bool

unfoldable pub request_and_get_device : DevList → Option ℕ → Option Dev
request_and_get_device l none = none
request_and_get_device l (some i) =
    if leb (dc_dev_list_size l) i then none else dc_dev_list_get_entry l i

unfoldable pub request_and_get_cli_action : Registry → Option ℕ → Option Procedure
request_and_get_cli_action r none = none
request_and_get_cli_action r (some i) =
    if leb r.nb_procedures i then none else dc_get_procedure_by_index r i

-- `fgets` stores at most 199 characters.
unfoldable pub ask_option_value : (ℕ → Option (List ℕ)) → ℕ → List ℕ → Option (List ℕ)
ask_option_value enter i suggested = elim (enter i) [
  | none ↦ none
  | some line ↦ some (result_value (take 199 line) suggested)
]

-- From the questions on.
unfoldable pub proceed : Input → Procedure → Dev → List Event
proceed i p d =
    let c = confirm p d i.answers in
    let ran = procedure_perform_until_interrupt i.handles i.starts i.polls i.joined i.caught in
    if c.1
    then elim (ask_options i.suggest (ask_option_value i.enter) p.options_num 0) [
      | none ↦ c.0
      | some values ↦ c.0 ++ open_and_run p d (i.open_succeeds values) (ran_events ran)
    ]
    else c.0

unfoldable pub pass : Registry → Input → Pass
pass r i = elim (request_and_get_device i.devlist i.device_number) [
  | none ↦ leaves (menu ∷ [])
  | some d ↦ elim (request_and_get_cli_action r i.action_number) [
    | none ↦ leaves (menu ∷ [])
    | some p ↦ goes_on (menu ∷ proceed i p d)
  ]
]
