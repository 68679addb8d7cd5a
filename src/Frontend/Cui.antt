-- ===== src/Frontend/Cui.antt =====
-- The command line and the main loop of cui/main.c.
use whdd_modify.Prelude.{
  ℕ, zero, suc, ◌+◌, Bool, not, ◌&&◌, Option, none, some, List, [], ◌∷◌, ◌++◌, ◌==◌, if◌then◌else◌,
  take, ◌>>=◌,
}
use whdd_modify.Devices.{
  Dev, DevList, dc_dev_list_size, dc_dev_list_get_entry, same_text, find_device_by_name,
}
use whdd_modify.Procedure.Registry.{Procedure, Registry, dc_find_procedure}
use whdd_modify.Procedure.Interrupt.{Poll, Joined, procedure_perform_until_interrupt}
use whdd_modify.Frontend.{
  Event, menu, opens, closes, Answers, confirm, ran_events, open_and_run, Pass, leaves, goes_on,
  result_value, ask_options, main_loop,
}

-- What the menu of procedures returns: it is left, or a button is pressed on a display name.
pub data Reply : Type 0 where
  quit : Reply
  help : ℕ → Reply
  ok : ℕ → Reply

-- What the configuration file and the dialog give for an option.
pub record Asked : Type 0 where
  pub config_supplied_value : Option (List ℕ)
  pub config_suggested_value : Option (List ℕ)
  pub input_result : Option (List ℕ)

-- What comes in during a pass. `device_name` is `none` where the dialog is left.
pub record Input : Type 0 where
  pub device_name : Option (List ℕ)
  pub replies : List Reply
  pub answers : Answers
  pub suggest : ℕ → Option (List ℕ)
  pub asked : ℕ → Asked
  pub open_succeeds : List (List ℕ) → Bool
  pub renderer_opens : Bool
  pub handles : Bool
  pub starts : Bool
  pub polls : List Poll
  pub joined : Joined
  pub caught : Bool

-- The loop of `menu_choose_device` over the indexes that are left; `none` is the `assert(0)`.
unfoldable pub find_by_fs_name : ℕ → ℕ → DevList → List ℕ → Option Dev
find_by_fs_name zero i l name = none
find_by_fs_name (suc left) i l name =
    let rest = find_by_fs_name left (i + 1) l name in
    dc_dev_list_get_entry l i >>= λ d. if same_text d.dev_fs_name name then some d else rest

-- `none` is a null pointer, or the end of the program.
unfoldable pub menu_choose_device : DevList → Option (List ℕ) → Option Dev
menu_choose_device l reply =
    if dc_dev_list_size l == 0
    then none
    else reply >>= λ name. find_by_fs_name (dc_dev_list_size l) 0 l name

-- The procedures that are offered, in the order of the list.
unfoldable pub offered : Bool → List Procedure → List Procedure
offered ata_capable [] = []
offered ata_capable (p ∷ ps) =
    let rest = offered ata_capable ps in
    if not ata_capable && p.requires_ata then rest else p ∷ rest

unfoldable pub pick : ℕ → List Procedure → Option Procedure
pick name [] = none
pick name (p ∷ ps) = let rest = pick name ps in if p.display_name == name then some p else rest

-- `none` is the failed `assert(procedure)`, `some none` a null pointer. A help text is shown, and the
-- menu again; where the replies end, the user leaves it.
unfoldable pub menu_choose_procedure : List Procedure → List Reply → Option (Option Procedure)
menu_choose_procedure items [] = some none
menu_choose_procedure items (quit ∷ replies) = some none
menu_choose_procedure items (help name ∷ replies) =
    let again = menu_choose_procedure items replies in pick name items >>= λ p. again
menu_choose_procedure items (ok name ∷ replies) = pick name items >>= λ p. some (some p)

unfoldable pub ask_option_value : (ℕ → Asked) → ℕ → List ℕ → Option (List ℕ)
ask_option_value asked i suggested = elim ((asked i).config_supplied_value) [
  | some value ↦ some value
  | none ↦ (asked i).input_result >>= λ entered. some (elim ((asked i).config_suggested_value) [
    | none ↦ result_value (take 199 entered) suggested
    | some s ↦ result_value (take 199 entered) s
  ])
]

-- The choices in the dialog of an option, each with whether it is on.
unfoldable pub choices_for_dialog : Bool → List ℕ → List (List ℕ) → List (List ℕ × Bool)
choices_for_dialog ata_capable suggested [] = []
choices_for_dialog ata_capable suggested (choice ∷ choices) =
    let rest = choices_for_dialog ata_capable suggested choices in
    if same_text choice (b'a' ∷ b't' ∷ b'a' ∷ []) && not ata_capable
    then rest
    else (choice, same_text choice suggested) ∷ rest

-- From the questions on. A renderer that cannot be opened leaves the procedure open.
unfoldable pub proceed : Input → Procedure → Dev → List Event
proceed i p d =
    let c = confirm p d i.answers in
    let ran = procedure_perform_until_interrupt i.handles i.starts i.polls i.joined i.caught in
    let render = if i.renderer_opens then ran_events ran else [] in
    if c.1
    then elim (ask_options i.suggest (ask_option_value i.asked) p.options_num 0) [
      | none ↦ c.0
      | some values ↦ c.0 ++ open_and_run p d (i.open_succeeds values) render
    ]
    else c.0

unfoldable pub pass : Registry → DevList → Input → Pass
pass r l i = elim (menu_choose_device l i.device_name) [
  | none ↦ leaves (menu ∷ [])
  | some d ↦ elim (menu_choose_procedure (offered d.ata_capable r.procedure_list) i.replies) [
    | none ↦ leaves (menu ∷ [])
    | some none ↦ goes_on (menu ∷ [])
    | some (some p) ↦ goes_on (menu ∷ proceed i p d)
  ]
]

-- What the first argument asks for.
pub data Action : Type 0 where
  print_version list_devices print_usage no_device unknown_option interactive : Action
  run_quick_diagnosis : List ℕ → Action
  run_smart : List ℕ → Action

abbrev pub needs_device : (List ℕ → Action) → List (List ℕ) → Action
needs_device action [] = no_device
needs_device action (name ∷ more) = action name

-- The texts of the options
pub record OptionTexts : Type 0 where
  pub version : List ℕ
  pub list_devices : List ℕ
  pub quick_diagnosis : List ℕ
  pub smart : List ℕ
  pub help : List ℕ
  pub h : List ℕ

-- The loop over the arguments, which returns at the first one.
unfoldable pub parse_args : OptionTexts → List (List ℕ) → Action
parse_args t [] = interactive
parse_args t (arg ∷ args) =
    if same_text arg t.version
    then print_version
    else if same_text arg t.list_devices
    then Action.list_devices
    else if same_text arg t.quick_diagnosis
    then needs_device run_quick_diagnosis args
    else if same_text arg t.smart
    then needs_device run_smart args
    else if same_text arg t.help
    then print_usage
    else if same_text arg t.h
    then print_usage
    else unknown_option

-- `run_quick_diagnosis` and `run_smart`: the procedure of a name on the device of a name.
unfoldable pub run_named : Registry → DevList → ℕ → List ℕ → Bool → List Event
run_named r l procedure dev_name opens_ok = elim (find_device_by_name l dev_name) [
  | none ↦ []
  | some d ↦ elim (dc_find_procedure r procedure) [
    | none ↦ []
    | some p ↦ opens p d opens_ok ∷ (if opens_ok then closes ∷ [] else [])
  ]
]

-- `main`, given the names of the two procedures that the command line starts.
unfoldable pub main :
    OptionTexts → ℕ → ℕ → Registry → DevList → Bool → List Input → List (List ℕ) → List Event
main t quick_diagnosis smart_show r l opens_ok inputs args = elim (parse_args t args) [
  | run_quick_diagnosis dev ↦ run_named r l quick_diagnosis dev opens_ok
  | run_smart dev ↦ run_named r l smart_show dev opens_ok
  | interactive ↦ main_loop (pass r l) inputs
  | other ↦ []
]
