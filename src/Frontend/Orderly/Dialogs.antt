-- ===== src/Frontend/Orderly/Dialogs.antt =====
-- The command line and the main loop of cui/main.c.
use whdd_modify.Prelude.{
  ℕ, ◌≡◌, ◌≢◌, ◌⊎◌, refl, sym, subst, ◌∙◌, not, ◌&&◌, Bool, true, false, Option, none, some, List,
  [], ◌∷◌, ◌++◌, inl, inr, if◌then◌else◌, Bool-cases, Option-cases, ◌==◌,
}
use whdd_modify.Devices.{Dev, DevList, find_device_by_name}
use whdd_modify.Procedure.Registry.{Procedure, Registry, dc_find_procedure}
use whdd_modify.Procedure.Interrupt.{Ran, wait, waiting, joined, procedure_perform_until_interrupt}
use whdd_modify.Procedure.Interrupt.Returns.{procedure_perform_until_interrupt-closes}
use whdd_modify.Frontend.{
  Event, menu, opens, closes, busy, Phase, IsOrderly, ran_events, leaves, goes_on, main_loop,
  ask_options,
}
use whdd_modify.Frontend.Cui.{
  Reply, quit, help, ok, Input, menu_choose_device, offered, pick, menu_choose_procedure,
  ask_option_value, proceed, pass, OptionTexts, Action, print_version, list_devices, print_usage,
  no_device, unknown_option, interactive, run_quick_diagnosis, run_smart, run_named, parse_args,
  main,
}
use whdd_modify.Frontend.Orderly.Runs.{
  IsNext, menu-IsNext, ran_events-IsOrderly, proceed-IsOrderly, IsPass, AllPass, main_loop-IsNext,
}

-- If a run of the procedure in this pass is started, the waiting and the thread end; and its
-- renderer can be opened.
abbrev pub Ends : Input → Type 0
Ends i =
    (i.handles ≡ true
      → i.starts ≡ true
      → ((wait i.polls i.caught).0 ≢ waiting) × (i.joined ≡ joined 0))
    × (i.renderer_opens ≡ true)

abbrev pub AllEnd : List Input → Type 0
AllEnd [] = Unit {0}
AllEnd (i ∷ is) = Ends i × AllEnd is

-- A procedure that needs ATA is only for a device that has it.
abbrev pub IsSuited : Procedure → Dev → Type 0
IsSuited p d = (p.requires_ata ≡ false) ⊎ (d.ata_capable ≡ true)

suited : (p : Procedure) (d : Dev) → (not d.ata_capable && p.requires_ata) ≡ false → IsSuited p d
suited p d h = elim (Bool-cases (d.ata_capable)) [
  | inl able ↦ inr able
  | inr unable ↦ inl (simp (unable) at h)
]

not_some : {A : Type 0} (q : A) → none ≡ some q → ⊥
not_some q h = cc

inj : (x y : Procedure) → some x ≡ some y → x ≡ y
inj x y h = cc

pick-IsSuited :
    (name : ℕ) (ps : List Procedure) (p : Procedure) (d : Dev)
    → pick name (offered d.ata_capable ps) ≡ some p
    → IsSuited p d
unfolding pick offered
pick-IsSuited name [] p d e = cc
pick-IsSuited name (q ∷ ps) p d e = elim (Bool-cases (not d.ata_capable && q.requires_ata)) [
  | inl unsuited ↦ pick-IsSuited name ps p d (simp (unsuited) at e)
  | inr fits ↦ elim (Bool-cases (q.display_name == name)) [
    | inl hit ↦ same q p (suited q d fits) (simp (fits, hit, pick) at e)
    | inr miss ↦ pick-IsSuited name ps p d (simp (fits, miss, pick) at e)
  ]
]
  where
    same : (x y : Procedure) → IsSuited x d → some x ≡ some y → IsSuited y d
    same x y s h = subst (λ (z : Procedure). IsSuited z d) (inj x y h) s

menu-IsSuited :
    (replies : List Reply) (ps : List Procedure) (p : Procedure) (d : Dev)
    → menu_choose_procedure (offered d.ata_capable ps) replies ≡ some (some p)
    → IsSuited p d
unfolding menu_choose_procedure
menu-IsSuited [] ps p d e = cc
menu-IsSuited (quit ∷ rs) ps p d e = cc
menu-IsSuited (help name ∷ rs) ps p d e =
    elim (Option-cases (pick name (offered d.ata_capable ps))) [
      | inl none_such ↦ absurd (not_some _ (simp (none_such) at e))
      | inr (q, hit) ↦ menu-IsSuited rs ps p d (simp (hit) at e)
    ]
menu-IsSuited (ok name ∷ rs) ps p d e = elim (Option-cases (pick name (offered d.ata_capable ps))) [
  | inl none_such ↦ absurd (not_some _ (simp (none_such) at e))
  | inr (q, hit) ↦ pick-IsSuited name ps p d (hit ∙ same q p (simp (hit) at e))
]
  where
    same :
        (x y : Procedure)
        → ◌≡◌ {A = Option (Option Procedure)} (some (some x)) (some (some y))
        → some x ≡ some y
    same x y h = cc

-- A procedure that the command line may start without a question.
abbrev pub IsHarmless : Option Procedure → Type 0
IsHarmless none = Unit {0}
IsHarmless (some p) = (p.is_invasive ≡ false) × (p.requires_ata ≡ false)

-- The order of the events from a menu on.
module _ (r : Registry) (l : DevList) where
  proceed-IsNext :
      (i : Input) (p : Procedure) (d : Dev) (es : List Event)
      → Ends i
      → IsSuited p d
      → IsNext IsSuited es
      → IsOrderly IsSuited Phase.free (proceed i p d ++ es)
  unfolding proceed
  proceed-IsNext i p d es h s n =
      proceed-IsOrderly IsSuited p d i.answers
        (ask_options i.suggest (ask_option_value i.asked) p.options_num 0) i.open_succeeds
        (if i.renderer_opens then ran_events ran else []) es s shown n
    where
      ran : Ran
      ran = procedure_perform_until_interrupt i.handles i.starts i.polls i.joined i.caught

      shown : IsOrderly IsSuited busy ((if i.renderer_opens then ran_events ran else []) ++ es)
      shown = rw h.1 (
          ran_events-IsOrderly IsSuited ran es
            (procedure_perform_until_interrupt-closes i.handles i.starts i.caught i.polls i.joined
              h.0)
            n)

  at_device :
      (i : Input) (d : Dev)
      → Ends i
      → menu_choose_device l i.device_name ≡ some d
      → IsPass IsSuited (pass r l i)
  unfolding pass
  at_device i d h e =
      elim (Option-cases
        (menu_choose_procedure (offered d.ata_capable r.procedure_list) i.replies)) [
          | inl u ↦
              let step : pass r l i ≡ leaves (menu ∷ []) = rw (e, u, pass) refl in
              subst (IsPass IsSuited) (sym step) (menu-IsNext IsSuited [] tt)
          | inr (none, u) ↦
              let step : pass r l i ≡ goes_on (menu ∷ []) = rw (e, u, pass) refl in
              subst (IsPass IsSuited) (sym step) (λ more n. menu-IsNext IsSuited more n.at_free)
          | inr (some p, u) ↦
              let step : pass r l i ≡ goes_on (menu ∷ proceed i p d) = rw (e, u, pass) refl in
              subst (IsPass IsSuited) (sym step) (λ more n.
                menu-IsNext IsSuited _
                  (proceed-IsNext i p d more h (menu-IsSuited i.replies r.procedure_list p d u) n))
        ]

  pass-IsPass : (i : Input) → Ends i → IsPass IsSuited (pass r l i)
  unfolding pass
  pass-IsPass i h = elim (Option-cases (menu_choose_device l i.device_name)) [
    | inl e ↦
        let step : pass r l i ≡ leaves (menu ∷ []) = rw (e, pass) refl in
        subst (IsPass IsSuited) (sym step) (menu-IsNext IsSuited [] tt)
    | inr (d, e) ↦ at_device i d h e
  ]

  all_pass : (inputs : List Input) → AllEnd inputs → AllPass IsSuited (pass r l) inputs
  all_pass [] h = tt
  all_pass (i ∷ is) h = (pass-IsPass i h.0, all_pass is h.1)

  run_named-IsOrderly :
      (name : ℕ) (dev_name : List ℕ) (opens_ok : Bool)
      → IsHarmless (dc_find_procedure r name)
      → IsOrderly IsSuited Phase.free (run_named r l name dev_name opens_ok)
  unfolding run_named
  run_named-IsOrderly name dev_name opens_ok h =
      by_device (find_device_by_name l dev_name) (dc_find_procedure r name) h opens_ok
    where
      by_device :
          (d : Option Dev) (p : Option Procedure)
          → IsHarmless p
          → (opens_ok : Bool)
          → IsOrderly IsSuited Phase.free (elim d as (λ _. List Event) [
            | none ↦ []
            | some e ↦ elim p as (λ _. List Event) [
              | none ↦ []
              | some q ↦ opens q e opens_ok ∷ (if opens_ok then closes ∷ [] else [])
            ]
          ])
      by_device none p h opens_ok = tt
      by_device (some e) none h opens_ok = tt
      by_device (some e) (some q) h true = (inl h.1, h.0, tt)
      by_device (some e) (some q) h false = (inl h.1, h.0, tt)

  -- For every command line, and whatever the user enters, as long as each renderer can be opened, each
  -- loop's thread that is started ends and can be joined, the waiting for it ends too, and the two procedures that the command line starts by name are
  -- neither invasive nor need ATA: the program opens a procedure that needs ATA only on a device
  -- that has it; it opens an invasive one only if the user has just agreed to this procedure on this
  -- device, and has agreed again if the device is mounted; and it closes each procedure that is
  -- opened before it shows the next menu or ends.
  pub main-IsOrderly :
      (t : OptionTexts) (quick_diagnosis smart_show : ℕ) (opens_ok : Bool) (inputs : List Input)
      (args : List (List ℕ))
      → AllEnd inputs
      → IsHarmless (dc_find_procedure r quick_diagnosis)
      → IsHarmless (dc_find_procedure r smart_show)
      → IsOrderly IsSuited Phase.free (main t quick_diagnosis smart_show r l opens_ok inputs args)
  unfolding main
  main-IsOrderly t quick_diagnosis smart_show opens_ok inputs args h q s =
      by_action (parse_args t args)
    where
      by_action :
          (a : Action)
          → IsOrderly IsSuited Phase.free (elim a as (λ _. List Event) [
            | run_quick_diagnosis dev ↦ run_named r l quick_diagnosis dev opens_ok
            | run_smart dev ↦ run_named r l smart_show dev opens_ok
            | interactive ↦ main_loop (pass r l) inputs
            | other ↦ []
          ])
      by_action (run_quick_diagnosis dev) = run_named-IsOrderly quick_diagnosis dev opens_ok q
      by_action (run_smart dev) = run_named-IsOrderly smart_show dev opens_ok s
      by_action interactive =
          (main_loop-IsNext IsSuited (pass r l) inputs (all_pass inputs h)).at_free
      by_action print_version = tt
      by_action list_devices = tt
      by_action print_usage = tt
      by_action no_device = tt
      by_action unknown_option = tt
