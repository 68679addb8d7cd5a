-- ===== src/Frontend/Orderly/Console.antt =====
-- The main loop of cli/main.c.
use whdd_modify.Prelude.{
  ℕ, ◌≡◌, ◌≢◌, refl, sym, subst, true, Option, none, some, List, [], ◌∷◌, ◌++◌, inl, inr, leb,
  Bool-cases, Option-cases,
}
use whdd_modify.Devices.{Dev}
use whdd_modify.Procedure.Registry.{Procedure, Registry, dc_get_procedure_by_index}
use whdd_modify.Procedure.Interrupt.{wait, waiting, joined, procedure_perform_until_interrupt}
use whdd_modify.Procedure.Interrupt.Returns.{procedure_perform_until_interrupt-closes}
use whdd_modify.Frontend.{Event, menu, Phase, IsOrderly, leaves, goes_on, main_loop, ask_options}
use whdd_modify.Frontend.Cli.{
  Input, request_and_get_device, request_and_get_cli_action, ask_option_value, proceed, pass,
}
use whdd_modify.Frontend.Orderly.Runs.{
  IsNext, menu-IsNext, ran_events-IsOrderly, proceed-IsOrderly, IsPass, AllPass, main_loop-IsNext,
}

-- If a run of the procedure in this pass is started, the waiting and the thread end.
abbrev pub Ends : Input → Type 0
Ends i =
    i.handles ≡ true
    → i.starts ≡ true
    → ((wait i.polls i.caught).0 ≢ waiting) × (i.joined ≡ joined 0)

abbrev pub AllEnd : List Input → Type 0
AllEnd [] = Unit {0}
AllEnd (i ∷ is) = Ends i × AllEnd is

module _ (r : Registry) where
  -- A procedure of the list
  abbrev pub IsListed : Procedure → Dev → Type 0
  IsListed p d = (i : ℕ) × (dc_get_procedure_by_index r i ≡ some p)

  chosen-IsListed :
      (n : Option ℕ) (p : Procedure) (d : Dev)
      → request_and_get_cli_action r n ≡ some p
      → IsListed p d
  unfolding request_and_get_cli_action
  chosen-IsListed none p d e = cc
  chosen-IsListed (some i) p d e = elim (Bool-cases (leb r.nb_procedures i)) [
    | inl out ↦ absurd (not_some p (simp (out) at e))
    | inr in_range ↦ (i, simp (in_range) at e)
  ]
    where
      not_some : (q : Procedure) → none ≡ some q → ⊥
      not_some q h = cc

  proceed-IsNext :
      (i : Input) (p : Procedure) (d : Dev) (es : List Event)
      → Ends i
      → IsListed p d
      → IsNext IsListed es
      → IsOrderly IsListed Phase.free (proceed i p d ++ es)
  unfolding proceed
  proceed-IsNext i p d es h l n =
      proceed-IsOrderly IsListed p d i.answers
        (ask_options i.suggest (ask_option_value i.enter) p.options_num 0) i.open_succeeds _ es l
        (ran_events-IsOrderly IsListed
          (procedure_perform_until_interrupt i.handles i.starts i.polls i.joined i.caught) es
          (procedure_perform_until_interrupt-closes i.handles i.starts i.caught i.polls i.joined h)
          n)
        n

  pass-IsPass : (i : Input) → Ends i → IsPass IsListed (pass r i)
  unfolding pass
  pass-IsPass i h = elim (Option-cases (request_and_get_device i.devlist i.device_number)) [
    | inl e ↦
        let step : pass r i ≡ leaves (menu ∷ []) = rw (e, pass) refl in
        subst (IsPass IsListed) (sym step) (menu-IsNext IsListed [] tt)
    | inr (d, e) ↦ elim (Option-cases (request_and_get_cli_action r i.action_number)) [
      | inl u ↦
          let step : pass r i ≡ leaves (menu ∷ []) = rw (e, u, pass) refl in
          subst (IsPass IsListed) (sym step) (menu-IsNext IsListed [] tt)
      | inr (p, u) ↦
          let step : pass r i ≡ goes_on (menu ∷ proceed i p d) = rw (e, u, pass) refl in
          subst (IsPass IsListed) (sym step) (λ more n.
            menu-IsNext IsListed _ (proceed-IsNext i p d more h (chosen-IsListed _ p d u) n))
    ]
  ]

  all_pass : (inputs : List Input) → AllEnd inputs → AllPass IsListed (pass r) inputs
  all_pass [] h = tt
  all_pass (i ∷ is) h = (pass-IsPass i h.0, all_pass is h.1)

  -- Whatever the user enters, as long as each loop's thread that is started ends and can be joined,
  -- and the waiting for it ends too: the program opens only
  -- procedures of the list; it opens an invasive one only if the user has just agreed to this
  -- procedure on this device, and has agreed again if the device is mounted; and it closes each
  -- procedure that is opened before it shows the next menu or ends.
  pub console-IsOrderly :
      (inputs : List Input)
      → AllEnd inputs
      → IsOrderly IsListed Phase.free (main_loop (pass r) inputs)
  console-IsOrderly inputs h =
      (main_loop-IsNext IsListed (pass r) inputs (all_pass inputs h)).at_free
