-- ===== src/Frontend/Orderly/Runs.antt =====
-- The parts of a pass that cui/main.c and cli/main.c share, followed by further passes.
use whdd_modify.Prelude.{
  ℕ, ◌≡◌, refl, Bool, true, false, inl, inr, Option, none, some, List, [], ◌∷◌, ◌++◌, if◌then◌else◌,
  Bool-cases,
}
use whdd_modify.Devices.{Dev}
use whdd_modify.Procedure.Registry.{Procedure}
use whdd_modify.Procedure.Interrupt.{Ran}
use whdd_modify.Frontend.{
  Event, menu, opens, closes, Phase, agreed, agreed_mounted, busy, opened, MayOpen, IsOrderly,
  Answers, confirm, ran_events, open_and_run, Pass, leaves, goes_on, main_loop,
}

module _ (Offered : Procedure → Dev → Type 0) where
  -- What may follow whatever the user has agreed to: nothing, or another pass.
  pub record IsNext (es : List Event) : Type 0 where
    pub at_free : IsOrderly Offered Phase.free es
    pub at_agreed : (p : Procedure) (d : Dev) → IsOrderly Offered (agreed p d) es
    pub at_mounted : (p : Procedure) (d : Dev) → IsOrderly Offered (agreed_mounted p d) es

  pub end-IsNext : IsNext []
  end-IsNext = record { at_free = tt; at_agreed = λ p d. tt; at_mounted = λ p d. tt }

  pub menu-IsNext : (es : List Event) → IsOrderly Offered Phase.free es → IsNext (menu ∷ es)
  menu-IsNext es h = record { at_free = h; at_agreed = λ p d. h; at_mounted = λ p d. h }

  pub ran_events-IsOrderly :
      (r : Ran) (es : List Event)
      → r.closed ≡ true
      → IsNext es
      → IsOrderly Offered busy (ran_events r ++ es)
  ran_events-IsOrderly r es c n =
      rw c (elim (Bool-cases (r.performed)) [ inl p ↦ rw p n.at_free | inr p ↦ rw p n.at_free ])

  opens-IsOrderly :
      (phase : Phase) (p : Procedure) (d : Dev) (ok : Bool) (es : List Event)
      → Offered p d
      → MayOpen phase p d
      → IsOrderly Offered (opened ok) es
      → IsOrderly Offered phase (opens p d ok ∷ es)
  opens-IsOrderly Phase.free p d ok es o m h = (o, m, h)
  opens-IsOrderly (agreed q e) p d ok es o m h = (o, m, h)
  opens-IsOrderly (agreed_mounted q e) p d ok es o m h = (o, m, h)
  opens-IsOrderly busy p d ok es o m h = absurd m

  -- Every phase but `busy` is served by `IsNext`.
  pub open_and_run-IsOrderly :
      (phase : Phase) (p : Procedure) (d : Dev) (ok : Bool) (performing es : List Event)
      → Offered p d
      → MayOpen phase p d
      → IsOrderly Offered busy (performing ++ es)
      → IsNext es
      → IsOrderly Offered phase (open_and_run p d ok performing ++ es)
  unfolding open_and_run
  open_and_run-IsOrderly phase p d false performing es o m h n =
      opens-IsOrderly phase p d false es o m n.at_free
  open_and_run-IsOrderly phase p d true performing es o m h n =
      opens-IsOrderly phase p d true ((if p.performs then performing else closes ∷ []) ++ es) o m
        (elim (Bool-cases (p.performs)) [ inl y ↦ rw y h | inr y ↦ rw y n.at_free ])

  pub confirm-alone :
      (p : Procedure) (d : Dev) (a : Answers) (es : List Event)
      → IsNext es
      → IsOrderly Offered Phase.free ((confirm p d a).0 ++ es)
  unfolding confirm
  confirm-alone p d a es n = elim (Bool-cases (p.is_invasive)) [
    | inr harmless ↦ simp (harmless) n.at_free
    | inl invasive ↦ simp (invasive) (elim (Bool-cases (a.yes)) [
      | inr refuses ↦ simp (refuses) n.at_free
      | inl yes_one ↦ simp (yes_one) (elim (Bool-cases (d.mounted)) [
        | inr idle ↦ simp (idle) (n.at_agreed p d)
        | inl used ↦ simp (used) (elim (Bool-cases (a.yes_mounted)) [
          | inl yes_two ↦ simp (yes_two) (refl, refl, n.at_mounted p d)
          | inr refuses ↦ simp (refuses) (refl, refl, n.at_free)
        ])
      ])
    ])
  ]

  pub confirm-IsOrderly :
      (p : Procedure) (d : Dev) (a : Answers) (going es : List Event)
      → ((phase : Phase) → MayOpen phase p d → IsOrderly Offered phase (going ++ es))
      → IsNext es
      → IsOrderly Offered Phase.free
          ((if (confirm p d a).1 then (confirm p d a).0 ++ going else (confirm p d a).0) ++ es)
  unfolding confirm
  confirm-IsOrderly p d a going es f n = elim (Bool-cases (p.is_invasive)) [
    | inr harmless ↦ simp (harmless) (f Phase.free harmless)
    | inl invasive ↦ simp (invasive) (elim (Bool-cases (a.yes)) [
      | inr refuses ↦ simp (refuses) n.at_free
      | inl yes_one ↦ simp (yes_one) (elim (Bool-cases (d.mounted)) [
        | inr idle ↦ simp (idle) (f (agreed p d) (refl, refl, idle))
        | inl used ↦ simp (used) (elim (Bool-cases (a.yes_mounted)) [
          | inl yes_two ↦ simp (yes_two) (refl, refl, f (agreed_mounted p d) (refl, refl))
          | inr refuses ↦ simp (refuses) (refl, refl, n.at_free)
        ])
      ])
    ])
  ]

  -- The rest of a pass, with whatever values the options have.
  pub proceed-IsOrderly :
      (p : Procedure) (d : Dev) (a : Answers) (values : Option (List (List ℕ)))
      (ok : List (List ℕ) → Bool) (performing es : List Event)
      → Offered p d
      → IsOrderly Offered busy (performing ++ es)
      → IsNext es
      → IsOrderly Offered Phase.free (
          (if (confirm p d a).1
            then elim values as (λ _. List Event) [
              | none ↦ (confirm p d a).0
              | some v ↦ (confirm p d a).0 ++ open_and_run p d (ok v) performing
            ]
            else (confirm p d a).0)
          ++ es)
  proceed-IsOrderly p d a none ok performing es o h n = elim (Bool-cases ((confirm p d a).1)) [
    | inl yes_all ↦ rw yes_all (confirm-alone p d a es n)
    | inr refuses ↦ rw refuses (confirm-alone p d a es n)
  ]
  proceed-IsOrderly p d a (some v) ok performing es o h n =
      confirm-IsOrderly p d a (open_and_run p d (ok v) performing) es
        (λ phase m. open_and_run-IsOrderly phase p d (ok v) performing es o m h n) n

  -- The condition on a pass: a procedure that it opens is closed, whatever passes follow.
  abbrev pub IsPass : Pass → Type 0
  IsPass (leaves es) = IsNext es
  IsPass (goes_on es) = (more : List Event) → IsNext more → IsNext (es ++ more)

  abbrev pub AllPass : {I : Type 0} → (I → Pass) → List I → Type 0
  AllPass pass [] = Unit {0}
  AllPass pass (i ∷ is) = IsPass (pass i) × AllPass pass is

  pub main_loop-IsNext :
      {I : Type 0} (pass : I → Pass) (inputs : List I)
      → AllPass pass inputs
      → IsNext (main_loop pass inputs)
  unfolding main_loop
  main_loop-IsNext pass [] h = end-IsNext
  main_loop-IsNext pass (i ∷ is) h = continue_with (pass i) h.0 (main_loop-IsNext pass is h.1)
    where
      continue_with :
          (p : Pass) {rest : List Event}
          → IsPass p
          → IsNext rest
          → IsNext (elim p as (λ _. List Event) [ leaves es ↦ es | goes_on es ↦ es ++ rest ])
      continue_with (leaves es) q n = q
      continue_with (goes_on es) q n = q _ n
