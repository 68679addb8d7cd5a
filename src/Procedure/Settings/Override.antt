-- ===== src/Procedure/Settings/Override.antt =====
-- The settings of the user override what the fields held.
use whdd_modify.Prelude.{
  ℕ, ◌≡◌, ◌≢◌, ◌⊎◌, sym, ◌∙◌, ap, inl, inr, Option, none, some, List, [], ◌∷◌, ◌==◌, if◌then◌else◌,
  arith, Bool-cases, Option-cases, subst,
}
use whdd_modify.Procedure.Settings.{
  ProcedureOption, OptionSetting, Field, assign, read_setting, apply_setting, apply_settings,
}

-- Two options with names and fields of their own.
abbrev pub Differs : ProcedureOption → ProcedureOption → Type 0
Differs o x = (x.name ≢ o.name) × (x.offset ≢ o.offset)

abbrev pub AllDiffer : ProcedureOption → List ProcedureOption → Type 0
AllDiffer o [] = Unit {0}
AllDiffer o (x ∷ xs) = Differs o x × AllDiffer o xs

-- The option is in the list, once.
abbrev pub IsOnce : ProcedureOption → List ProcedureOption → Type 0
IsOnce o [] = ⊥
IsOnce o (x ∷ xs) = ((x ≡ o) × AllDiffer o xs) ⊎ (Differs o x × IsOnce o xs)

module _ (scan : ℕ → Option ℕ) (o : ProcedureOption) where
  abbrev pub or_kept : Option Field → Field → Field
  or_kept none f = f
  or_kept (some g) f = g

  -- The field after a setting: its value, if it has the option's name, else as it was.
  unfoldable pub told : Field → OptionSetting → Field
  told f s = if s.name == o.name then or_kept (read_setting scan o s) f else f

  -- The field after some settings.
  unfoldable pub last_setting : Field → List OptionSetting → Field
  last_setting f [] = f
  last_setting f (s ∷ ss) = last_setting (told f s) ss

  same_value : (p q : ℕ → Field) → some p ≡ some q → q o.offset ≡ p o.offset
  same_value p q e = ap (λ (g : ℕ → Field). g o.offset) (sym (same e))
    where
      same : some p ≡ some q → p ≡ q
      same e = cc

  not_some : {A : Type 0} (a : A) → none ≡ some a → ⊥
  not_some a h = cc

  other_kept :
      (priv q : ℕ → Field) (s : OptionSetting) (os : List ProcedureOption)
      → AllDiffer o os
      → apply_setting scan priv s os ≡ some q
      → q o.offset ≡ priv o.offset
  unfolding apply_setting
  other_kept priv q s [] d e = same_value priv q e
  other_kept priv q s (x ∷ xs) d e = elim (Bool-cases (s.name == x.name)) [
    | inl named ↦
        let h = simp (named, apply_setting) at e in
        elim (Option-cases (read_setting scan x s)) [
          | inl bad ↦ absurd (not_some q (simp (bad, apply_setting) at h))
          | inr (f, good) ↦
              other_kept (assign priv x.offset f) q s xs d.1 (simp (good, apply_setting) at h)
              ∙ ground (arith, d.0)
        ]
    | inr other ↦ other_kept priv q s xs d.1 (simp (other, apply_setting) at e)
  ]

  elsewhere :
      (priv : ℕ → Field) (x : ProcedureOption) (f : Field)
      → Differs o x
      → assign priv x.offset f o.offset ≡ priv o.offset
  elsewhere priv x f d = ground (arith, d)

  named_lem :
      (priv q : ℕ → Field) (s : OptionSetting) (xs : List ProcedureOption)
      → AllDiffer o xs
      → apply_setting scan priv s (o ∷ xs) ≡ some q
      → q o.offset ≡ told (priv o.offset) s
  unfolding apply_setting told
  named_lem priv q s xs d e = elim (Bool-cases (s.name == o.name)) [
    | inl named ↦
        let h = simp (named, apply_setting) at e in
        elim (Option-cases (read_setting scan o s)) [
          | inl bad ↦ absurd (not_some q (simp (bad, apply_setting) at h))
          | inr (f, good) ↦
              simp (named, good)
                (other_kept (assign priv o.offset f) q s xs d (simp (good, apply_setting) at h)
                  ∙ ground arith)
        ]
    | inr other ↦ simp other (other_kept priv q s xs d (simp (other, apply_setting) at e))
  ]

  one_lem :
      (priv q : ℕ → Field) (s : OptionSetting) (os : List ProcedureOption)
      → IsOnce o os
      → apply_setting scan priv s os ≡ some q
      → q o.offset ≡ told (priv o.offset) s
  unfolding apply_setting told
  one_lem priv q s [] d e = absurd d
  one_lem priv q s (x ∷ xs) (inl (same, d)) e =
      named_lem priv q s xs d (subst (λ y. apply_setting scan priv s (y ∷ xs) ≡ some q) same e)
  one_lem priv q s (x ∷ xs) (inr (differs, once)) e = elim (Bool-cases (s.name == x.name)) [
    | inl named ↦
        let h = simp (named, apply_setting) at e in
        elim (Option-cases (read_setting scan x s)) [
          | inl bad ↦ absurd (not_some q (simp (bad, apply_setting) at h))
          | inr (f, good) ↦
              one_lem (assign priv x.offset f) q s xs once (simp (good, apply_setting) at h)
              ∙ ap (λ g. told g s) (elsewhere priv x f differs)
        ]
    | inr other ↦ one_lem priv q s xs once (simp (other, apply_setting) at e)
  ]

  -- Where every number that is set can be read, a field of an option ends as the last setting with
  -- the option's name has it, or else as it was; settings of other options do not touch it.
  pub apply_settings-overrides :
      (priv q : ℕ → Field) (ss : List OptionSetting) (os : List ProcedureOption)
      → IsOnce o os
      → apply_settings scan priv ss os ≡ some q
      → q o.offset ≡ last_setting (priv o.offset) ss
  unfolding apply_settings last_setting
  apply_settings-overrides priv q [] os once e = same_value priv q e
  apply_settings-overrides priv q (s ∷ ss) os once e =
      elim (Option-cases (apply_setting scan priv s os)) [
        | inl bad ↦ absurd (not_some q (simp (bad, apply_settings) at e))
        | inr (p, good) ↦
            apply_settings-overrides p q ss os once (simp (good, apply_settings) at e)
            ∙ ap (λ f. last_setting f ss) (one_lem priv p s os once good)
      ]
