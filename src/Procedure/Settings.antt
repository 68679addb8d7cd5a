-- ===== src/Procedure/Settings.antt =====
-- The options of a procedure, `dc_procedure_open` of libdevcheck/procedure.c. A name or a text is
-- a number: two are equal exactly if `strcmp` returns 0.
pub mod Override
mod Tests
use whdd_modify.Prelude.{ℕ, Bool, Option, none, some, List, [], ◌∷◌, ◌==◌, if◌then◌else◌, ◌>>=◌}

-- `DC_ProcedureOptionType`
pub data OptionType : Type 0 where
  int64 string : OptionType

-- `DC_ProcedureOption`, without the help and the choices.
pub record ProcedureOption : Type 0 where
  pub name : ℕ
  pub offset : ℕ
  pub type : OptionType

-- `DC_OptionSetting`
pub record OptionSetting : Type 0 where
  pub name : ℕ
  pub value : ℕ

-- What a field of the private context holds.
pub data Field : Type 0 where
  number : ℕ → Field
  text : ℕ → Field
  null : Field

-- The private context by offsets.
abbrev pub assign : (ℕ → Field) → ℕ → Field → ℕ → Field
assign priv offset f k = if k == offset then f else priv k

-- `sscanf` and `suggest_default_value`: `none` is another value than 1, and a value that stays null.
module _ (scan : ℕ → Option ℕ) where
  -- `none` is a null pointer that `sscanf` gets. Where it does not read a number, nothing is stored.
  unfoldable pub set_default : (ℕ → Option ℕ) → (ℕ → Field) → ProcedureOption → Option (ℕ → Field)
  set_default suggest priv o = elim (o.type) [
    | int64 ↦ suggest o.name >>= λ value. elim (scan value) [
      | none ↦ some priv
      | some n ↦ some (assign priv o.offset (number n))
    ]
    | string ↦ elim (suggest o.name) [
      | none ↦ some (assign priv o.offset null)
      | some value ↦ some (assign priv o.offset (text value))
    ]
  ]

  unfoldable pub set_defaults :
      (ℕ → Option ℕ) → (ℕ → Field) → List ProcedureOption → Option (ℕ → Field)
  set_defaults suggest priv [] = some priv
  set_defaults suggest priv (o ∷ os) = set_default suggest priv o >>= λ p. set_defaults suggest p os

  -- The value of a setting for an option; `none` is a number that cannot be read.
  unfoldable pub read_setting : ProcedureOption → OptionSetting → Option Field
  read_setting o s = elim (o.type) [
    | int64 ↦ scan s.value >>= λ n. some (number n)
    | string ↦ some (text s.value)
  ]

  -- The inner loop; `none` is `goto fail_priv`.
  unfoldable pub apply_setting :
      (ℕ → Field) → OptionSetting → List ProcedureOption → Option (ℕ → Field)
  apply_setting priv s [] = some priv
  apply_setting priv s (o ∷ os) =
      if s.name == o.name
      then (read_setting o s >>= λ f. apply_setting (assign priv o.offset f) s os)
      else apply_setting priv s os

  unfoldable pub apply_settings :
      (ℕ → Field) → List OptionSetting → List ProcedureOption → Option (ℕ → Field)
  apply_settings priv [] os = some priv
  apply_settings priv (s ∷ ss) os = apply_setting priv s os >>= λ p. apply_settings p ss os
