-- ===== src/Procedure/Settings/Tests.antt =====
-- The options of libdevcheck/read_test.c, as far as two of them.
use whdd_modify.Prelude.{
  ℕ, ◌≡◌, refl, inl, inr, Option, none, some, List, [], ◌∷◌, ◌==◌, if◌then◌else◌, arith, ◌/◌, ◌%◌,
}
use whdd_modify.Procedure.Settings.{
  int64, string, ProcedureOption, OptionSetting, Field, number, text, assign, read_setting,
  apply_setting, apply_settings,
}
use whdd_modify.Procedure.Settings.Override.{last_setting, apply_settings-overrides}

-- The texts 100 to 199 are the numbers 0 to 99.
abbrev scan : ℕ → Option ℕ
scan t = if t / 100 == 1 then some (t % 100) else none

abbrev api : ProcedureOption
api = record { name = 1; offset = 0; type = string }

abbrev start_lba : ProcedureOption
start_lba = record { name = 2; offset = 16; type = int64 }

abbrev settings : List OptionSetting
settings =
    record { name = 2; value = 107 }
    ∷ record { name = 1; value = 55 }
    ∷ record { name = 2; value = 108 }
    ∷ []

abbrev before : ℕ → Field
before k = text 40

abbrev after : ℕ → Field
after = assign (assign (assign before 16 (number 7)) 0 (text 55)) 16 (number 8)

applied : apply_settings scan before settings (api ∷ start_lba ∷ []) ≡ some after
unfolding apply_settings apply_setting read_setting
applied = refl

apply_settings-overrides_example :
    after start_lba.offset ≡ last_setting scan start_lba (before start_lba.offset) settings
apply_settings-overrides_example =
    apply_settings-overrides scan start_lba before after settings (api ∷ start_lba ∷ [])
      (inr ((ground arith, ground arith), inl (refl, tt))) applied
