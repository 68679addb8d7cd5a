-- ===== src/Procedure/Registry.antt =====
-- The list of the procedures, lines 9 to 43 of libdevcheck/procedure.c. A name is a number: two are
-- equal exactly if `strcmp` returns 0. A list is walked from the pointer that is kept.
pub mod Order
mod Tests
use whdd_modify.Prelude.{
  ℕ, zero, suc, ◌+◌, Bool, Option, none, some, List, [], ◌∷◌, ◌==◌, if◌then◌else◌,
}

-- `DC_Procedure` with its two flags; `performs` tells whether `perform` is not null. `options` are
-- the names of the options, `none` the null name that ends them; a null pointer is `[]`.
pub record Procedure : Type 0 where
  pub name : ℕ
  pub display_name : ℕ
  pub is_invasive : Bool
  pub requires_ata : Bool
  pub performs : Bool
  pub options : List (Option ℕ)
  pub options_num : ℕ

-- `procedure_list` and `nb_procedures` of `dc_ctx_global`
pub record Registry : Type 0 where
  pub procedure_list : List Procedure
  pub nb_procedures : ℕ

unfoldable pub count_options : List (Option ℕ) → ℕ
count_options [] = 0
count_options (none ∷ os) = 0
count_options (some o ∷ os) = suc (count_options os)

abbrev pub numbered : Procedure → Procedure
numbered p = record p { options_num = count_options p.options }

unfoldable pub dc_procedure_register : Registry → Procedure → Registry
dc_procedure_register r p = record {
  procedure_list = numbered p ∷ r.procedure_list;
  nb_procedures = r.nb_procedures + 1;
}

-- The calls of `dc_init`, `PROCEDURE_REGISTER` for each procedure.
unfoldable pub register_all : Registry → List Procedure → Registry
register_all r [] = r
register_all r (p ∷ ps) = register_all (dc_procedure_register r p) ps

unfoldable pub find_from : ℕ → List Procedure → Option Procedure
find_from n [] = none
find_from n (p ∷ ps) = let rest = find_from n ps in if p.name == n then some p else rest

unfoldable pub dc_find_procedure : Registry → ℕ → Option Procedure
dc_find_procedure r n = find_from n r.procedure_list

unfoldable pub entry_at : List Procedure → ℕ → Option Procedure
entry_at [] i = none
entry_at (p ∷ ps) zero = some p
entry_at (p ∷ ps) (suc i) = entry_at ps i

unfoldable pub dc_get_procedure_by_index : Registry → ℕ → Option Procedure
dc_get_procedure_by_index r i = entry_at r.procedure_list i
