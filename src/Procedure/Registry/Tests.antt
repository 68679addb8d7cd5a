-- ===== src/Procedure/Registry/Tests.antt =====
-- Three procedures in the list of libdevcheck/procedure.c, two of them of one name.
use whdd_modify.Prelude.{ℕ, ◌≡◌, refl, true, false, Option, none, some, List, [], ◌∷◌}
use whdd_modify.Procedure.Registry.{Procedure, Registry, count_options}

abbrev named : ℕ → List (Option ℕ) → Procedure
named n os = record {
  name = n;
  display_name = n;
  is_invasive = false;
  requires_ata = false;
  performs = true;
  options = os;
  options_num = 0;
}

abbrev three : List Procedure
three = named 1 [] ∷ named 2 (some 10 ∷ some 11 ∷ none ∷ []) ∷ named 1 (some 12 ∷ none ∷ []) ∷ []

abbrev empty : Registry
empty = record { procedure_list = []; nb_procedures = 0 }

counted : count_options (some 10 ∷ some 11 ∷ none ∷ []) ≡ 2
unfolding count_options
counted = refl
