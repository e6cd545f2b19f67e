-- ===== src/Config/Catalogue/Tests.antt =====
-- The validators' theorems at a concrete catalogue.
use winforge.Prelude.{true, false, [], ◌∷◌, ◌≡◌, refl, length}
use winforge.Text.{codes, text_eq, trim_space, to_lower, trim_prefix}
use winforge.Errors.{ok}
use winforge.Config.{Tweak, registry_set_dword, high, other_risk}
use winforge.Config.Values.{dword_value}
use winforge.Config.Validate.{validate_operation, check_len, check_count}
use winforge.Config.Validate.Accepted.{
  Decodes, validate_operation-Decodes, validate_operation-IsTargeted,
}
use winforge.Config.Catalogue.{display_name, validate}
use winforge.Config.Catalogue.Accepted.{Distinct, IsValid, validate-IsValid}
use winforge.Tweak.Orchestrator.{is_registry_op}
use winforge.Tweak.UndoEntry.RoundTrip.{IsTargeted}
use winforge.Tweak.Sample.{ascii, set_start}
use winforge.Prelude.{All}

set_start_ok : validate_operation set_start ≡ ok tt
unfolding validate_operation check_len check_count text_eq trim_space dword_value
set_start_ok = refl

validate_operation-Decodes_example : Decodes registry_set_dword set_start
validate_operation-Decodes_example = validate_operation-Decodes set_start set_start_ok

set_start_on_value : is_registry_op registry_set_dword ≡ true
unfolding is_registry_op
set_start_on_value = refl

validate_operation-IsTargeted_example : IsTargeted set_start
validate_operation-IsTargeted_example =
    validate_operation-IsTargeted set_start set_start_ok set_start_on_value

abbrev written : Tweak
written = record {
  id = codes " atlas-dark-mode";
  name = [];
  category = codes "ui";
  description = [];
  risk = other_risk (codes "Expert");
  reversible = false;
  operations = set_start ∷ [];
  revert = [];
}

abbrev loaded : Tweak
loaded = record written { id = codes "atlas-dark-mode"; name = codes "dark mode"; risk = high }

loaded_ok : validate (λ c. c) (written ∷ []) ≡ ok (loaded ∷ [])
unfolding validate validate_operation check_len check_count text_eq trim_space to_lower trim_prefix
    dword_value display_name
loaded_ok = refl

validate-IsValid_example :
    Distinct [] (loaded ∷ [])
    × All IsValid (loaded ∷ [])
    × (length (loaded ∷ []) ≡ length (written ∷ []))
validate-IsValid_example = validate-IsValid (λ c. c) (written ∷ []) (loaded ∷ []) loaded_ok
