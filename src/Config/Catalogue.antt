-- ===== src/Config/Catalogue.antt =====
-- internal/config/models.go: Validate of the catalogue of tweaks. It corrects ids, names and risks in
-- place; here the corrected tweaks are the result, and after an error there is none.
pub mod Accepted
mod Tests
use winforge.Prelude.{
  ℕ, suc, ◌≡◌, Bool, true, false, not, ◌&&◌, ◌||◌, Option, none, some, List, [], ◌∷◌, ◌++◌, length,
  any, ltb, ◌==◌, if◌then◌else◌,
}
use winforge.Text.{Text, codes, text_eq, trim_space, trim_prefix, is_empty, to_lower, CaseTable}
use winforge.Errors.{
  Err, Result, ok, err, ◌>>=◌, ◌>>◌, refuse, empty_id, duplicate_id, no_operations, no_revert,
  invalid_risk,
}
use winforge.Config.{Operation, Risk, low, medium, high, other_risk, Tweak}
use winforge.Config.Validate.{check_len, check_count, validate_operation}

-- `append_rune c fields` puts a character in front of the first field
abbrev append_rune : ℕ → List Text → List Text
append_rune c [] = (c ∷ []) ∷ []
append_rune c (f ∷ fs) = (c ∷ f) ∷ fs

-- strings.FieldsFunc with '-' and '_'; a text that begins with a separator has an empty field first
-- here, which drop_empty takes away
abbrev split_words : Text → List Text
split_words [] = [] ∷ []
split_words (c ∷ s) =
    let rest = split_words s in if c == b'-' || c == b'_' then [] ∷ rest else append_rune c rest

abbrev drop_empty : List Text → List Text
drop_empty [] = []
drop_empty ([] ∷ ws) = drop_empty ws
drop_empty ((c ∷ w) ∷ ws) = (c ∷ w) ∷ drop_empty ws

abbrev capitalise : (ℕ → ℕ) → Text → Text
capitalise upper [] = []
capitalise upper (c ∷ w) = upper c ∷ w

abbrev join_words : (ℕ → ℕ) → List Text → Text
join_words upper [] = []
join_words upper (w ∷ []) = capitalise upper w
join_words upper (w ∷ v ∷ ws) = capitalise upper w ++ (codes " " ++ join_words upper (v ∷ ws))

abbrev named : (ℕ → ℕ) → Text → List Text → Text
named upper id [] = id
named upper id (w ∷ ws) = join_words upper (w ∷ ws)

-- displayName; `upper` is unicode.ToUpper
unfoldable pub display_name : (upper : ℕ → ℕ) → Text → Text
display_name upper id =
    let name =
      trim_prefix
        (trim_prefix (trim_prefix (trim_prefix id (codes "atlas-")) (codes "winutil-wpf"))
          (codes "debloat-"))
        (codes "winforge-") in
    named upper id (drop_empty (split_words name))

abbrev pub is_nil : List Operation → Bool
is_nil [] = true
is_nil (o ∷ os) = false

module _ ⦃c : CaseTable⦄ where
  -- the switch of ValidateRisk, on the text in lower case
  unfoldable pub risk_of : Text → Result Risk
  risk_of s =
      if text_eq s (codes "low")
      then ok low
      else if text_eq s (codes "medium")
      then ok medium
      else if text_eq s (codes "high") || text_eq s (codes "expert")
      then ok high
      else if is_empty s
      then ok low
      else err invalid_risk

  unfoldable pub validate_risk : Risk → Result Risk
  unfolding risk_of
  validate_risk low = ok low
  validate_risk medium = ok medium
  validate_risk high = ok high
  validate_risk (other_risk s) = risk_of (to_lower s)

  unfoldable pub check_limits : Tweak → Result (Unit {0})
  check_limits t = do
    check_len t.name 256
    check_len t.category 128
    check_len t.description 4096
    check_count (length t.operations) 512
    check_count (length t.revert) 512

  unfoldable pub validate_operations : List Operation → Result (Unit {0})
  validate_operations [] = ok tt
  validate_operations (o ∷ os) = validate_operation o >> validate_operations os

  -- the checks of a tweak whose id and name are corrected
  unfoldable pub check_tweak : Tweak → Result Tweak
  unfolding validate_risk check_limits validate_operations
  check_tweak t = do
    check_limits t
    refuse (is_nil t.operations) no_operations
    refuse (t.reversible && is_nil t.revert) no_revert
    risk ← validate_risk t.risk
    validate_operations t.operations
    validate_operations t.revert
    ok (record t { risk = risk })

  module _ (upper : ℕ → ℕ) where
    abbrev pub corrected : Text → Tweak → Tweak
    corrected id t = record t {
      id = id;
      name = if is_empty (trim_space t.name) then display_name upper id else t.name;
    }

    -- one round of the loop; `seen` are the ids before it
    unfoldable pub validate_tweak : List Text → Tweak → Result Tweak
    unfolding check_tweak
    validate_tweak seen t = do
      refuse (is_empty (trim_space t.id)) empty_id
      check_len (trim_space t.id) 256
      refuse (any (text_eq (trim_space t.id)) seen) duplicate_id
      check_tweak (corrected (trim_space t.id) t)

    unfoldable pub validate_from : List Text → List Tweak → Result (List Tweak)
    unfolding validate_tweak
    validate_from seen [] = ok []
    validate_from seen (t ∷ ts) = do
      valid ← validate_tweak seen t
      rest ← validate_from (valid.id ∷ seen) ts
      ok (valid ∷ rest)

    unfoldable pub validate : List Tweak → Result (List Tweak)
    unfolding validate_from
    validate tweaks = do check_count (length tweaks) 4096; validate_from [] tweaks
