-- ===== src/Engine.antt =====
-- internal/engine/executor.go: the guard of service operations. The calls of the Service Control
-- Manager are a parameter.
pub mod Protected
pub mod Executor
mod Tests
use winforge.Prelude.{
  ℕ, ◌≡◌, Bool, true, false, not, Option, none, some, List, [], ◌∷◌, length, any, ltb,
  if◌then◌else◌,
}
use winforge.Text.{
  Text, codes, text_eq, trim_space, is_empty, is_control, contains_any, to_lower, CaseTable,
}
use winforge.Errors.{
  Err, Result, ok, err, ◌>>=◌, ◌>>◌, refuse, service_name_required, service_name_padded,
  service_name_long, service_name_separator, service_name_control, service_protected,
}
use winforge.Service.{StartMode, mode_string, parse_start_mode}
use winforge.Tweak.Executor.{Change}

-- the functions of internal/service that the executor calls
pub record Services (S : Type 0) : Type 0 where
  pub get_start_mode : Text → S → Result StartMode
  pub set_start_mode : Text → StartMode → Change S
  pub start : Text → Change S
  pub stop : Text → Change S

-- the set `protected`
pub record Guard : Type 0 where
  pub protected : List Text

unfoldable pub validate_service_name : Text → Result (Unit {0})
unfolding text_eq contains_any
validate_service_name name = do
  refuse (is_empty name) service_name_required
  refuse (not (text_eq (trim_space name) name)) service_name_padded
  refuse (ltb 256 (length name)) service_name_long
  refuse (contains_any name (codes "/\\")) service_name_separator
  refuse (any is_control name) service_name_control

-- `if err != nil { return err }`, and otherwise the change
abbrev pub guarded {ℓ} : {S : Type 0} {A : Type ℓ} → Result A → (A → Change S) → Change S
guarded (err e) change s = (some e, s)
guarded (ok a) change s = change a s

module _ ⦃c : CaseTable⦄ where
  abbrev lowered : List Text → List Text
  lowered [] = []
  lowered (name ∷ names) = to_lower name ∷ lowered names

  unfoldable pub new_executor : List Text → Guard
  new_executor names = record { protected = lowered names }

  abbrev pub is_blocked : Guard → Text → Bool
  is_blocked g name = any (text_eq (to_lower name)) g.protected

  unfoldable pub ensure_service_mutable : Guard → Text → Result (Unit {0})
  unfolding validate_service_name
  ensure_service_mutable g name = do
    validate_service_name name
    refuse (is_blocked g name) service_protected

  module _ {S : Type 0} (services : Services S) (g : Guard) where
    unfoldable pub service_set_start_mode : Text → Text → Change S
    unfolding ensure_service_mutable
    service_set_start_mode name mode =
        guarded (ensure_service_mutable g name)
          λ u. guarded (parse_start_mode mode) λ m. services.set_start_mode name m

    unfoldable pub service_get_start_mode : Text → S → Result Text
    unfolding validate_service_name
    service_get_start_mode name s = do
      validate_service_name name
      m ← services.get_start_mode name s
      ok (mode_string m)

    unfoldable pub service_start : Text → Change S
    unfolding ensure_service_mutable
    service_start name = guarded (ensure_service_mutable g name) λ u. services.start name

    unfoldable pub service_stop : Text → Change S
    unfolding ensure_service_mutable
    service_stop name = guarded (ensure_service_mutable g name) λ u. services.stop name
