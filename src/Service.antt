-- ===== src/Service.antt =====
-- internal/service/service.go: start modes. The calls of the Service Control Manager are not here.
pub mod Io
pub mod Scm
pub mod Control
use winforge.Prelude.{ℕ, ◌||◌, ◌≡◌, refl, if◌then◌else◌}
use winforge.Text.{Text, codes, text_eq, trim_space, to_lower, CaseTable}
use winforge.Errors.{Result, ok, err, unknown_start_mode}

-- The constants 2, 3 and 4; `other_mode` is any other value of the Go type.
pub data StartMode : Type 0 where
  start_auto start_manual start_disabled : StartMode
  other_mode : ℕ → StartMode

-- StartMode.String
unfoldable pub mode_string : StartMode → Text
mode_string start_auto = codes "automatic"
mode_string start_manual = codes "manual"
mode_string start_disabled = codes "disabled"
mode_string (other_mode n) = codes "unknown"

unfoldable pub start_mode_of : Text → Result StartMode
start_mode_of s =
    if text_eq s (codes "auto") || text_eq s (codes "automatic")
    then ok start_auto
    else if text_eq s (codes "manual") || text_eq s (codes "demand")
    then ok start_manual
    else if text_eq s (codes "disabled") || text_eq s (codes "disable")
    then ok start_disabled
    else err unknown_start_mode

module _ ⦃t : CaseTable⦄ where
  unfoldable pub parse_start_mode : Text → Result StartMode
  unfolding start_mode_of
  parse_start_mode s = start_mode_of (to_lower (trim_space s))

  -- What String prints for a known mode, ParseStartMode reads back.
  pub parse_start_mode-auto : parse_start_mode (mode_string start_auto) ≡ ok start_auto
  unfolding parse_start_mode mode_string to_lower trim_space text_eq
  parse_start_mode-auto = refl

  pub parse_start_mode-manual : parse_start_mode (mode_string start_manual) ≡ ok start_manual
  unfolding parse_start_mode mode_string to_lower trim_space text_eq
  parse_start_mode-manual = refl

  pub parse_start_mode-disabled : parse_start_mode (mode_string start_disabled) ≡ ok start_disabled
  unfolding parse_start_mode mode_string to_lower trim_space text_eq
  parse_start_mode-disabled = refl
