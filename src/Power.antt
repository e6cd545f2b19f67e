-- ===== src/Power.antt =====
-- internal/power/power.go: power scheme names. The calls of the power API are not here.
pub mod Laws
pub mod Guid
pub mod Plans
pub mod Resolved
mod Tests
use winforge.Prelude.{
  ℕ, suc, ◌+◌, Bool, true, false, ◌&&◌, ◌||◌, Option, none, some, [], ◌∷◌, length, any, ltb, leb,
  ◌==◌, if◌then◌else◌,
}
use winforge.Text.{Text, codes, text_eq, trim_space, to_lower, CaseTable}
use winforge.Errors.{Err, Result, ok, err, unknown_power_scheme}

abbrev pub balanced : Text
balanced = codes "381b4222-f694-41f0-9685-ff5bb260df2e"

abbrev pub high_performance : Text
high_performance = codes "8c5e7fda-e8bf-4a96-9a85-a6e23a8c635c"

abbrev pub power_saver : Text
power_saver = codes "a1841308-3541-4fab-bc81-f71556f20b4a"

abbrev pub ultimate_clone : Text
ultimate_clone = codes "dd847358-6d09-4a60-9d3e-0f4a0f0d0d0d"

-- the map `aliases`
unfoldable pub alias : Text → Option Text
alias s =
    if text_eq s (codes "balanced")
    then some balanced
    else if text_eq s (codes "high-performance") || text_eq s (codes "highperformance")
    then some high_performance
    else if text_eq s (codes "power-saver") || text_eq s (codes "powersaver")
    then some power_saver
    else if text_eq s (codes "ultimate")
    then some ultimate_clone
    else none

unfoldable pub is_hex : ℕ → Bool
is_hex r = (leb b'0' r && leb r b'9') || (leb b'a' r && leb r b'f') || (leb b'A' r && leb r b'F')

abbrev pub is_hyphen_place : ℕ → Bool
is_hyphen_place i = i == 8 || i == 13 || i == 18 || i == 23

-- The loop of isGUID from index i on. It looks at every rune of the text; up to the first one that
-- is not ASCII, which is refused, a rune's index is its byte's.
unfoldable pub guid_from : ℕ → Text → Bool
unfolding is_hex
guid_from i [] = true
guid_from i (r ∷ s) = (if is_hyphen_place i then r == b'-' else is_hex r) && guid_from (i + 1) s

-- A text that passes the loop is ASCII, so that its length in bytes is its length in runes.
unfoldable pub is_guid : Text → Bool
unfolding guid_from
is_guid s = length s == 36 && guid_from 0 s

module _ ⦃t : CaseTable⦄ where
  abbrev resolve_guid : Text → Option Text → Result Text
  resolve_guid s (some g) = ok g
  resolve_guid s none = if is_guid s then ok (to_lower s) else err unknown_power_scheme

  unfoldable pub resolve : Text → Result Text
  unfolding alias
  resolve alias_or_guid = let s = trim_space alias_or_guid in resolve_guid s (alias (to_lower s))
