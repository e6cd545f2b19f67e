-- ===== src/Power/Laws.antt =====
-- What `resolve` returns.
use winforge.Prelude.{ℕ, suc, ◌+◌, ◌≡◌, refl, true, [], ◌∷◌, some, arith, length, ap, ◌==◌}
use winforge.Text.{Text, trim_space, to_lower, lower_rune, CaseTable}
use winforge.Errors.{ok}
use winforge.Power.{alias, is_hex, guid_from, is_guid, resolve}

module _ ⦃t : CaseTable⦄ where
  is_hex-lower_rune : (c : ℕ) → is_hex c ≡ true → is_hex (lower_rune c) ≡ true
  unfolding is_hex lower_rune
  is_hex-lower_rune c h = ground arith

  hyphen-lower_rune : (c : ℕ) → (c == b'-') ≡ true → (lower_rune c == b'-') ≡ true
  unfolding lower_rune
  hyphen-lower_rune c h = ground arith

  guid_from-to_lower : (i : ℕ) (s : Text) → guid_from i s ≡ true → guid_from i (to_lower s) ≡ true
  unfolding guid_from to_lower
  guid_from-to_lower i [] h = refl
  guid_from-to_lower i (c ∷ s) h =
      ground (arith, is_hex-lower_rune c, hyphen-lower_rune c, guid_from-to_lower (i + 1) s)

  length-to_lower : (s : Text) → length (to_lower s) ≡ length s
  unfolding to_lower
  length-to_lower [] = refl
  length-to_lower (c ∷ s) = ap suc (length-to_lower s)

  is_guid-to_lower : (s : Text) → is_guid s ≡ true → is_guid (to_lower s) ≡ true
  unfolding is_guid
  is_guid-to_lower s h = ground (arith, length-to_lower s, guid_from-to_lower 0 s)

  alias-is_guid : (s : Text) {g : Text} → alias s ≡ some g → is_guid g ≡ true
  unfolding alias is_guid
  alias-is_guid s h = ground arith

  -- Whatever name or GUID is accepted, the result has the form of a GUID.
  pub resolve-is_guid : (s : Text) {g : Text} → resolve s ≡ ok g → is_guid g ≡ true
  unfolding resolve
  resolve-is_guid s {g} h =
      ground
        (arith, alias-is_guid (to_lower (trim_space s)) {g = g}, is_guid-to_lower (trim_space s))
