-- ===== src/Updater/Order.antt =====
-- The updates of versions are a strict order.
use winforge.Prelude.{
  ◌≡◌, ◌≢◌, refl, sym, ◌∙◌, Bool, true, false, ◌||◌, ltb, length, if◌then◌else◌, Bool-cases, inl,
  inr,
}
use winforge.Text.{Text, text_eq, trim_space, is_empty}
use winforge.Text.Laws.{eq_of_text_eq}
use winforge.Errors.{ok, err, empty_tag, version_too_long}
use winforge.Config.Json.{pos, negsuc}
use winforge.AppManager.{split_at}
use winforge.Updater.{compare_versions, normalize_version, newer, check_trimmed, check_for_update}
use winforge.Updater.Versions.{
  negative, compare_from_trans, compare_from_opposite, compare_from-one,
}

-- the normalised version `a` is above `b`
abbrev IsAbove : Text → Text → Type 0
IsAbove a b = compare_versions a b ≡ pos 1

opposite : (a b : Text) → compare_versions b a ≡ negative (compare_versions a b)
unfolding compare_versions
opposite a b = compare_from_opposite (split_at b'.' a) (split_at b'.' b)

IsAbove-asym : (a b : Text) → IsAbove a b → compare_versions b a ≡ negsuc 0
IsAbove-asym a b h = opposite a b ∙ rw h refl

one≢minus : pos 1 ≢ negsuc 0
one≢minus h = cc

IsAbove-irrefl : (a b : Text) → a ≡ b → IsAbove a b → ⊥
IsAbove-irrefl a b e h = one≢minus (sym h ∙ (cc e ∙ IsAbove-asym a b h))

newer-IsAbove : (a b : Text) → newer a b ≡ true → IsAbove a b
unfolding compare_versions
newer-IsAbove a b h =
    compare_from-one (split_at b'.' a) (split_at b'.' b) (not_same (text_eq b a) h)
  where
    not_same : (same : Bool) {p : Bool} → (if same then false else p) ≡ true → p ≡ true
    not_same true h = cc
    not_same false h = h

IsAbove-newer : (a b : Text) → IsAbove a b → newer a b ≡ true
IsAbove-newer a b h = elim (Bool-cases (text_eq b a)) [
  | inl e ↦ absurd (IsAbove-irrefl a b (sym (eq_of_text_eq b a e)) h)
  | inr e ↦ rw e (rw h refl)
]

IsAbove-trans : (a b c : Text) → IsAbove a b → IsAbove b c → IsAbove a c
unfolding compare_versions
IsAbove-trans a b c = compare_from_trans (split_at b'.' a) (split_at b'.' b) (split_at b'.' c)

-- the checks of check_trimmed, which a version or a tag passes
record Offered (current latest : Text) : Type 0 where
  named : is_empty latest ≡ false
  current_short : ltb 256 (length current) ≡ false
  latest_short : ltb 256 (length latest) ≡ false
  above : IsAbove (normalize_version latest) (normalize_version current)

passed :
    (no_tag long_current long_latest unset above : Bool)
    → unset ≡ false
    → (if no_tag
        then err empty_tag
        else if long_current || long_latest
        then err version_too_long
        else if unset
        then ok true
        else ok above)
      ≡ ok true
    → (no_tag ≡ false) × (long_current ≡ false) × (long_latest ≡ false) × (above ≡ true)
passed true c l u a e h = cc
passed false true l u a e h = cc
passed false false true u a e h = cc
passed false false false true a e h = cc
passed false false false false a e h = (refl, refl, refl, cc)

check_trimmed-Offered :
    (current latest : Text)
    → is_empty current ≡ false
    → check_trimmed current latest ≡ ok true
    → Offered current latest
unfolding check_trimmed
check_trimmed-Offered current latest set h =
    let (named, current_short, latest_short, above) = passed _ _ _ _ _ set h in
    record {
      named = named;
      current_short = current_short;
      latest_short = latest_short;
      above = newer-IsAbove _ _ above;
    }

Offered-check_trimmed :
    (current latest : Text)
    → is_empty current ≡ false
    → Offered current latest
    → check_trimmed current latest ≡ ok true
unfolding check_trimmed
Offered-check_trimmed current latest set o =
    rw o.named
      (rw o.current_short (rw o.latest_short (rw set (rw (IsAbove-newer _ _ o.above) refl))))

above_both : (a b : Text) → IsAbove a b → IsAbove b a → ⊥
above_both a b h h' = one≢minus (sym h' ∙ IsAbove-asym a b h)

-- For versions that are not blank, where the second is an update of the first and the third one of the
-- second: the first is no update of the second, and the third is an update of the first.
pub check_for_update-strict_order :
    (first second third : Text)
    → is_empty (trim_space first) ≡ false
    → is_empty (trim_space second) ≡ false
    → check_for_update first second ≡ ok true
    → check_for_update second third ≡ ok true
    → (check_for_update second first ≢ ok true) × (check_for_update first third ≡ ok true)
unfolding check_for_update
check_for_update-strict_order first second third set set' h next =
    let o = check_trimmed-Offered (trim_space first) (trim_space second) set h in
    let n = check_trimmed-Offered (trim_space second) (trim_space third) set' next in
    (
      λ back.
          let b = check_trimmed-Offered (trim_space second) (trim_space first) set' back in
          above_both _ _ o.above b.above,
      Offered-check_trimmed (trim_space first) (trim_space third) set (record {
        named = n.named;
        current_short = o.current_short;
        latest_short = n.latest_short;
        above = IsAbove-trans _ _ _ n.above o.above;
      }),
    )
