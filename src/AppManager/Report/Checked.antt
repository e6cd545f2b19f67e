-- ===== src/AppManager/Report/Checked.antt =====
-- When winget is started, and what the outcome of an operation says.
use winforge.Prelude.{◌≡◌, refl, Bool, true, false, Option, none, some, List, [], ◌∷◌, ◌↔◌}
use winforge.Text.{Text}
use winforge.Errors.{Err, Result, ok, err}
use winforge.AppManager.{validate_package_id}
use winforge.AppManager.Report.{
  Winget, Outcome, is_nil, joined_all, concluded, started, resolved, looked_up, report, install,
  upgrade, uninstall, upgrade_all,
}

-- success says that there is no error
abbrev pub IsConsistent : Outcome → Type 0
IsConsistent o = (o.success ≡ true) ↔ (o.error ≡ none)

module _ {S : Type 0} (os : Winget S) where
  abbrev Agree : (List Text × Bool × Option Err) → Type 0
  Agree (lines, success, error) = (success ≡ true) ↔ (error ≡ none)

  is_nil_iff : (e : Option Err) → (is_nil os e ≡ true) ↔ (e ≡ none)
  is_nil_iff none = (λ h. refl, λ h. refl)
  is_nil_iff (some e) = (λ h. cc, λ h. cc)

  concluded-Agree :
      (context : Option Err) (lines : List Text) (output wait : Option Err)
      → Agree (concluded os context lines output wait)
  concluded-Agree (some e) lines none none = (λ h. cc, λ h. cc)
  concluded-Agree (some e) lines none (some w) = (λ h. cc, λ h. cc)
  concluded-Agree (some e) lines (some o) none = (λ h. cc, λ h. cc)
  concluded-Agree (some e) lines (some o) (some w) = (λ h. cc, λ h. cc)
  concluded-Agree none lines output wait = is_nil_iff (joined_all os (output ∷ wait ∷ []))

  failed-Agree : (e : Err) → Agree ([], false, some e)
  failed-Agree e = (λ h. cc, λ h. cc)

  started-Agree : (r : Result (Unit {0}) × S) → Agree (started os r).0
  started-Agree (err e, s) = failed-Agree e
  started-Agree (ok u, s) = concluded-Agree _ _ _ _

  resolved-Agree : (args : List Text) (r : Result Text × S) → Agree (resolved os args r).0
  resolved-Agree args (err e, s) = (λ h. cc, λ h. cc)
  resolved-Agree args (ok path, s) = started-Agree (os.start_process path args s)

  looked_up-Agree : (args : List Text) (r : Result Text × S) → Agree (looked_up os args r).0
  looked_up-Agree args (err e, s) = (λ h. cc, λ h. cc)
  looked_up-Agree args (ok path, s) = resolved-Agree args (os.absolute path s)

  report-Agree : (args : List Text) (s : S) → Agree (report os args s).0
  unfolding report
  report-Agree args s = looked_up-Agree args (os.look_path s)

  pub upgrade_all-IsConsistent : (s : S) → IsConsistent (upgrade_all os s).0
  unfolding upgrade_all
  upgrade_all-IsConsistent s = report-Agree _ s

  abbrev refusal : Err → Outcome
  refusal e = record { success = false; lines = []; error = some e }

  -- A package name that the check refuses starts nothing.
  pub operations-refused :
      (id : Text) (e : Err) (s : S)
      → validate_package_id id ≡ err e
      → (install os id s ≡ (refusal e, s))
        × (upgrade os id s ≡ (refusal e, s))
        × (uninstall os id s ≡ (refusal e, s))
  unfolding install upgrade uninstall
  operations-refused id e s h = (rw h refl, rw h refl, rw h refl)
