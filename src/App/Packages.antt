-- ===== src/App/Packages.antt =====
-- internal/app/app.go: InstallPackage.
use winforge.Prelude.{
  ◌≡◌, refl, Bool, true, false, Option, none, some, List, [], ◌&&◌, ◌++◌, if◌then◌else◌,
}
use winforge.Text.{Text, codes}
use winforge.Errors.{
  Err, Result, ok, err, joined, disabled_while_elevated, packages_unavailable, no_install_result,
  install_unsuccessful,
}
use winforge.AppManager.{validate_package_id}
use winforge.AppManager.Report.{Outcome}
use winforge.Audit.Entry.{Entry, Logger}
use winforge.Tweak.UndoEntry.{is_nil}
use winforge.App.{
  RestorePoints, AppState, app_entry, audit_error, joined_errors, record_entry,
  ensure_restore_point,
}

abbrev pub failed_with : Err → Outcome
failed_with e = record { success = false; lines = []; error = some e }

-- What the installer returned: a result, or nil, and an error.
abbrev pub or_failed : Option Outcome → Option Err → Outcome × Option Err
or_failed (some r) e = (r, e)
or_failed none none = (failed_with no_install_result, some no_install_result)
or_failed none (some e) = (failed_with e, some e)

module _ (is_error : Err → Err → Bool) where
  -- `errors.Is` decides which of two errors has the other one in it
  abbrev pub both : Err → Err → Err
  both install result =
      if is_error result install
      then result
      else if is_error install result
      then install
      else joined install result

  abbrev pub with_error : Outcome → Option Err → Outcome × Option Err
  with_error r e = (record r { error = e }, e)

  abbrev reconcile_with : Outcome → Option Err → Option Err → Outcome × Option Err
  reconcile_with r none none = (r, none)
  reconcile_with r (some d) none = (r, some d)
  reconcile_with r none (some e) = with_error r (some e)
  reconcile_with r (some d) (some e) = with_error r (some (both e d))

  -- the switch of InstallPackage
  unfoldable pub reconcile : Outcome → Option Err → Outcome × Option Err
  reconcile r e = reconcile_with r r.error e

  abbrev check_success : Outcome × Option Err → Outcome × Option Err
  check_success (r, some e) = (r, some e)
  check_success (r, none) =
      if r.success then (r, none) else with_error r (some install_unsuccessful)

  unfoldable pub concluded : Option Outcome → Option Err → Outcome × Option Err
  unfolding reconcile
  concluded result e = let (r, e') = or_failed result e in check_success (reconcile r e')

  -- a result without an error is a success
  abbrev pub IsSuccess : Outcome × Option Err → Type 0
  IsSuccess (r, some e) = Unit
  IsSuccess (r, none) = (r.success ≡ true) × (r.error ≡ none)

  check_success-IsSuccess :
      (r : Outcome) (e : Option Err) → r.error ≡ e → IsSuccess (check_success (r, e))
  check_success-IsSuccess r (some e) h = tt
  check_success-IsSuccess r none h = succeeded r.success refl
    where
      succeeded :
          (b : Bool)
          → r.success ≡ b
          → IsSuccess (if b then (r, none) else with_error r (some install_unsuccessful))
      succeeded true e = (e, h)
      succeeded false e = tt

  reconcile-IsSuccess :
      (r : Outcome) (d e : Option Err)
      → r.error ≡ d
      → IsSuccess (check_success (reconcile_with r d e))
  reconcile-IsSuccess r none none h = check_success-IsSuccess r none h
  reconcile-IsSuccess r (some d) none h = tt
  reconcile-IsSuccess r none (some e) h = tt
  reconcile-IsSuccess r (some d) (some e) h = tt

  -- Where an installation ends without an error, its result reports success and no error.
  pub concluded-IsSuccess :
      (result : Option Outcome) (e : Option Err) → IsSuccess (concluded result e)
  unfolding concluded
  concluded-IsSuccess (some r) e = reconcile-IsSuccess r r.error e refl
  concluded-IsSuccess none none = tt
  concluded-IsSuccess none (some e) = tt

  module _ {W : Type 0} (logger : Option (Logger W)) (points : RestorePoints W) (auto : Bool)
      (installer : Option (Text → W → (Option Outcome × Option Err) × W)) where
    -- the entry of an installation
    abbrev install_entry : Text → Outcome × Option Err → Entry
    install_entry id (r, e) =
        record (app_entry (codes "package_install") id (codes "installed") e) {
          success = is_nil e && r.success;
        }

    abbrev pub recorded : Text → Outcome × Option Err → W → (Outcome × Option Err) × W
    recorded id (r, e) w =
        let (error, w') = record_entry logger (install_entry id (r, e)) w in
        ((r, joined_errors e (audit_error error)), w')

    abbrev pub installed :
        Text
        → (Text → W → (Option Outcome × Option Err) × W)
        → AppState W
        → (Outcome × Option Err) × AppState W
    installed id install a =
        let a1 =
          ensure_restore_point logger points auto (codes "WinForge: install package " ++ id) a in
        let ((result, e), w2) = install id a1.world in
        let (done, w3) = recorded id (concluded result e) w2 in (done, record a1 { world = w3 })

    abbrev pub install_with :
        Text
        → Result (Unit {0})
        → Option (Text → W → (Option Outcome × Option Err) × W)
        → AppState W
        → (Outcome × Option Err) × AppState W
    install_with id (err e) install a = ((failed_with e, some e), a)
    install_with id (ok u) none a =
        ((failed_with packages_unavailable, some packages_unavailable), a)
    install_with id (ok u) (some install) a = installed id install a

    -- InstallPackage
    unfoldable pub install_package :
        (elevated : Bool) → Text → AppState W → (Outcome × Option Err) × AppState W
    unfolding concluded ensure_restore_point app_entry
    install_package true id a =
        ((failed_with disabled_while_elevated, some disabled_while_elevated), a)
    install_package false id a = install_with id (validate_package_id id) installer a

-- SearchPackages; `search` is that of the package manager, where there is one
unfoldable pub search_packages :
    {W : Type 0}
    → Option (Text → W → Result (List Text) × W)
    → (elevated : Bool) → Text
    → W
    → Result (List Text) × W
search_packages search true query w = (err disabled_while_elevated, w)
search_packages none false query w = (err packages_unavailable, w)
search_packages (some search) false query w = search query w
