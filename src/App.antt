-- ===== src/App.antt =====
-- internal/app/app.go: the catalogue that newApp builds, its state, and the restore points.
pub mod Catalogue
pub mod Operations
pub mod History
pub mod Health
pub mod Maintenance
pub mod Packages
pub mod Requests
mod Tests
use winforge.Prelude.{
  ℕ, suc, ◌+◌, ◌-◌, ◌≡◌, Bool, true, false, not, ◌&&◌, ◌||◌, Option, none, some, List, [], ◌∷◌,
  ◌++◌, ltb, leb, if◌then◌else◌,
}
use winforge.Text.{Text, codes, text_eq, CaseTable}
use winforge.Errors.{Err, Result, ok, ◌>>=◌, wrapped, joined}
use winforge.Config.{Tweak, other_op}
use winforge.Config.Catalogue.{validate}
use winforge.Audit.Entry.{Entry, Logger, no_type}
use winforge.Tweak.UndoEntry.{is_nil}
use winforge.Tweak.Executor.{Executor}
use winforge.Tweak.Effect.{TweakResult}
use winforge.Tweak.Orchestrator.{World, apply}
use winforge.Tweak.Revert.{undo}
use winforge.Plugin.{Files, merge_tweaks}
use winforge.Plugin.Discover.{Plugin, Host, discover}

-- `for _, p := range plugins { tweaks = plugin.MergeTweaks(tweaks, p.Tweaks) }`
unfoldable pub merge_plugins : List Tweak → List Plugin → List Tweak
merge_plugins tweaks [] = tweaks
merge_plugins tweaks (p ∷ plugins) = merge_plugins (merge_tweaks tweaks p.tweaks) plugins

module _ ⦃c : CaseTable⦄ (upper : ℕ → ℕ) {F : Type 0} (fs : Files F) (host : Host) where
  -- An elevated process ignores the plugins.
  abbrev pub plugins_of : Bool → Text → List Text → Result (List Plugin)
  plugins_of true root names = ok []
  plugins_of false root names = discover upper fs host root names

  -- the tweaks of newApp, from those that the loader decoded
  unfoldable pub app_tweaks :
      (elevated : Bool) → Text → List Text → List Tweak → Result (List Tweak)
  unfolding merge_plugins
  app_tweaks elevated root names decoded = do
    built_in ← validate upper decoded
    plugins ← plugins_of elevated root names
    ok (merge_plugins built_in plugins)

unfoldable pub find_tweak : Text → List Tweak → Option Tweak
find_tweak id [] = none
find_tweak id (t ∷ ts) = let rest = find_tweak id ts in if text_eq t.id id then some t else rest

-- the fields that App gives to an entry of its own; Append sets the id and the time
unfoldable pub app_entry : Text → Text → Text → Option Err → Entry
app_entry operation target new_value error = record {
  id = [];
  timestamp = none;
  operation_type = other_op operation;
  target = target;
  previous_value = [];
  previous_value_captured = false;
  previous_value_exists = false;
  previous_value_type = no_type;
  new_value = new_value;
  success = is_nil error;
  error_message = error;
  can_undo = false;
  undo_of = [];
  tweak_id = [];
  registry_hive = [];
  registry_path = [];
  registry_name = [];
}

-- restorepoint.Info
pub record RestorePointInfo : Type 0 where
  pub sequence_number : ℕ
  pub description : Text
  pub created_at : Option ℕ

-- What App calls of the restore points and of the clock; times are in seconds.
pub record RestorePoints (W : Type 0) : Type 0 where
  pub enabled : W → Bool
  pub now : W → ℕ
  pub creator : Text → W → (RestorePointInfo × Option Err) × W

-- The time of the last restore point is none for the zero time.
pub record AppState (W : Type 0) : Type 0 where
  pub world : W
  pub last_restore_point : Option ℕ

-- the error of a call to Append, as App wraps it
abbrev pub audit_error : Option Err → Option Err
audit_error none = none
audit_error (some e) = some (wrapped e)

-- errors.Join of two errors
abbrev pub joined_errors : Option Err → Option Err → Option Err
joined_errors none e = e
joined_errors (some e) none = some e
joined_errors (some e) (some d) = some (joined e d)

module _ {W : Type 0} (logger : Option (Logger W)) where
  -- appends an entry where there is a log
  abbrev pub record_entry : Entry → W → Option Err × W
  record_entry e w = elim logger [ none ↦ (none, w) | some log ↦ log.append e w ]

  module _ (points : RestorePoints W) where
    abbrev log_restore_point :
        Text
        → (RestorePointInfo × Option Err) × W
        → (RestorePointInfo × Option Err × Option Err) × W
    log_restore_point description ((info, create_error), w) =
        let (error, w') =
          record_entry (app_entry (codes "restore_point") (codes "system") description create_error)
            w in
        ((info, create_error, audit_error error), w')

    -- createRestorePoint, with its two errors
    unfoldable pub create_restore_point :
        Text → W → (RestorePointInfo × Option Err × Option Err) × W
    unfolding app_entry
    create_restore_point description w =
        log_restore_point description (points.creator description w)

    -- only a successful creation moves the time of the last one
    abbrev pub created : ℕ → Option ℕ → Option Err → Option ℕ
    created now last none = some now
    created now last (some e) = last

    -- CreateRestorePoint
    unfoldable pub app_create_restore_point :
        Text → AppState W → (RestorePointInfo × Option Err) × AppState W
    unfolding create_restore_point
    app_create_restore_point description a =
        let ((info, create_error, error), w) = create_restore_point description a.world in
        (
          (info, joined_errors create_error error),
          record {
            world = w;
            last_restore_point = created (points.now w) a.last_restore_point create_error;
          },
        )

    module _ (auto : Bool) where
      abbrev pub recent : (now : ℕ) → Option ℕ → Bool
      recent now none = false
      recent now (some last) = leb last now && ltb (now - last) 3600

      -- EnsureRestorePoint: at most one in an hour; `auto` is AutoRestorePoint
      unfoldable pub ensure_restore_point : Text → AppState W → AppState W
      unfolding create_restore_point
      ensure_restore_point description a =
          let now = points.now a.world in
          let ((info, create_error, error), w) = create_restore_point description a.world in
          if not auto || not (points.enabled a.world)
          then a
          else if recent now a.last_restore_point
          then a
          else record {
            world = w;
            last_restore_point = created now a.last_restore_point create_error;
          }
