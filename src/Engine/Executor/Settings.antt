-- ===== src/Engine/Executor/Settings.antt =====
-- The laws of the other settings for the engine's executor, from what the calls of Windows do.
use winforge.Prelude.{ℕ, ◌≡◌, Bool, not, ◌&&◌, Option, none, List, [], All, ◌⊎◌, ◌==◌}
use winforge.Text.{Text, codes, CaseTable, equal_fold}
use winforge.Errors.{Err, Result, ok}
use winforge.Service.{StartMode}
use winforge.Engine.Executor.{Windows, interface_path, netbt_interfaces_path}
use winforge.Tweak.Laws.{Makes}
use winforge.Tweak.Capture.{differs}

-- After a call that returned no error, the call that reads the setting finds what was set.
pub record WindowsSettings ⦃c : CaseTable⦄ {S : Type 0} (w : Windows S) : Type 0 where
  pub delete_key_tree :
      (hive path : Text) (s : S)
      → Makes not (w.key_exists hive path) (w.delete_key_tree hive path s)
  pub set_start_mode :
      (name : Text) (mode : StartMode) (s : S)
      → (w.services.set_start_mode name mode s).0 ≡ none
      → w.services.get_start_mode name (w.services.set_start_mode name mode s).1 ≡ ok mode
  pub set_active :
      (guid : Text) (s : S)
      → Makes (λ cur. equal_fold cur guid) w.power_active (w.power_set_active guid s)
  pub set_hibernate :
      (enable : Bool) (s : S)
      → Makes (λ cur. not (differs cur enable)) w.hibernate_enabled (w.set_hibernate enable s)
  pub set_processor_state :
      (min max : ℕ) (s : S)
      → Makes
          (λ (cur : ℕ × ℕ). cur.0 == min && cur.1 == max)
          w.processor_state
          (w.set_processor_state min max s)
  pub set_dword :
      (path option : Text) (value : ℕ) (s : S)
      → (w.set_dword (codes "HKLM") path option value s).0 ≡ none
      → w.dword (codes "HKLM") path option (w.set_dword (codes "HKLM") path option value s).1
        ≡ ok value
  -- another value is as it was, or is the same one under another name
  pub set_dword_elsewhere :
      (path other option : Text) (value : ℕ) (s : S)
      → let s' = (w.set_dword (codes "HKLM") path option value s).1 in
        (w.dword (codes "HKLM") other option s' ≡ w.dword (codes "HKLM") other option s)
        ⊎ (w.dword (codes "HKLM") other option s' ≡ ok value)
  pub set_dword_subkeys :
      (path option key : Text) (value : ℕ) (s : S)
      → w.enum_subkeys (codes "HKLM") key (w.set_dword (codes "HKLM") path option value s).1
        ≡ w.enum_subkeys (codes "HKLM") key s

module _ ⦃c : CaseTable⦄ {S : Type 0} (w : Windows S) (laws : WindowsSettings w) where
  abbrev option_at : Text → S → Result ℕ
  option_at name s = w.dword (codes "HKLM") (interface_path name) (codes "NetbiosOptions") s

  abbrev write_option : Text → ℕ → S → Option Err × S
  write_option name value s =
      w.set_dword (codes "HKLM") (interface_path name) (codes "NetbiosOptions") value s

  -- no error, and every interface has the value
  record AllSet (names : List Text) (value : ℕ) (errs : List Err) (s s' : S) : Type 0 where
    no_errors : errs ≡ []
    same_names :
        w.enum_subkeys (codes "HKLM") netbt_interfaces_path s'
        ≡ w.enum_subkeys (codes "HKLM") netbt_interfaces_path s
    kept : (name : Text) → option_at name s ≡ ok value → option_at name s' ≡ ok value
    written : All (λ name. option_at name s' ≡ ok value) names
