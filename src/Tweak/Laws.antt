-- ===== src/Tweak/Laws.antt =====
-- What the orchestrator relies on of an executor, stated over a view of the registry. The engine's
-- executor calls the Windows API, whose documented behaviour these are: a read of a value of
-- another type is an error, except that RegGetValueW, asked for REG_SZ without RRF_NOEXPAND, expands a
-- REG_EXPAND_SZ; and a call that returns no error has done what it says.
use winforge.Prelude.{
  ℕ, ◌^◌, ◌<◌, Bool, true, not, ◌&&◌, Option, none, some, List, ◌≡◌, all, ◌==◌, if◌then◌else◌,
}
use winforge.Text.{Text, CaseTable, equal_fold}
use winforge.Errors.{Err, Result, ok, err}
use winforge.Service.{StartMode, mode_string}
use winforge.Power.{resolve}
use winforge.Tweak.Executor.{Executor}
use winforge.Tweak.Capture.{differs}
use winforge.Tweak.Verify.{holds}

-- A registry value by its type: REG_DWORD, REG_QWORD, REG_SZ, REG_EXPAND_SZ, and any other.
pub data RegValue : Type 0 where
  reg_dword reg_qword : ℕ → RegValue
  reg_string reg_expand : Text → RegValue
  reg_other : RegValue

pub record Place : Type 0 where
  pub hive : Text
  pub path : Text
  pub name : Text

abbrev pub InRange : RegValue → Type 0
InRange (reg_dword v) = v < 2 ^ 32
InRange (reg_qword v) = v < 2 ^ 64
InRange _ = Unit

abbrev pub InRangeOption : Option RegValue → Type 0
InRangeOption none = Unit
InRangeOption (some v) = InRange v

-- what a read for one type returns; `mismatch` is the error for a value of another type
abbrev pub read_dword : (RegValue → Err) → Option RegValue → Result (Option ℕ)
read_dword mismatch none = ok none
read_dword mismatch (some (reg_dword v)) = ok (some v)
read_dword mismatch (some v) = err (mismatch v)

abbrev pub read_qword : (RegValue → Err) → Option RegValue → Result (Option ℕ)
read_qword mismatch none = ok none
read_qword mismatch (some (reg_qword v)) = ok (some v)
read_qword mismatch (some v) = err (mismatch v)

-- A read for REG_SZ takes a REG_EXPAND_SZ too, and returns its text with the variables expanded.
abbrev pub read_string : (Text → Text) → (RegValue → Err) → Option RegValue → Result (Option Text)
read_string expand mismatch none = ok none
read_string expand mismatch (some (reg_string v)) = ok (some v)
read_string expand mismatch (some (reg_expand v)) = ok (some (expand v))
read_string expand mismatch (some v) = err (mismatch v)

abbrev pub read_expand : (RegValue → Err) → Option RegValue → Result (Option Text)
read_expand mismatch none = ok none
read_expand mismatch (some (reg_expand v)) = ok (some v)
read_expand mismatch (some v) = err (mismatch v)

abbrev pub Change : Type 0 → Type 0
Change S = Option Err × S

-- `same` tells which places name one value: the registry ignores case. `expand` replaces the names of
-- environment variables in a text by their values, and `mismatch` is the error of a read for another
-- type.
pub record RegistryView (S : Type 0) : Type 0 where
  pub view : Place → S → Option RegValue
  pub same : Place → Place → Bool
  pub mismatch : Place → RegValue → Err
  pub expand : S → Text → Text

-- After a write that returns no error the value is there, and no other value has changed.
abbrev pub Writes : {S : Type 0} → RegistryView S → Place → Option RegValue → S → Change S → Type 0
Writes V p value s (e, s') =
    (q : Place) → e ≡ none → V.view q s' ≡ (if V.same p q then value else V.view q s)

pub record RegistryLaws {S : Type 0} (E : Executor S) (V : RegistryView S) : Type 0 where
  pub same_refl : (p : Place) → V.same p p ≡ true
  pub same_view : (p q : Place) (s : S) → V.same p q ≡ true → V.view q s ≡ V.view p s
  pub in_range : (p : Place) (s : S) → InRangeOption (V.view p s)
  pub get_string :
      (p : Place) (s : S)
      → E.registry_get_string p.hive p.path p.name s
        ≡ read_string (V.expand s) (V.mismatch p) (V.view p s)
  pub get_expand_string :
      (p : Place) (s : S)
      → E.registry_get_expand_string p.hive p.path p.name s
        ≡ read_expand (V.mismatch p) (V.view p s)
  pub get_dword :
      (p : Place) (s : S)
      → E.registry_get_dword p.hive p.path p.name s ≡ read_dword (V.mismatch p) (V.view p s)
  pub get_qword :
      (p : Place) (s : S)
      → E.registry_get_qword p.hive p.path p.name s ≡ read_qword (V.mismatch p) (V.view p s)
  pub set_dword :
      (p : Place) (v : ℕ) (s : S)
      → Writes V p (some (reg_dword v)) s (E.registry_set_dword p.hive p.path p.name v s)
  pub set_qword :
      (p : Place) (v : ℕ) (s : S)
      → Writes V p (some (reg_qword v)) s (E.registry_set_qword p.hive p.path p.name v s)
  pub set_string :
      (p : Place) (v : Text) (s : S)
      → Writes V p (some (reg_string v)) s (E.registry_set_string p.hive p.path p.name v s)
  pub set_expand_string :
      (p : Place) (v : Text) (s : S)
      → Writes V p (some (reg_expand v)) s (E.registry_set_expand_string p.hive p.path p.name v s)
  pub delete_value :
      (p : Place) (s : S) → Writes V p none s (E.registry_delete_value p.hive p.path p.name s)

-- What a change that returns no error has made true of a read.
abbrev pub Makes {ℓ} : {S : Type 0} {A : Type ℓ} → (A → Bool) → (S → Result A) → Change S → Type 0
Makes test read (e, s') = e ≡ none → holds (read s') test ≡ true

-- The same for the other settings that the orchestrator can read back: a start mode in the words that
-- it is read in, and a power scheme by the GUID that a name resolves to.
pub record SettingLaws ⦃c : CaseTable⦄ {S : Type 0} (E : Executor S) : Type 0 where
  pub delete_key_tree :
      (hive path : Text) (s : S)
      → Makes not (E.registry_key_exists hive path) (E.registry_delete_key_tree hive path s)
  pub set_start_mode :
      (name : Text) (mode : StartMode) (s : S)
      → Makes
          (λ cur. equal_fold cur (mode_string mode))
          (E.service_get_start_mode name)
          (E.service_set_start_mode name (mode_string mode) s)
  pub set_active :
      (value guid : Text) (s : S)
      → resolve value ≡ ok guid
      → Makes (λ cur. equal_fold cur guid) E.power_get_active (E.power_set_active guid s)
  pub set_hibernate :
      (enable : Bool) (s : S)
      → Makes
          (λ cur. not (differs cur enable))
          E.power_hibernate_enabled
          (E.power_set_hibernate enable s)
  pub set_processor_state :
      (min max : ℕ) (s : S)
      → Makes
          (λ (cur : ℕ × ℕ). cur.0 == min && cur.1 == max)
          E.power_get_processor_state
          (E.power_set_processor_state min max s)
  pub set_netbios :
      (value : ℕ) (s : S)
      → Makes
          (λ (cur : List (Text × ℕ)). all (λ entry. entry.1 == value) cur)
          E.netbios_get_options
          (E.netbios_set_options value s)
