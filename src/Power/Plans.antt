-- ===== src/Power/Plans.antt =====
-- internal/power/power.go, power_windows.go: the plans, the active one, and the processor state, over
-- powercfg and the power API.
pub mod Processor
mod Tests
use winforge.Prelude.{
  ℕ, suc, ◌+◌, Bool, true, false, not, ◌&&◌, ◌||◌, Option, none, some, List, [], ◌∷◌, ◌++◌, any,
  take, ltb, ◌==◌, if◌then◌else◌,
}
use winforge.Text.{Text, codes, text_eq, trim_space, to_lower, equal_fold, CaseTable}
use winforge.Errors.{
  Err, Result, ok, err, ◌>>=◌, invalid_guid, no_scheme_guid, scheme_not_installed,
  processor_percent, processor_order,
}
use winforge.Decimal.{format_uint}
use winforge.AppManager.{split_at}
use winforge.Power.{is_guid, resolve, ultimate_clone}
use winforge.Power.Guid.{Win32Guid, guid_parts}

abbrev pub ultimate : Text
ultimate = codes "e9a42b02-d5df-448d-aa00-03f14749eb61"

abbrev pub sub_processor : Text
sub_processor = codes "54533251-82be-4824-96c1-47b60b740d00"

abbrev pub setting_min_proc : Text
setting_min_proc = codes "893dee8e-2bef-41e0-89c6-b55d0929964c"

abbrev pub setting_max_proc : Text
setting_max_proc = codes "bc5038f7-23e0-4960-96da-33abaf5935ec"

pub record Plan : Type 0 where
  pub guid : Text
  pub name : Text

-- the trimmed output of powercfg.exe, and the calls of powrprof.dll
pub record PowerApi (W : Type 0) : Type 0 where
  pub powercfg : List Text → W → Result Text × W
  pub active_scheme : W → Result Win32Guid
  pub read_ac : Win32Guid → Win32Guid → Win32Guid → W → Result ℕ
  pub write_ac : Win32Guid → Win32Guid → Win32Guid → ℕ → W → Option Err × W
  pub set_active_scheme : Win32Guid → W → Option Err × W

-- `guidRe.FindString`: the first place where a GUID begins
unfoldable pub find_guid : Text → Option Text
find_guid [] = none
find_guid (c ∷ s) =
    let rest = find_guid s in if is_guid (take 36 (c ∷ s)) then some (take 36 (c ∷ s)) else rest

-- what follows the first `c`, and what is before the last one
unfoldable pub after_first : ℕ → Text → Option Text
after_first c [] = none
after_first c (d ∷ s) = let rest = after_first c s in if d == c then some s else rest

abbrev pub prepend : ℕ → Bool → Option Text → Option Text
prepend d here (some s) = some (d ∷ s)
prepend d here none = if here then some [] else none

unfoldable pub before_last : ℕ → Text → Option Text
before_last c [] = none
before_last c (d ∷ s) = prepend d (d == c) (before_last c s)

abbrev between : Option Text → Text
between none = []
between (some s) = elim (before_last b')' s) [ none ↦ [] | some name ↦ trim_space name ]

-- the name of a plan stands in parentheses
unfoldable pub plan_name : Text → Text
unfolding after_first before_last
plan_name line = between (after_first b'(' line)

module _ ⦃c : CaseTable⦄ where
  -- the loop of list over the lines
  unfoldable pub plans_of : List Text → List Plan
  unfolding find_guid plan_name
  plans_of [] = []
  plans_of (line ∷ lines) = elim (find_guid line) [
    | none ↦ plans_of lines
    | some m ↦ record { guid = to_lower m; name = plan_name line } ∷ plans_of lines
  ]

  module _ {W : Type 0} (api : PowerApi W) where
    abbrev listed : Result Text × W → Result (List Plan) × W
    listed (err e, w) = (err e, w)
    listed (ok out, w) = (ok (plans_of (split_at b'\n' out)), w)

    -- List
    unfoldable pub list_plans : W → Result (List Plan) × W
    unfolding plans_of
    list_plans w = listed (api.powercfg (codes "/list" ∷ []) w)

    abbrev first_guid : Option Text → Result Text
    first_guid none = err no_scheme_guid
    first_guid (some m) = ok (to_lower m)

    abbrev found_active : Result Text × W → Result Text × W
    found_active (err e, w) = (err e, w)
    found_active (ok out, w) = (first_guid (find_guid out), w)

    -- Active
    unfoldable pub active : W → Result Text × W
    unfolding find_guid
    active w = found_active (api.powercfg (codes "/getactivescheme" ∷ []) w)

    abbrev error_only : Result Text × W → Option Err × W
    error_only (ok out, w) = (none, w)
    error_only (err e, w) = (some e, w)

    abbrev make_active : Text → W → Option Err × W
    make_active guid w = error_only (api.powercfg (codes "/setactive" ∷ guid ∷ []) w)

    abbrev then_active : Text → Result Text × W → Option Err × W
    then_active guid (err e, w) = (some e, w)
    then_active guid (ok out, w) = make_active guid w

    abbrev scheme_exists : Text → List Plan → Bool
    scheme_exists guid plans = any (λ p. text_eq p.guid guid) plans

    abbrev activate : Text → Result (List Plan) × W → Option Err × W
    activate guid (err e, w) = (some e, w)
    activate guid (ok plans, w) =
        if scheme_exists guid plans
        then make_active guid w
        else if not (equal_fold guid ultimate_clone)
        then (some scheme_not_installed, w)
        else then_active guid
            (api.powercfg (codes "/duplicatescheme" ∷ ultimate ∷ ultimate_clone ∷ []) w)

    abbrev activate_resolved : Result Text → W → Option Err × W
    activate_resolved (err e) w = (some e, w)
    activate_resolved (ok guid) w = activate guid (list_plans w)

    -- SetActive
    unfoldable pub set_active : Text → W → Option Err × W
    unfolding list_plans
    set_active scheme w = activate_resolved (resolve scheme) w

    abbrev set_index : Text → Text → Text → ℕ → W → Option Err × W
    set_index scheme subgroup setting value w = then_active (codes "SCHEME_CURRENT") (
        api.powercfg
          (codes "/setacvalueindex" ∷ scheme ∷ subgroup ∷ setting ∷ format_uint value ∷ []) w)

    -- SetAcValueIndex
    unfoldable pub set_ac_value_index : Text → Text → Text → ℕ → W → Option Err × W
    set_ac_value_index scheme subgroup setting value w =
        if not (equal_fold scheme (codes "SCHEME_CURRENT")) && not (is_guid scheme)
        then (some invalid_guid, w)
        else if not (is_guid subgroup)
        then (some invalid_guid, w)
        else if not (is_guid setting)
        then (some invalid_guid, w)
        else set_index scheme subgroup setting value w

-- GetProcessorState and SetProcessorState do not use the case tables.
module _ {W : Type 0} (api : PowerApi W) where
  abbrev pub read_setting : Win32Guid → Win32Guid → Text → W → Result ℕ
  read_setting scheme sub setting w = guid_parts setting >>= λ guid. api.read_ac scheme sub guid w

  -- GetProcessorState
  unfoldable pub get_processor_state : W → Result (ℕ × ℕ)
  get_processor_state w = do
    scheme ← api.active_scheme w
    sub ← guid_parts sub_processor
    min ← read_setting scheme sub setting_min_proc w
    max ← read_setting scheme sub setting_max_proc w
    ok (min, max)

  abbrev pub and_then : Option Err × W → (W → Option Err × W) → Option Err × W
  and_then (some e, w) next = (some e, w)
  and_then (none, w) next = next w

  abbrev pub with_guid : Result Win32Guid → W → (Win32Guid → W → Option Err × W) → Option Err × W
  with_guid (err e) w next = (some e, w)
  with_guid (ok guid) w next = next guid w

  abbrev pub write_setting : Win32Guid → Win32Guid → Text → ℕ → W → Option Err × W
  write_setting scheme sub setting value w =
      with_guid (guid_parts setting) w (λ guid. api.write_ac scheme sub guid value)

  abbrev pub write_state : ℕ → ℕ → Win32Guid → Win32Guid → W → Option Err × W
  write_state min max scheme sub w =
      and_then (write_setting scheme sub setting_min_proc min w) λ w1.
        and_then (write_setting scheme sub setting_max_proc max w1)
          λ w2. api.set_active_scheme scheme w2

  -- SetProcessorState
  unfoldable pub set_processor_state : ℕ → ℕ → W → Option Err × W
  set_processor_state min max w =
      if ltb 100 min || ltb 100 max
      then (some processor_percent, w)
      else if ltb max min
      then (some processor_order, w)
      else with_guid (api.active_scheme w) w
          λ scheme w1. with_guid (guid_parts sub_processor) w1 (write_state min max scheme)
