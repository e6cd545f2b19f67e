-- ===== src/Tweak/Effect.antt =====
-- internal/tweak/orchestrator.go: the outcome of one operation and of one tweak.
use winforge.Prelude.{
  ℕ, zero, suc, ◌+◌, Bool, true, false, ◌&&◌, ◌||◌, not, Option, none, some, List, [], ◌∷◌, ◌++◌,
  if◌then◌else◌,
}
use winforge.Text.{Text, codes}
use winforge.Errors.{Err, Result, ok, err, wrapped, join, failures}
use winforge.Config.{
  OpType, Operation, registry_set_dword, registry_set_string, registry_set_qword, registry_delete,
  registry_delete_key, service_start_mode, service_start, service_stop, task_disable, task_enable,
  task_delete, appx_remove, command, power_scheme, power_hibernate, power_processor_state, netbios,
  other_op,
}
use winforge.Config.Values.{string_value}
use winforge.Audit.Entry.{ValueType, no_type}
use winforge.Tweak.Executor.{Change}

-- The field Error is the text of `error`.
pub record Effect : Type 0 where
  pub operation_type : OpType
  pub target : Text
  pub previous_value : Text
  pub previous_value_captured : Bool
  pub previous_value_exists : Bool
  pub previous_value_type : ValueType
  pub new_value : Text
  pub changed : Bool
  pub applied : Bool
  pub error : Option Err
  pub attempted : Bool

pub record TweakResult : Type 0 where
  pub tweak_id : Text
  pub dry_run : Bool
  pub effects : List Effect
  pub succeeded : ℕ
  pub failed : ℕ
  pub changed : ℕ
  pub warnings : List Err

-- the loop of Failure over the effects
abbrev errors_of : List Effect → List Err
errors_of [] = []
errors_of (eff ∷ effs) = elim eff.error [
  | none ↦ errors_of effs
  | some e ↦ wrapped e ∷ errors_of effs
]

abbrev joined_or_count : List Err → Option Err
joined_or_count [] = some failures
joined_or_count (e ∷ es) = join (e ∷ es)

-- Result.Failure
unfoldable pub failure : TweakResult → Option Err
failure r = elim r.failed [ zero ↦ none | suc n ↦ joined_or_count (errors_of r.effects) ]

unfoldable pub effect_error : Effect → Err → Effect
effect_error eff e = record eff { error = some e }

-- A value that fails to decode is shown as an empty string.
abbrev text_or_empty : Result Text → Text
text_or_empty (ok s) = s
text_or_empty (err e) = []

abbrev pub target_of : OpType → Operation → Text
target_of registry_set_dword o = o.hive ++ (codes "\\" ++ (o.path ++ (codes "\\" ++ o.name)))
target_of registry_set_string o = o.hive ++ (codes "\\" ++ (o.path ++ (codes "\\" ++ o.name)))
target_of registry_set_qword o = o.hive ++ (codes "\\" ++ (o.path ++ (codes "\\" ++ o.name)))
target_of registry_delete o = o.hive ++ (codes "\\" ++ (o.path ++ (codes "\\" ++ o.name)))
target_of registry_delete_key o = o.hive ++ (codes "\\" ++ o.path)
target_of power_hibernate o = codes "power:hibernate"
target_of power_processor_state o = codes "power:processor_state"
target_of netbios o = codes "netbios:interfaces"
target_of service_start_mode o = codes "service:" ++ o.name
target_of service_start o = codes "service:" ++ o.name
target_of service_stop o = codes "service:" ++ o.name
target_of task_disable o = codes "task:" ++ o.path
target_of task_enable o = codes "task:" ++ o.path
target_of task_delete o = codes "task:" ++ o.path
target_of appx_remove o = codes "appx:" ++ o.name
target_of power_scheme o = codes "power:" ++ text_or_empty (string_value o)
target_of command o = codes "cmd:" ++ text_or_empty (string_value o)
target_of (other_op s) o = s

unfoldable pub op_target : Operation → Text
op_target o = target_of o.op_type o

-- Effect{OperationType: op.Type, Target: opTarget(op)}
unfoldable pub new_effect : Operation → Effect
unfolding op_target
new_effect o = record {
  operation_type = o.op_type;
  target = op_target o;
  previous_value = [];
  previous_value_captured = false;
  previous_value_exists = false;
  previous_value_type = no_type;
  new_value = [];
  changed = false;
  applied = false;
  error = none;
  attempted = false;
}

-- `if err != nil { return effectError(eff, err) }`, and otherwise the rest
abbrev pub or_effect {ℓ} :
    {S : Type 0} {A : Type ℓ} → Effect → Result A → (A → S → Effect × S) → S → Effect × S
or_effect eff (err e) rest s = (effect_error eff e, s)
or_effect eff (ok a) rest s = rest a s

abbrev pub settle : {S : Type 0} → Effect → Option Err × S → Effect × S
settle eff (some e, s) = (effect_error eff e, s)
settle eff (none, s) = (record eff { applied = true }, s)

-- The end of each case of applyOp: `if !dryRun && eff.Changed`, the attempt is marked and made.
unfoldable pub commit : {S : Type 0} → Bool → Effect → Change S → S → Effect × S
unfolding effect_error
commit dry_run eff change s =
    if not dry_run && eff.changed
    then settle (record eff { attempted = true }) (change s)
    else (eff, s)

-- the counters that Apply keeps
unfoldable pub tally : TweakResult → Effect → TweakResult
tally res eff = elim eff.error [
  | some e ↦ record res { effects = res.effects ++ eff ∷ []; failed = res.failed + 1 }
  | none ↦ record res {
    effects = res.effects ++ eff ∷ [];
    succeeded = res.succeeded + 1;
    changed = if eff.changed || eff.applied then res.changed + 1 else res.changed;
  }
]
