-- ===== src/Tweak/Orchestrator.antt =====
-- internal/tweak/orchestrator.go: record and Apply. The mutex makes each of them one step.
pub mod DryRun
pub mod Counters
use winforge.Prelude.{
  ℕ, Bool, true, false, ◌&&◌, not, Option, none, some, List, [], ◌∷◌, ◌++◌, if◌then◌else◌,
}
use winforge.Text.{Text, CaseTable}
use winforge.Errors.{Err, wrapped}
use winforge.Config.{
  OpType, Operation, Tweak, registry_set_dword, registry_set_string, registry_set_qword,
  registry_delete,
}
use winforge.Audit.Entry.{Entry, Logger}
use winforge.Tweak.Executor.{Executor}
use winforge.Tweak.Effect.{Effect, TweakResult, tally}
use winforge.Tweak.Apply.{apply_op}

-- the state of the system and of the log
pub record World (S L : Type 0) : Type 0 where
  pub sys : S
  pub log : L

unfoldable pub is_registry_op : OpType → Bool
is_registry_op registry_set_dword = true
is_registry_op registry_set_string = true
is_registry_op registry_set_qword = true
is_registry_op registry_delete = true
is_registry_op _ = false

abbrev only_if : Bool → Text → Text
only_if b s = if b then s else []

abbrev pub succeeded : Option Err → Bool
succeeded none = true
succeeded (some e) = false

-- the entry that `record` hands to the log
unfoldable pub entry_of : Tweak → Operation → Effect → Bool → Entry
unfolding is_registry_op
entry_of t op eff can_undo = record {
  id = [];
  timestamp = none;
  operation_type = op.op_type;
  target = eff.target;
  previous_value = eff.previous_value;
  previous_value_captured = eff.previous_value_captured;
  previous_value_exists = eff.previous_value_exists;
  previous_value_type = eff.previous_value_type;
  new_value = eff.new_value;
  success = succeeded eff.error;
  error_message = eff.error;
  can_undo = can_undo;
  undo_of = [];
  tweak_id = t.id;
  registry_hive = only_if (is_registry_op op.op_type) op.hive;
  registry_path = only_if (is_registry_op op.op_type) op.path;
  registry_name = only_if (is_registry_op op.op_type) op.name;
}

abbrev pub warn : TweakResult → Option Err → TweakResult
warn res none = res
warn res (some e) = record res { warnings = res.warnings ++ wrapped e ∷ [] }

module _ {L : Type 0} where
  -- A nil logger disables auditing.
  unfoldable pub record_op :
      Option (Logger L) → Tweak → Operation → Effect → Bool → L → Option Err × L
  unfolding entry_of
  record_op none t op eff can_undo l = (none, l)
  record_op (some logger) t op eff can_undo l = logger.append (entry_of t op eff can_undo) l

  -- `if !dryRun && eff.attempted`, the operation is recorded
  unfoldable pub audit :
      Option (Logger L) → Tweak → Operation → Bool → Effect → TweakResult → L → TweakResult × L
  unfolding record_op
  audit logger t op dry_run eff res l =
      if not dry_run && eff.attempted
      then (let (e, l') =
            record_op logger t op eff
              (succeeded eff.error && (t.reversible && eff.previous_value_captured)) l in
          (warn res e, l'))
      else (res, l)

unfoldable pub new_result : Tweak → Bool → TweakResult
new_result t dry_run = record {
  tweak_id = t.id;
  dry_run = dry_run;
  effects = [];
  succeeded = 0;
  failed = 0;
  changed = 0;
  warnings = [];
}

module _ ⦃c : CaseTable⦄ {S L : Type 0} (E : Executor S) (logger : Option (Logger L)) where
  -- one round of the loop of Apply
  unfoldable pub apply_one :
      Tweak → Bool → Operation → TweakResult → World S L → TweakResult × World S L
  apply_one t dry_run op res w =
      let (eff, s) = apply_op E op dry_run w.sys in
      let (res', l) = audit logger t op dry_run eff (tally res eff) w.log in
      (res', record { sys = s; log = l })

  unfoldable pub apply_all :
      Tweak → Bool → List Operation → TweakResult → World S L → TweakResult × World S L
  apply_all t dry_run [] res w = (res, w)
  apply_all t dry_run (op ∷ ops) res w =
      let (res', w') = apply_one t dry_run op res w in apply_all t dry_run ops res' w'

  unfoldable pub apply : Tweak → Bool → World S L → TweakResult × World S L
  unfolding apply_all new_result
  apply t dry_run w = apply_all t dry_run t.operations (new_result t dry_run) w
