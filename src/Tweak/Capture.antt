-- ===== src/Tweak/Capture.antt =====
-- internal/tweak/orchestrator.go: what applyOp puts into an effect before the attempt.
use winforge.Prelude.{ℕ, Bool, true, false, ◌||◌, not, Option, none, some}
use winforge.Text.{Text, codes, text_eq, CaseTable}
use winforge.Errors.{Result, ok, ◌>>=◌}
use winforge.Config.{Operation}
use winforge.Config.Values.{string_value}
use winforge.Service.{parse_start_mode, mode_string}
use winforge.Audit.Entry.{ValueType, dword, qword, string}
use winforge.Tweak.Snapshot.{Snapshot}
use winforge.Tweak.Effect.{Effect, new_effect}

-- previousType == "dword" and the like
abbrev pub is_type : ValueType → ValueType → Bool
is_type dword dword = true
is_type qword qword = true
is_type string string = true
is_type _ _ = false

abbrev pub captured : Effect → ValueType → Text → Effect
captured eff type value = record eff {
  previous_value_captured = true;
  previous_value_exists = true;
  previous_value_type = type;
  previous_value = value;
}

abbrev pub of_snapshot : Effect → Snapshot → Effect
of_snapshot eff snap = record eff {
  previous_value_captured = true;
  previous_value_exists = snap.exists;
  previous_value_type = snap.value_type;
  previous_value = snap.value;
}

-- the effect of setting a value of a type, before the attempt
abbrev pub set_effect : Operation → ValueType → Text → Snapshot → Effect
set_effect op type new snap = record (of_snapshot (new_effect op) snap) {
  new_value = new;
  changed = not snap.exists || not (is_type snap.value_type type) || not (text_eq snap.value new);
}

abbrev pub delete_effect : Operation → Snapshot → Effect
delete_effect op snap = record (of_snapshot (new_effect op) snap) { changed = snap.exists }

-- the target of a processor state: a missing bound keeps the current one
abbrev pub or_current : Option ℕ → ℕ → ℕ
or_current none current = current
or_current (some v) current = v

abbrev pub bool_text : Bool → Text
bool_text true = codes "true"
bool_text false = codes "false"

abbrev pub differs : Bool → Bool → Bool
differs true b = not b
differs false b = b

module _ ⦃t : CaseTable⦄ where
  unfoldable pub normalized_service_start_mode : Operation → Result Text
  normalized_service_start_mode op = do
    value ← string_value op
    mode ← parse_start_mode value
    ok (mode_string mode)
