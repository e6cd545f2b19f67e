-- ===== src/Tweak/Tests.antt =====
-- The orchestrator's theorems at a concrete tweak, and test runs.
use winforge.Prelude.{true, false, none, some, List, [], ◌∷◌, ◌≡◌, ◌≤◌, refl, arith}
use winforge.Text.{codes, text_eq, trim_space}
use winforge.Decimal.{format_uint, parse_uint}
use winforge.Config.Values.{dword_value}
use winforge.Config.{Tweak, registry_set_dword}
use winforge.Audit.Entry.{Entry}
use winforge.Tweak.Snapshot.{registry_snapshot}
use winforge.Tweak.Snapshot.View.{snapshot_of, registry_snapshot-view}
use winforge.Tweak.Effect.{new_effect, commit, tally}
use winforge.Tweak.Apply.{set_value, apply_as, apply_op}
use winforge.Tweak.Orchestrator.{World, is_registry_op, apply, apply_one, audit, entry_of}
use winforge.Tweak.Orchestrator.DryRun.{apply_dry, apply_as_predicted}
use winforge.Tweak.Orchestrator.Counters.{Agrees, apply-Agrees}
use winforge.Tweak.UndoEntry.{undo_entry, restore_and_record, restore_entry, record_undo}
use winforge.Tweak.EntryCheck.{is_hive, validate_registry_entry_target}
use winforge.Tweak.UndoEntry.RoundTrip.{IsTargeted, place, put_back, restore_entry-apply_op}
use winforge.Tweak.UndoEntry.Restores.{entry, applied, undo_entry-apply_op}
use winforge.Tweak.Verify.{is_applied, is_verifiable, matches_as}
use winforge.Tweak.Verify.Idempotent.{apply-is_applied}
use winforge.Tweak.Health.{compute_health}
use winforge.Tweak.Health.Score.{compute_health_mono}
use winforge.Tweak.Verify.Applied.{apply_op-matches}
use winforge.Tweak.Laws.{reg_expand}
use winforge.Tweak.Sample.{
  Sys, ascii, memory, memory_view, memory-RegistryLaws, memory-SettingLaws, look, put, place_eq,
  fresh, set_start, tweak, list_log, world,
}

apply_dry_example : (apply memory (some list_log) tweak true world).1 ≡ world
apply_dry_example = apply_dry memory (some list_log) tweak world

apply-Agrees_example : Agrees 2 (apply memory (some list_log) tweak false world).0
apply-Agrees_example = apply-Agrees memory (some list_log) tweak false world

set_start_ok : (apply_op memory set_start false fresh).0.error ≡ none
unfolding apply_op set_value look put dword_value registry_snapshot text_eq format_uint place_eq
    new_effect
set_start_ok = refl

set_start-IsTargeted : IsTargeted set_start
unfolding is_registry_op is_hive trim_space
set_start-IsTargeted = record { on_value = refl; known_hive = refl; has_path = refl }

-- where the value is a REG_EXPAND_SZ
abbrev expandable : Sys
expandable = record fresh { values = λ p. some (reg_expand (codes "%windir%")) }

registry_snapshot-view_example :
    registry_snapshot memory (codes "HKLM") (codes "SYSTEM") (codes "Start") expandable
    ≡ snapshot_of
        (memory_view.expand expandable)
        (memory_view.mismatch (place set_start))
        (look (place set_start) expandable)
registry_snapshot-view_example =
    registry_snapshot-view memory memory_view memory-RegistryLaws (place set_start) expandable

apply_as_predicted_example :
    let plan = (apply_as memory registry_set_dword set_start true fresh).0 in
    let run = (apply_as memory registry_set_dword set_start false fresh).0 in
    (run.previous_value ≡ plan.previous_value)
    × (run.new_value ≡ plan.new_value)
    × (run.changed ≡ plan.changed)
    × (run.attempted ≡ plan.changed)
    × (plan.attempted ≡ false)
    × (plan.applied ≡ false)
apply_as_predicted_example = apply_as_predicted memory registry_set_dword set_start fresh

-- in the state that the operation reached
abbrev reached : Sys
reached = (apply_op memory set_start false fresh).1

reached_no_change : (apply_as memory registry_set_dword set_start true reached).0.changed ≡ false
unfolding apply_as apply_op set_value look put dword_value registry_snapshot text_eq format_uint
    place_eq new_effect commit
reached_no_change = refl

apply_op-matches_example :
    matches_as memory registry_set_dword set_start (apply_op memory set_start false fresh).1 ≡ true
unfolding is_verifiable
apply_op-matches_example =
    apply_op-matches memory memory_view memory-RegistryLaws memory-SettingLaws set_start fresh refl
      set_start_ok

-- the entry of the change to 4, undone in the world after it
undone :
    (undo_entry memory
      (some list_log)
      (entry memory tweak set_start fresh (codes "op") (some 0))
      (applied memory set_start fresh [])).0
    ≡ none
unfolding undo_entry restore_and_record restore_entry validate_registry_entry_target record_undo
    is_registry_op is_hive trim_space apply_op set_value look put dword_value registry_snapshot
    text_eq format_uint place_eq new_effect entry_of parse_uint
undone = refl

undo_entry-apply_op_example :
    look
      (place set_start)
      (undo_entry memory
        (some list_log)
        (entry memory tweak set_start fresh (codes "op") (some 0))
        (applied memory set_start fresh [])).1.sys
    ≡ look (place set_start) fresh
unfolding look text_eq
undo_entry-apply_op_example =
    undo_entry-apply_op memory memory_view memory-RegistryLaws (some list_log) tweak set_start
      (codes "op") (some 0) fresh [] set_start-IsTargeted tt set_start_ok undone (place set_start)

restore_entry-apply_op_example :
    restore_entry memory (entry memory tweak set_start fresh (codes "op") (some 0)) fresh
    ≡ put_back memory memory_view
        (memory_view.expand fresh)
        (place set_start)
        (look (place set_start) fresh)
        fresh
restore_entry-apply_op_example =
    restore_entry-apply_op memory memory_view memory-RegistryLaws tweak set_start (codes "op")
      (some 0) fresh fresh set_start-IsTargeted set_start_ok

abbrev started : Tweak
started = record tweak { operations = set_start ∷ [] }

abbrev after : World Sys (List Entry)
after = (apply memory (some list_log) started false world).1

is_applied_after : is_applied memory started after.sys ≡ true
unfolding is_applied apply apply_one audit apply_op set_value look put dword_value registry_snapshot
    text_eq format_uint place_eq new_effect tally
is_applied_after = refl

apply-is_applied_example : (apply memory (some list_log) started false after).1 ≡ after
apply-is_applied_example =
    apply-is_applied memory memory_view memory-RegistryLaws (some list_log) started after
      is_applied_after

compute_health_mono_example :
    (compute_health (tweak ∷ []) (λ id. false) 3).score
    ≤ (compute_health (tweak ∷ []) (λ id. text_eq id tweak.id) 2).score
compute_health_mono_example =
    compute_health_mono (tweak ∷ []) (λ id. false) (λ id. text_eq id tweak.id) 3 2 (λ id h. cc)
      (omega arith)
