-- ===== src/Audit/Tests.antt =====
-- The log's theorems at a concrete store, and test runs.
use winforge.Prelude.{ℕ, ◌≤◌, true, false, none, some, [], ◌∷◌, ◌++◌, ◌≡◌, refl, length, arith}
use winforge.Text.{Text, codes, text_eq, text_lt}
use winforge.Errors.{Result, ok, err, bad_json}
use winforge.Config.{other_op}
use winforge.Audit.Entry.{Entry, no_type}
use winforge.Audit.Store.{File, Store, append, prune, total_size, max_read_bytes}
use winforge.Audit.Store.Bounds.{IsBounded, append-IsBounded, append-total}
use winforge.Audit.Store.Retention.{KeepsNewest, prune-KeepsNewest}
use winforge.Audit.Reader.{read_log, default_read_limits}
use winforge.Audit.Reader.Limits.{read_log-limit}
use winforge.Audit.Reader.Complete.{LineErrors, append-read_log}

-- an encoder that writes the id on a line, and its inverse
abbrev note : Text → Entry
note id = record {
  id = id;
  timestamp = some 5;
  operation_type = other_op [];
  target = [];
  previous_value = [];
  previous_value_captured = false;
  previous_value_exists = false;
  previous_value_type = no_type;
  new_value = [];
  success = true;
  error_message = none;
  can_undo = false;
  undo_of = [];
  tweak_id = [];
  registry_hive = [];
  registry_path = [];
  registry_name = [];
}

abbrev write_id : Entry → Result Text
write_id e = ok (e.id ++ codes "\n")

abbrev read_id : Text → Result Entry
read_id [] = err bad_json
read_id (c ∷ s) = ok (note (c ∷ s))

abbrev day : ℕ → Text
day t = codes "2026-01-02"

abbrev id_at : ℕ → ℕ → Text
id_at now n = codes "op-"

abbrev old_file : File
old_file = record {
  name = codes "operations-2026-01-01.jsonl";
  regular = true;
  content = codes "a\n";
}

abbrev store : Store
store = record { files = old_file ∷ []; now = 7; sequence = 0 }

append_ok : (append day write_id id_at (note (codes "b")) store).0 ≡ none
unfolding append text_eq text_lt
append_ok = refl

append-IsBounded_example : IsBounded (append day write_id id_at (note (codes "b")) store).1.files
append-IsBounded_example =
    append-IsBounded day write_id id_at (note (codes "b")) store (omega arith, tt)

append-total_example :
    total_size (append day write_id id_at (note (codes "b")) store).1.files ≤ max_read_bytes
append-total_example = append-total day write_id id_at (note (codes "b")) store append_ok

prune_ok : (prune (old_file ∷ [])).0 ≡ none
unfolding prune
prune_ok = refl

prune-KeepsNewest_example : KeepsNewest (old_file ∷ []) (prune (old_file ∷ [])).1
prune-KeepsNewest_example = prune-KeepsNewest (old_file ∷ []) prune_ok

read_log-limit_example : length (read_log read_id default_read_limits (old_file ∷ [])).0 ≤ 100000
read_log-limit_example = read_log-limit read_id default_read_limits (old_file ∷ [])

append-read_log_example :
    LineErrors
      (read_log read_id default_read_limits
        (append day write_id id_at (note (codes "b")) store).1.files).1
append-read_log_example =
    append-read_log read_id day write_id id_at (note (codes "b")) store append_ok
