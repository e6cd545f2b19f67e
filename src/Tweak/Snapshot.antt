-- ===== src/Tweak/Snapshot.antt =====
-- internal/tweak/orchestrator.go: how previous values are written into the audit log and read back.
pub mod RoundTrip
pub mod View
use winforge.Prelude.{
  ℕ, ◌+◌, ◌-◌, ◌*◌, ◌^◌, Bool, true, false, ◌&&◌, ◌||◌, Option, none, some, List, [], ◌∷◌, ◌++◌,
  ltb, leb, ◌==◌, if◌then◌else◌,
}
use winforge.Text.{Text, codes, text_lt, cut_prefix, is_space}
use winforge.Decimal.{is_digit, format_uint, parse_uint}
use winforge.Errors.{
  Err, Result, ok, err, ◌>>=◌, join_from, wrapped, processor_snapshot_syntax,
  processor_snapshot_range,
}
use winforge.Audit.Entry.{ValueType, no_type, dword, qword, string, expand_string}
use winforge.Tweak.Executor.{Executor}

pub record Snapshot : Type 0 where
  pub value : Text
  pub value_type : ValueType
  pub exists : Bool

abbrev pub absent : Snapshot
absent = record { value = []; value_type = no_type; exists = false }

-- The errors of the reads that failed. Where all four find nothing, there is no value, unless a
-- read failed.
abbrev nothing_found : List Err → Result Snapshot
nothing_found [] = ok absent
nothing_found (e ∷ es) = err (wrapped (join_from e es))

-- One read: a value ends the search, an error is kept for the end.
abbrev pub try_read {ℓ} :
    {A : Type ℓ}
    → Result (Option A)
    → (A → Snapshot)
    → (List Err → Result Snapshot)
    → List Err
    → Result Snapshot
try_read (ok (some v)) found next errs = ok (found v)
try_read (ok none) found next errs = next errs
try_read (err e) found next errs = next (errs ++ e ∷ [])

abbrev pub present : ValueType → Text → Snapshot
present type value = record { value = value; value_type = type; exists = true }

-- the four reads, in the order in which they are tried
unfoldable pub first_found :
    Result (Option Text)
    → Result (Option Text)
    → Result (Option ℕ)
    → Result (Option ℕ)
    → Result Snapshot
first_found as_string as_expand as_dword as_qword =
    try_read as_string (present string)
      (try_read as_expand (present expand_string) (
        try_read as_dword (λ v. present dword (format_uint v))
          (try_read as_qword (λ v. present qword (format_uint v)) nothing_found)))
      []

module _ {S : Type 0} (E : Executor S) where
  unfoldable pub registry_snapshot : Text → Text → Text → S → Result Snapshot
  unfolding first_found
  registry_snapshot hive path name s =
      first_found (E.registry_get_string hive path name s)
        (E.registry_get_expand_string hive path name s) (E.registry_get_dword hive path name s)
        (E.registry_get_qword hive path name s)

  unfoldable pub value_exists : Text → Text → Text → S → Result Bool
  unfolding registry_snapshot
  value_exists hive path name s = do snap ← registry_snapshot hive path name s; ok snap.exists

unfoldable pub format_processor_state : ℕ → ℕ → Text
format_processor_state lo hi = codes "min=" ++ (format_uint lo ++ (codes ",max=" ++ format_uint hi))

-- fmt.Sscanf skips spaces before a number. A newline there is an error, unless the format has one;
-- a carriage return before a newline goes with it.
unfoldable pub skip_space : Text → Option Text
unfolding is_space
skip_space [] = some []
skip_space (c ∷ s) =
    let rest = skip_space s in if c == 10 then none else if is_space c then rest else some (c ∷ s)

-- the digits at the head of a text, and the rest
unfoldable pub span_digits : Text → Text × Text
span_digits [] = ([], [])
span_digits (c ∷ s) =
    let (ds, rest) = span_digits s in if is_digit c then (c ∷ ds, rest) else ([], c ∷ s)

abbrev read_digits : Text × Text → Option (ℕ × Text)
read_digits (ds, rest) = elim (parse_uint 64 ds) [
  | none ↦ none
  | some n ↦ if ltb n (2 ^ 32) then some (n, rest) else none
]

-- the verb %d into a uint32: at least one digit, and no overflow
unfoldable pub scan_uint32 : Text → Option (ℕ × Text)
unfolding skip_space span_digits
scan_uint32 s = elim (skip_space s) [ none ↦ none | some t ↦ read_digits (span_digits t) ]

abbrev then_read : Text → Option Text → Option (ℕ × Text)
then_read before none = none
then_read before (some s) = scan_uint32 s

abbrev pair_up : ℕ → Option (ℕ × Text) → Option (ℕ × ℕ)
pair_up lo none = none
pair_up lo (some (hi, rest)) = some (lo, hi)

abbrev scan_second : Option (ℕ × Text) → Option (ℕ × ℕ)
scan_second none = none
scan_second (some (lo, s)) = pair_up lo (then_read (codes ",max=") (cut_prefix (codes ",max=") s))

-- fmt.Sscanf(s, "min=%d,max=%d", &mn, &mx); what follows the second number is not looked at
unfoldable pub scan_processor_state : Text → Option (ℕ × ℕ)
unfolding cut_prefix scan_uint32
scan_processor_state s = scan_second (then_read (codes "min=") (cut_prefix (codes "min=") s))

abbrev check_snapshot : Option (ℕ × ℕ) → Result (ℕ × ℕ)
check_snapshot none = err processor_snapshot_syntax
check_snapshot (some (lo, hi)) =
    if ltb 100 lo || ltb 100 hi || ltb hi lo then err processor_snapshot_range else ok (lo, hi)

unfoldable pub parse_processor_state : Text → Result (ℕ × ℕ)
unfolding scan_processor_state
parse_processor_state s = check_snapshot (scan_processor_state s)

-- sort.Strings of the keys of a map: the keys differ, so the order decides their places
unfoldable pub insert_key : Text × ℕ → List (Text × ℕ) → List (Text × ℕ)
unfolding text_lt
insert_key entry [] = entry ∷ []
insert_key (k, v) ((j, w) ∷ m) =
    if text_lt k j then (k, v) ∷ (j, w) ∷ m else (j, w) ∷ insert_key (k, v) m

unfoldable pub sort_keys : List (Text × ℕ) → List (Text × ℕ)
unfolding insert_key
sort_keys [] = []
sort_keys (entry ∷ m) = insert_key entry (sort_keys m)

abbrev key_value : Text × ℕ → Text
key_value (k, v) = k ++ (codes "=" ++ format_uint v)

-- strings.Join(parts, ",")
abbrev join_parts : List (Text × ℕ) → Text
join_parts [] = []
join_parts (entry ∷ []) = key_value entry
join_parts (entry ∷ other ∷ m) = key_value entry ++ (codes "," ++ join_parts (other ∷ m))

abbrev listing : List (Text × ℕ) → Text
listing [] = codes "(no NetBT interfaces)"
listing (entry ∷ m) = join_parts (sort_keys (entry ∷ m))

unfoldable pub format_netbios_options : List (Text × ℕ) → Text
unfolding sort_keys
format_netbios_options m = listing m
