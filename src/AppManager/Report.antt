-- ===== src/AppManager/Report.antt =====
-- internal/appmanager/manager.go: Install, Upgrade, UpgradeAll, Uninstall and Search, and the output of
-- winget that they keep.
pub mod Limits
pub mod Checked
use winforge.Prelude.{
  ℕ, suc, ◌+◌, ◌≡◌, Bool, true, false, not, ◌&&◌, ◌||◌, Option, none, some, List, [], ◌∷◌, ◌++◌,
  length, ltb, leb, ◌==◌, if◌then◌else◌,
}
use winforge.Text.{Text, codes, CaseTable}
use winforge.Errors.{Err, Result, ok, err, join, winget_missing, report_limit, wrapped}
use winforge.AppManager.{byte_length, validate_package_id, validate_search_query}
use winforge.AppManager.Search.{MarkTable, parse_search_ids}

-- strings.TrimRight(s, "\r")
abbrev keep_return : ℕ → Text → Text
keep_return c [] = if c == 13 then [] else c ∷ []
keep_return c (d ∷ s) = c ∷ d ∷ s

unfoldable pub trim_returns : Text → Text
trim_returns [] = []
trim_returns (c ∷ s) = keep_return c (trim_returns s)

-- the variables of collectReportOutput
pub record Collected : Type 0 where
  pub lines : List Text
  pub output_bytes : ℕ
  pub over : Bool

-- outputBytes > byteLimit - lineBytes, which is on machine integers
abbrev pub no_room : (line_limit byte_limit : ℕ) → Collected → Text → Bool
no_room line_limit byte_limit c line =
    leb line_limit (length c.lines) || ltb byte_limit (c.output_bytes + suc (byte_length line))

abbrev pub keep_line : Collected → Text → Collected
keep_line c line = record {
  lines = c.lines ++ (line ∷ []);
  output_bytes = c.output_bytes + suc (byte_length line);
  over = false;
}

-- the loop body; a line is forwarded to `progress` when it is kept
unfoldable pub collect_line : (line_limit byte_limit : ℕ) → Collected → Text → Collected
collect_line line_limit byte_limit c line =
    if c.over || no_room line_limit byte_limit c line
    then record c { over = true }
    else keep_line c line

unfoldable pub collect_lines : (line_limit byte_limit : ℕ) → Collected → List Text → Collected
unfolding collect_line trim_returns
collect_lines line_limit byte_limit c [] = c
collect_lines line_limit byte_limit c (token ∷ tokens) =
    collect_lines line_limit byte_limit (collect_line line_limit byte_limit c (trim_returns token))
      tokens

abbrev pub no_lines : Collected
no_lines = record { lines = []; output_bytes = 0; over = false }

abbrev to_list {ℓ} : {A : Type ℓ} → Option A → List A
to_list none = []
to_list (some a) = a ∷ []

-- What bufio.Scanner makes of the pipe, and how the copy of the rest to io.Discard ends.
pub record Scanned : Type 0 where
  pub tokens : List Text
  pub scan_error : Option Err
  pub drain_error : Option Err

abbrev pub drained : Scanned → List Err
drained out = failed out.scan_error
  where
    failed : Option Err → List Err
    failed none = []
    failed (some e) = e ∷ to_list out.drain_error

-- collectReportOutput
unfoldable pub collect_report_output :
    Scanned → (line_limit byte_limit : ℕ) → List Text × Option Err
unfolding collect_lines
collect_report_output out line_limit byte_limit =
    let c = collect_lines line_limit byte_limit no_lines out.tokens in
    (c.lines, join ((if c.over then report_limit ∷ [] else []) ++ drained out))

-- Result
pub record Outcome : Type 0 where
  pub success : Bool
  pub lines : List Text
  pub error : Option Err

-- The calls of the operating system that report makes, over its state `S`, and the state of the context.
pub record Winget (S : Type 0) : Type 0 where
  pub look_path : S → Result Text × S
  pub absolute : Text → S → Result Text × S
  pub start_process : (path : Text) → (args : List Text) → S → Result (Unit {0}) × S
  pub read_output : S → Scanned × S
  pub wait : S → Option Err × S
  pub context_error : S → Option Err

module _ {S : Type 0} (os : Winget S) where
  abbrev pub joined_all : List (Option Err) → Option Err
  joined_all errors = join (flat errors)
    where
      flat : List (Option Err) → List Err
      flat [] = []
      flat (none ∷ es) = flat es
      flat (some e ∷ es) = e ∷ flat es

  abbrev pub is_nil : Option Err → Bool
  is_nil none = true
  is_nil (some e) = false

  -- the end of report: a context that ended decides before the errors do
  abbrev pub concluded :
      Option Err → List Text → (output wait : Option Err) → List Text × Bool × Option Err
  concluded (some e) lines output wait = (lines, false, joined_all (some e ∷ output ∷ wait ∷ []))
  concluded none lines output wait = let e = joined_all (output ∷ wait ∷ []) in (lines, is_nil e, e)

  abbrev pub read_report : S → (List Text × Bool × Option Err) × S
  read_report s0 =
      let (scanned, s1) = os.read_output s0 in
      let (lines, output) = collect_report_output scanned 10000 16777216 in
      let (wait, s2) = os.wait s1 in (concluded (os.context_error s2) lines output wait, s2)

  abbrev pub started : Result (Unit {0}) × S → (List Text × Bool × Option Err) × S
  started (err e, s) = (([], false, some e), s)
  started (ok u, s) = read_report s

  abbrev pub resolved : List Text → Result Text × S → (List Text × Bool × Option Err) × S
  resolved args (err e, s) = (([], false, some (wrapped e)), s)
  resolved args (ok path, s) = started (os.start_process path args s)

  abbrev pub looked_up : List Text → Result Text × S → (List Text × Bool × Option Err) × S
  looked_up args (err e, s) = (([], false, some winget_missing), s)
  looked_up args (ok path, s) = resolved args (os.absolute path s)

  -- report
  unfoldable pub report : List Text → S → (List Text × Bool × Option Err) × S
  unfolding collect_report_output
  report args s = looked_up args (os.look_path s)

  abbrev pub reported : (List Text × Bool × Option Err) × S → Outcome × S
  reported ((lines, success, error), s) =
      (record { success = success; lines = lines; error = error }, s)

  abbrev pub when_valid : Result (Unit {0}) → (args : List Text) → S → Outcome × S
  when_valid (err e) args s = (record { success = false; lines = []; error = some e }, s)
  when_valid (ok u) args s = reported (report args s)

  abbrev pub on_package : Text → (args : List Text) → S → Outcome × S
  on_package id args s = when_valid (validate_package_id id) args s

  unfoldable pub install : Text → S → Outcome × S
  unfolding report
  install id = on_package id (
      codes "install"
      ∷ codes "--id"
      ∷ id
      ∷ codes "--silent"
      ∷ codes "--accept-source-agreements"
      ∷ codes "--accept-package-agreements"
      ∷ codes "-e"
      ∷ [])

  unfoldable pub upgrade : Text → S → Outcome × S
  unfolding report
  upgrade id = on_package id (
      codes "upgrade"
      ∷ codes "--id"
      ∷ id
      ∷ codes "--silent"
      ∷ codes "--accept-source-agreements"
      ∷ codes "--accept-package-agreements"
      ∷ codes "-e"
      ∷ [])

  unfoldable pub upgrade_all : S → Outcome × S
  unfolding report
  upgrade_all s = reported (
      report
        (codes "upgrade"
          ∷ codes "--all"
          ∷ codes "--silent"
          ∷ codes "--accept-source-agreements"
          ∷ codes "--accept-package-agreements"
          ∷ [])
        s)

  unfoldable pub uninstall : Text → S → Outcome × S
  unfolding report
  uninstall id = on_package id (
      codes "uninstall"
      ∷ codes "--id"
      ∷ id
      ∷ codes "--silent"
      ∷ codes "--accept-source-agreements"
      ∷ codes "-e"
      ∷ [])

  module _ ⦃m : MarkTable⦄ ⦃t : CaseTable⦄ where
    abbrev search_result : (List Text × Bool × Option Err) × S → Result (List Text) × S
    search_result ((lines, success, some e), s) = (err e, s)
    search_result ((lines, success, none), s) = (ok (parse_search_ids lines), s)

    unfoldable pub search : Text → S → Result (List Text) × S
    unfolding report
    search query s = checked (validate_search_query query)
      where
        checked : Result (Unit {0}) → Result (List Text) × S
        checked (err e) = (err e, s)
        checked (ok u) = search_result (
            report
              (codes "search" ∷ codes "--query" ∷ query ∷ codes "--accept-source-agreements" ∷ [])
              s)
