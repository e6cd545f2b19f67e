-- ===== src/Audit/Reader.antt =====
-- internal/audit/audit.go: ReadAll. The files do not change while the mutex is held.
pub mod Limits
pub mod Complete
use winforge.Prelude.{
  ℕ, zero, suc, ◌+◌, ◌-◌, Bool, true, false, not, ◌||◌, Option, none, some, List, [], ◌∷◌, ◌++◌,
  if◌then◌else◌, length, ltb, leb, ◌==◌,
}
use winforge.Text.{Text, trim_space, is_empty}
use winforge.Errors.{Err, Result, ok, err, wrapped, join, read_limits, entry_limit, byte_limit, os}
use winforge.Audit.Entry.{Entry, Logger}
use winforge.Audit.Store.{
  File, size, max_file_bytes, max_read_bytes, max_entries, read_audit_directory, Store, append,
}

pub record ReadLimits : Type 0 where
  pub file_bytes : ℕ
  pub total_bytes : ℕ
  pub entries : ℕ

abbrev pub default_read_limits : ReadLimits
default_read_limits = record {
  file_bytes = max_file_bytes;
  total_bytes = max_read_bytes;
  entries = max_entries;
}

-- strings.Split(s, "\n"), the last line first; `line` is the line that is being read, reversed
abbrev reverse_onto : Text → Text → Text
reverse_onto [] r = r
reverse_onto (c ∷ s) r = reverse_onto s (c ∷ r)

unfoldable pub split_lines : Text → Text → List Text → List Text
split_lines [] line done = reverse_onto line [] ∷ done
split_lines (c ∷ s) line done = elim (c == b'\n') [
  | true ↦ split_lines s [] (reverse_onto line [] ∷ done)
  | false ↦ split_lines s (c ∷ line) done
]

-- what a reader of lines has: the entries in append order, its errors, and whether the limit on
-- entries was hit
pub record Parsed : Type 0 where
  pub entries : List Entry
  pub errors : List Err
  pub limited : Bool

-- what readAll has after some files
pub record Reading : Type 0 where
  pub entries : List Entry
  pub errors : List Err
  pub bytes_read : ℕ

-- The zero time is before every other.
abbrev before : Option ℕ → Option ℕ → Bool
before none none = false
before none (some t) = true
before (some s) none = false
before (some s) (some t) = ltb s t

unfoldable pub insert_entry : Entry → List Entry → List Entry
insert_entry e [] = e ∷ []
insert_entry e (f ∷ fs) =
    let rest = insert_entry e fs in if before f.timestamp e.timestamp then f ∷ rest else e ∷ f ∷ fs

-- sort.SliceStable
unfoldable pub sort_entries : List Entry → List Entry
unfolding insert_entry
sort_entries [] = []
sort_entries (e ∷ es) = insert_entry e (sort_entries es)

abbrev pub add_error : Reading → Err → Reading
add_error r e = record r { errors = r.errors ++ e ∷ [] }

abbrev pub to_list : Option Err → List Err
to_list none = []
to_list (some e) = e ∷ []

-- what readAll keeps of a file that was read
abbrev pub add_file : Reading → Parsed × ℕ → Reading
add_file r (p, consumed) = record {
  entries = r.entries ++ p.entries;
  errors = r.errors ++ to_list (join p.errors);
  bytes_read = r.bytes_read + consumed;
}

abbrev pub lesser : ℕ → ℕ → ℕ
lesser a b = if ltb b a then b else a

-- the checks of a round of readAll after the file was read
abbrev pub after_file : ReadLimits → Reading → Parsed × ℕ → Bool × Reading
after_file limits r file =
    let r' = add_file r file in
    if ltb limits.total_bytes r'.bytes_read
    then (false, add_error r' byte_limit)
    else (not file.0.limited, r')

abbrev pub go_on : Bool × Reading → (Reading → Reading) → Reading
go_on (true, r) rest = rest r
go_on (false, r) rest = r

abbrev pub newest_first : List File → List File
newest_first [] = []
newest_first (f ∷ fs) = newest_first fs ++ f ∷ []

-- what a line of a log file is to its reader
pub data Line : Type 0 where
  blank over : Line
  bad : Err → Line
  good : Entry → Line

abbrev pub decoded : Result Entry → Line
decoded (err e) = bad e
decoded (ok e) = good e

abbrev pub line_of : (Text → Result Entry) → ℕ → ℕ → Text → Line
line_of decode limit n line =
    if is_empty line then blank else if leb limit n then over else decoded (decode line)

-- `decode` is json.Unmarshal of one line.
module _ (decode : Text → Result Entry) where
  -- the loop of readFile over the lines, newest first; `n` entries are in `out`
  unfoldable pub parse_lines : (limit : ℕ) → List Text → List Entry → ℕ → List Err → Parsed
  parse_lines limit [] out n errs = record { entries = out; errors = errs; limited = false }
  parse_lines limit (l ∷ ls) out n errs = elim (line_of decode limit n (trim_space l)) [
    | blank ↦ parse_lines limit ls out n errs
    | over ↦ record { entries = out; errors = errs ++ wrapped entry_limit ∷ []; limited = true }
    | bad e ↦ parse_lines limit ls out n (errs ++ wrapped e ∷ [])
    | good e ↦ parse_lines limit ls (e ∷ out) (n + 1) errs
  ]

  -- readFile, with the bytes that it consumed
  unfoldable pub read_file : File → ℕ → ℕ → Parsed × ℕ
  unfolding parse_lines split_lines
  read_file f entries bytes =
      if ltb bytes (size f)
      then (record { entries = []; errors = byte_limit ∷ []; limited = false }, bytes + 1)
      else (parse_lines entries (split_lines f.content [] []) [] 0 [], size f)

  -- How a round of the loop of readAll goes on: with the older files, or not.
  abbrev pub continues : ReadLimits → File → Reading → Bool × Reading
  continues limits f r =
      if not f.regular
      then (true, add_error r (os 1))
      else if ltb limits.file_bytes (size f)
      then (true, add_error r byte_limit)
      else if ltb limits.total_bytes (r.bytes_read + size f)
      then (false, add_error r byte_limit)
      else if leb limits.entries (length r.entries)
      then (false, add_error r entry_limit)
      else after_file limits r (
          read_file f (limits.entries - length r.entries)
            (lesser limits.file_bytes (limits.total_bytes - r.bytes_read)))

  -- the loop of readAll over the files, newest first
  unfoldable pub read_files : ReadLimits → List File → Reading → Reading
  unfolding read_file
  read_files limits [] r = r
  read_files limits (f ∷ fs) r = go_on (continues limits f r) (read_files limits fs)

  -- readAll with its errors in a list. A missing directory is one without files.
  unfoldable pub read_log : ReadLimits → List File → List Entry × List Err
  unfolding read_files sort_entries
  read_log limits fs =
      if limits.file_bytes == 0 || (limits.total_bytes == 0 || limits.entries == 0)
      then ([], read_limits ∷ [])
      else (let (files, scan) = read_audit_directory fs in
          let r =
            read_files limits (newest_first files)
              (record { entries = []; errors = to_list scan; bytes_read = 0 }) in
          (sort_entries r.entries, r.errors))

  unfoldable pub read_all : Store → List Entry × Option Err
  unfolding read_log
  read_all l =
      let (entries, errors) = read_log default_read_limits l.files in (entries, join errors)

-- the operations that clients use
abbrev pub file_logger :
    (ℕ → Text) → (Entry → Result Text) → (Text → Result Entry) → (ℕ → ℕ → Text) → Logger Store
file_logger date encode decode new_id = record {
  append = append date encode new_id;
  read_all = read_all decode;
}
