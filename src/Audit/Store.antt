-- ===== src/Audit/Store.antt =====
-- internal/audit/audit.go: the log directory, Append and retention. The file system is a list of the
-- log files in the order of their names, in which calls on regular files do not fail; the mutex makes
-- each call one step.
pub mod Retention
pub mod Bounds
pub mod Readable
use winforge.Prelude.{
  ℕ, zero, suc, ◌+◌, ◌-◌, ◌*◌, ◌/◌, ◌%◌, Bool, true, false, not, ◌||◌, Option, none, some, List, [],
  ◌∷◌, ◌++◌, if◌then◌else◌, length, take, ltb, leb, ◌==◌,
}
use winforge.Text.{Text, codes, text_eq, text_lt, is_empty}
use winforge.Errors.{Err, Result, ok, err, wrapped, entry_too_large, segment_limit, file_limit, os}
use winforge.Audit.Entry.{Entry}

-- maxAuditFileBytes, maxAuditReadBytes, maxAuditEntries, maxAuditFiles
abbrev pub max_file_bytes : ℕ
max_file_bytes = 16777216

abbrev pub max_read_bytes : ℕ
max_read_bytes = 67108864

abbrev pub max_entries : ℕ
max_entries = 100000

abbrev pub max_files : ℕ
max_files = 10000

-- `regular` is false of a symbolic link, a directory and a special file.
pub record File : Type 0 where
  pub name : Text
  pub regular : Bool
  pub content : Text

abbrev pub size : File → ℕ
size f = length f.content

abbrev digit : ℕ → ℕ
digit n = n % 10 + b'0'

-- %04d, for the numbers below 10000
abbrev four_digits : ℕ → Text
four_digits n = digit (n / 1000) ∷ digit (n / 100) ∷ digit (n / 10) ∷ digit n ∷ []

-- logSegmentPath within the directory, for a formatted date
unfoldable pub log_segment_path : Text → ℕ → Text
log_segment_path date zero = codes "operations-" ++ (date ++ codes ".jsonl")
log_segment_path date (suc n) =
    codes "operations-" ++ (date ++ (codes "~" ++ (four_digits (suc n) ++ codes ".jsonl")))

abbrev pub find_file : Text → List File → Option File
find_file name [] = none
find_file name (f ∷ fs) = if text_eq f.name name then some f else find_file name fs

-- O_APPEND to an existing file, O_CREATE of a new one in its place among the names
unfoldable pub write_file : Text → Text → List File → List File
write_file name bytes [] = record { name = name; regular = true; content = bytes } ∷ []
write_file name bytes (f ∷ fs) =
    let rest = write_file name bytes fs in
    if text_eq f.name name
    then record f { content = f.content ++ bytes } ∷ fs
    else if text_lt name f.name
    then record { name = name; regular = true; content = bytes } ∷ f ∷ fs
    else f ∷ rest

-- readAuditDirectory: the log files, at most max_files of them
unfoldable pub read_audit_directory : List File → List File × Option Err
read_audit_directory fs =
    (take max_files fs, if ltb max_files (length fs) then some file_limit else none)

abbrev pub total_size : List File → ℕ
total_size [] = 0
total_size (f ∷ fs) = size f + total_size fs

-- the first loop of pruneLocked: every file is regular and within the limit
abbrev pub inspect : List File → Option Err
inspect [] = none
inspect (f ∷ fs) = if not f.regular || ltb max_file_bytes (size f) then some (os 1) else inspect fs

-- its second loop, with the size of the files that are left
unfoldable pub remove_oldest : ℕ → List File → List File
remove_oldest total [] = []
remove_oldest total (f ∷ fs) =
    let rest = remove_oldest (total - size f) fs in
    if leb total max_read_bytes then f ∷ fs else rest

abbrev pub prune_inspected : List File → List File → Option Err → Option Err × List File
prune_inspected fs files (some e) = (some e, fs)
prune_inspected fs files none = (none, remove_oldest (total_size files) files)

abbrev pub prune_scanned : List File → List File → Option Err → Option Err × List File
prune_scanned fs files (some e) = (some (wrapped e), fs)
prune_scanned fs files none = prune_inspected fs files (inspect files)

unfoldable pub prune : List File → Option Err × List File
unfolding read_audit_directory remove_oldest
prune fs = let (files, e) = read_audit_directory fs in prune_scanned fs files e

-- what a segment of Append finds under its path
pub data Slot : Type 0 where
  not_regular full room : Slot

abbrev pub slot_of : ℕ → Option File → Slot
slot_of n none = if ltb (max_file_bytes - n) 0 then full else room
slot_of n (some f) =
    if not f.regular then not_regular else if ltb (max_file_bytes - n) (size f) then full else room

-- The loop of Append; `left` segments are still to be tried, 10000 in all.
unfoldable pub append_from : (left : ℕ) → Text → Text → List File → Option Err × List File
unfolding prune write_file log_segment_path
append_from zero date bytes fs = (some segment_limit, fs)
append_from (suc left) date bytes fs =
    let path = log_segment_path date (10000 - suc left) in
    elim (slot_of (length bytes) (find_file path fs)) [
      | not_regular ↦ (some (os 1), fs)
      | full ↦ append_from left date bytes fs
      | room ↦ prune (write_file path bytes fs)
    ]

-- Append of an encoded entry
unfoldable pub append_encoded : Text → Text → List File → Option Err × List File
unfolding append_from
append_encoded date bytes fs =
    if ltb max_file_bytes (length bytes)
    then (some entry_too_large, fs)
    else append_from 10000 date bytes fs

-- The log directory, the clock and the sequence number of NewID.
pub record Store : Type 0 where
  pub files : List File
  pub now : ℕ
  pub sequence : ℕ

abbrev pub identified : (ℕ → ℕ → Text) → Entry → Store → Entry × Store
identified new_id e l =
    if is_empty e.id
    then (record e { id = new_id l.now (l.sequence + 1) }, record l { sequence = l.sequence + 1 })
    else (e, l)

abbrev pub time_of : Entry → Store → ℕ
time_of e l = elim e.timestamp [ some t ↦ t | none ↦ l.now ]

abbrev pub stored : Option Err × List File → Store → Option Err × Store
stored (e, fs) l = (e, record l { files = fs })

-- the rest of Append, from the result of the encoder
abbrev pub append_bytes : (ℕ → Text) → Result Text → ℕ → Store → Option Err × Store
append_bytes date (err x) t l = (some x, l)
append_bytes date (ok bytes) t l = stored (append_encoded (date t) bytes l.files) l

-- The parameters are time.Time.Format, the JSON encoder and the text that NewID prints.
module _ (date : ℕ → Text) (encode : Entry → Result Text) (new_id : ℕ → ℕ → Text) where
  unfoldable pub append : Entry → Store → Option Err × Store
  unfolding append_encoded
  append e l =
      let (e', l') = identified new_id e l in
      let t = time_of e' l' in append_bytes date (encode (record e' { timestamp = some t })) t l'
