-- ===== src/Audit/Reader/Limits.antt =====
-- The limits of a read.
use winforge.Prelude.{
  ℕ, suc, ◌+◌, ◌-◌, ◌≤◌, ◌≡◌, refl, arith, Bool, true, false, List, [], ◌∷◌, ◌++◌, length,
  length-append, ltb, inl, inr, Bool-cases,
}
use winforge.Text.{Text, trim_space}
use winforge.Errors.{Err, Result, wrapped}
use winforge.Audit.Entry.{Entry}
use winforge.Audit.Store.{File, size, read_audit_directory}
use winforge.Audit.Reader.{
  Line, blank, over, bad, good, line_of, ReadLimits, Parsed, Reading, insert_entry, sort_entries,
  split_lines, parse_lines, read_file, continues, after_file, go_on, lesser, to_list, read_files,
  read_log, newest_first,
}

insert_entry-length : (e : Entry) (es : List Entry) → length (insert_entry e es) ≡ suc (length es)
unfolding insert_entry
insert_entry-length e [] = refl
insert_entry-length e (f ∷ fs) = ground (arith, insert_entry-length e fs)

sort_entries-length : (es : List Entry) → length (sort_entries es) ≡ length es
unfolding sort_entries
sort_entries-length [] = refl
sort_entries-length (e ∷ es) =
    omega (arith, insert_entry-length e (sort_entries es), sort_entries-length es)

abbrev pub at_line : Line → Parsed → Parsed → (Err → Parsed) → (Entry → Parsed) → Parsed
at_line ln on_blank on_over on_bad on_good = elim ln [
  | blank ↦ on_blank
  | over ↦ on_over
  | bad e ↦ on_bad e
  | good e ↦ on_good e
]

pub at_line-outcome :
    (P : Parsed → Type 0) (ln : Line) {on_blank on_over : Parsed} {on_bad : Err → Parsed}
    {on_good : Entry → Parsed}
    → P on_blank
    → P on_over
    → ((e : Err) → P (on_bad e))
    → ((e : Entry) → ln ≡ good e → P (on_good e))
    → P (at_line ln on_blank on_over on_bad on_good)
at_line-outcome P blank a b c d = a
at_line-outcome P over a b c d = b
at_line-outcome P (bad e) a b c d = c e
at_line-outcome P (good e) a b c d = d e refl

module _ (decode : Text → Result Entry) where
  good-room :
      (limit n : ℕ) (line : Text) (e : Entry) → line_of decode limit n line ≡ good e → n + 1 ≤ limit
  good-room limit n line e h = ground arith

  parse_lines-limit :
      (limit : ℕ) (ls : List Text) (out : List Entry) (n : ℕ) (errs : List Err)
      → length out ≡ n
      → n ≤ limit
      → length (parse_lines decode limit ls out n errs).entries ≤ limit
  unfolding parse_lines
  parse_lines-limit limit [] out n errs h k = omega arith
  parse_lines-limit limit (l ∷ ls) out n errs h k =
      let ln = line_of decode limit n (trim_space l) in
      at_line-outcome (λ p. length p.entries ≤ limit) ln (parse_lines-limit limit ls out n errs h k)
        (omega arith) (λ e. parse_lines-limit limit ls out n (errs ++ wrapped e ∷ []) h k)
        (λ e good_line.
          parse_lines-limit limit ls (e ∷ out) (n + 1) errs (omega arith)
            (good-room limit n (trim_space l) e good_line))

  read_file-limit :
      (f : File) (entries bytes : ℕ) → length (read_file decode f entries bytes).0.entries ≤ entries
  unfolding read_file
  read_file-limit f entries bytes = elim (Bool-cases (ltb bytes (size f))) [
    | inl large ↦ rw large (omega arith)
    | inr fits ↦
        rw fits (parse_lines-limit entries (split_lines f.content [] []) [] 0 [] refl (omega arith))
  ]

  abbrev InLimit : ReadLimits → Reading → Type 0
  InLimit limits r = length r.entries ≤ limits.entries

  after_file-limit :
      (limits : ReadLimits) (r : Reading) (file : Parsed × ℕ)
      → length file.0.entries ≤ limits.entries - length r.entries
      → InLimit limits r
      → InLimit limits (after_file limits r file).1
  after_file-limit limits r (p, consumed) h k = ground (arith, length-append r.entries p.entries)

  continues-limit :
      (limits : ReadLimits) (f : File) (r : Reading)
      → InLimit limits r
      → InLimit limits (continues decode limits f r).1
  continues-limit limits f r h =
      let bytes = lesser limits.file_bytes (limits.total_bytes - r.bytes_read) in
      let left = limits.entries - length r.entries in
      ground (
        arith,
        after_file-limit limits r (read_file decode f left bytes) (read_file-limit f left bytes) h,
      )

  go_on-limit :
      (limits : ReadLimits) (next : Bool × Reading) (rest : Reading → Reading)
      → InLimit limits next.1
      → ((r : Reading) → InLimit limits r → InLimit limits (rest r))
      → InLimit limits (go_on next rest)
  go_on-limit limits (true, r) rest h k = k r h
  go_on-limit limits (false, r) rest h k = h

  read_files-limit :
      (limits : ReadLimits) (fs : List File) (r : Reading)
      → InLimit limits r
      → InLimit limits (read_files decode limits fs r)
  unfolding read_files
  read_files-limit limits [] r h = h
  read_files-limit limits (f ∷ fs) r h =
      go_on-limit limits (continues decode limits f r) (read_files decode limits fs)
        (continues-limit limits f r h) (read_files-limit limits fs)

  -- However large the log directory is and whatever its files contain, ReadAll returns at most the
  -- limit of entries.
  pub read_log-limit :
      (limits : ReadLimits) (fs : List File) → length (read_log decode limits fs).0 ≤ limits.entries
  unfolding read_log
  read_log-limit limits fs =
      let (files, scan) = read_audit_directory fs in
      let start : Reading = record { entries = []; errors = to_list scan; bytes_read = 0 } in
      let r = read_files decode limits (newest_first files) start in
      ground (
        arith,
        sort_entries-length r.entries,
        read_files-limit limits (newest_first files) start (omega arith),
      )
