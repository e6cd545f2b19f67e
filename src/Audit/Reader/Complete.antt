-- ===== src/Audit/Reader/Complete.antt =====
-- What ReadAll reports of a log that an Append left.
use winforge.Prelude.{
  ℕ, ◌+◌, ◌-◌, ◌≤◌, ◌≡◌, refl, arith, Bool, true, false, none, List, [], ◌∷◌, ◌++◌, length, leb,
  ltb, inl, inr, Bool-cases, All, All-append, take-all,
}
use winforge.Text.{Text, trim_space}
use winforge.Errors.{Err, Result, wrapped, joined, join, join_from, entry_limit}
use winforge.Audit.Entry.{Entry}
use winforge.Audit.Store.{
  File, Store, size, total_size, max_file_bytes, max_read_bytes, max_files, max_entries,
  read_audit_directory, append,
}
use winforge.Audit.Store.Readable.{IsReadable, IsReadableLog, append-IsReadableLog}
use winforge.Audit.Reader.{
  line_of, default_read_limits, Parsed, Reading, split_lines, parse_lines, read_file, continues,
  after_file, go_on, lesser, to_list, read_files, read_log, newest_first,
}
use winforge.Audit.Reader.Limits.{at_line-outcome}

-- A record that cannot be decoded, or the limit on the number of entries.
abbrev pub IsLineError : Err → Type 0
IsLineError (wrapped e) = Unit
IsLineError entry_limit = Unit
IsLineError (joined d e) = IsLineError d × IsLineError e
IsLineError _ = ⊥

abbrev pub LineErrors : List Err → Type 0
LineErrors es = All IsLineError es

LineErrors-snoc :
    (es : List Err) (e : Err) → LineErrors es → IsLineError e → LineErrors (es ++ e ∷ [])
LineErrors-snoc es e h k = All-append IsLineError es (e ∷ []) h (k, tt)

join_from-IsLineError :
    (e : Err) (es : List Err) → IsLineError e → LineErrors es → IsLineError (join_from e es)
join_from-IsLineError e [] h k = h
join_from-IsLineError e (d ∷ es) h (k, ks) = (h, join_from-IsLineError d es k ks)

join-LineErrors : (es : List Err) → LineErrors es → LineErrors (to_list (join es))
join-LineErrors [] h = tt
join-LineErrors (e ∷ es) (h, hs) = (join_from-IsLineError e es h hs, tt)

ltb-small : (a b : ℕ) → a ≤ b → ltb b a ≡ false
ltb-small a b h = ground arith

room-bytes :
    (n left read : ℕ)
    → n ≤ max_file_bytes
    → read + (n + left) ≤ max_read_bytes
    → n ≤ lesser max_file_bytes (max_read_bytes - read)
room-bytes n left read h k = ground arith

total_size-snoc : (fs : List File) (f : File) → total_size (fs ++ f ∷ []) ≡ total_size fs + size f
total_size-snoc [] f = omega arith
total_size-snoc (g ∷ fs) f = omega (arith, total_size-snoc fs f)

newest_first-total : (fs : List File) → total_size (newest_first fs) ≡ total_size fs
newest_first-total [] = refl
newest_first-total (f ∷ fs) =
    omega (arith, total_size-snoc (newest_first fs) f, newest_first-total fs)

newest_first-All : (fs : List File) → All IsReadable fs → All IsReadable (newest_first fs)
newest_first-All [] h = tt
newest_first-All (f ∷ fs) (h, hs) =
    All-append IsReadable (newest_first fs) (f ∷ []) (newest_first-All fs hs) (h, tt)

scan-whole : (fs : List File) → length fs ≤ max_files → read_audit_directory fs ≡ (fs, none)
unfolding read_audit_directory
scan-whole fs h = rw (take-all max_files fs h, ltb-small (length fs) max_files h) refl

module _ (decode : Text → Result Entry) where
  parse_lines-LineErrors :
      (limit : ℕ) (ls : List Text) (out : List Entry) (n : ℕ) (errs : List Err)
      → LineErrors errs
      → LineErrors (parse_lines decode limit ls out n errs).errors
  unfolding parse_lines
  parse_lines-LineErrors limit [] out n errs h = h
  parse_lines-LineErrors limit (l ∷ ls) out n errs h =
      at_line-outcome (λ p. LineErrors p.errors) (line_of decode limit n (trim_space l))
        (parse_lines-LineErrors limit ls out n errs h)
        (LineErrors-snoc errs (wrapped entry_limit) h tt)
        (λ e.
          parse_lines-LineErrors limit ls out n (errs ++ wrapped e ∷ [])
            (LineErrors-snoc errs (wrapped e) h tt))
        (λ e good_line. parse_lines-LineErrors limit ls (e ∷ out) (n + 1) errs h)

  -- a file that is small enough is read to its end
  record WholeFile (f : File) (file : Parsed × ℕ) : Type 0 where
    consumed : file.1 ≡ size f
    line_errors : LineErrors file.0.errors

  read_file-WholeFile :
      (f : File) (entries bytes : ℕ)
      → size f ≤ bytes
      → WholeFile f (read_file decode f entries bytes)
  unfolding read_file
  read_file-WholeFile f entries bytes h = elim (Bool-cases (ltb bytes (size f))) [
    | inl large ↦ absurd (ground arith)
    | inr fits ↦ rw fits (record {
      consumed = refl;
      line_errors = parse_lines-LineErrors entries (split_lines f.content [] []) [] 0 [] tt;
    })
  ]

  -- the reading so far, with `left` bytes of files still to come
  record OnCourse (left : ℕ) (r : Reading) : Type 0 where
    errors_of_lines : LineErrors r.errors
    enough : r.bytes_read + left ≤ max_read_bytes

  after_file-OnCourse :
      (f : File) (left : ℕ) (r : Reading) (file : Parsed × ℕ)
      → OnCourse (size f + left) r
      → WholeFile f file
      → OnCourse left (after_file default_read_limits r file).1
  after_file-OnCourse f left r (p, consumed) h k =
      elim (Bool-cases (ltb max_read_bytes (r.bytes_read + consumed))) [
        | inl large ↦ absurd (ground arith)
        | inr fits ↦ rw fits (record {
          errors_of_lines =
              All-append IsLineError r.errors (to_list (join p.errors)) h.errors_of_lines
                (join-LineErrors p.errors k.line_errors);
          enough = ground arith;
        })
      ]

  continues-OnCourse :
      (f : File) (left : ℕ) (r : Reading)
      → IsReadable f
      → OnCourse (size f + left) r
      → OnCourse left (continues decode default_read_limits f r).1
  unfolding read_file
  continues-OnCourse f left r (reg, small) h =
      let bytes = lesser max_file_bytes (max_read_bytes - r.bytes_read) in
      let entries = max_entries - length r.entries in
      let file = read_file decode f entries bytes in
      let after = after_file-OnCourse f left r file h (
        read_file-WholeFile f entries bytes
          (room-bytes (size f) left r.bytes_read small h.enough)) in
      rw
        (
          reg,
          ltb-small (size f) max_file_bytes small,
          ltb-small (r.bytes_read + size f) max_read_bytes (ground arith),
        )
        (elim (Bool-cases (leb max_entries (length r.entries))) [
          | inl full ↦ rw full (record {
            errors_of_lines = LineErrors-snoc r.errors entry_limit h.errors_of_lines tt;
            enough = ground arith;
          })
          | inr room ↦ rw room after
        ])

  go_on-LineErrors :
      (left : ℕ) (next : Bool × Reading) (rest : Reading → Reading)
      → OnCourse left next.1
      → ((r : Reading) → OnCourse left r → LineErrors (rest r).errors)
      → LineErrors (go_on next rest).errors
  go_on-LineErrors left (true, r) rest h k = k r h
  go_on-LineErrors left (false, r) rest h k = h.errors_of_lines

  read_files-LineErrors :
      (fs : List File) (r : Reading)
      → All IsReadable fs
      → OnCourse (total_size fs) r
      → LineErrors (read_files decode default_read_limits fs r).errors
  unfolding read_files
  read_files-LineErrors [] r h k = k.errors_of_lines
  read_files-LineErrors (f ∷ fs) r (h, hs) k =
      go_on-LineErrors (total_size fs) (continues decode default_read_limits f r)
        (read_files decode default_read_limits fs) (continues-OnCourse f (total_size fs) r h k)
        (λ r'. read_files-LineErrors fs r' hs)

  read_log-LineErrors :
      (fs : List File) → IsReadableLog fs → LineErrors (read_log decode default_read_limits fs).1
  unfolding read_log
  read_log-LineErrors fs h = rw (scan-whole fs h.few) (
      read_files-LineErrors (newest_first fs) (record { entries = []; errors = []; bytes_read = 0 })
        (newest_first-All fs h.every)
        (record { errors_of_lines = tt; enough = omega (arith, newest_first-total fs, h.within) }))

  -- After an Append that returns no error, ReadAll can fail only because a record cannot be decoded
  -- or because there are more entries than it reads: no file is refused, and no limit on bytes or on
  -- files is met.
  pub append-read_log :
      (date : ℕ → Text) (encode : Entry → Result Text) (new_id : ℕ → ℕ → Text) (e : Entry)
      (l : Store)
      → (append date encode new_id e l).0 ≡ none
      → LineErrors (read_log decode default_read_limits (append date encode new_id e l).1.files).1
  append-read_log date encode new_id e l h =
      read_log-LineErrors (append date encode new_id e l).1.files
        (append-IsReadableLog date encode new_id e l h)
