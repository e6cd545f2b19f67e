-- ===== src/Audit/Store/Bounds.antt =====
-- The sizes of the log files after Append.
use winforge.Prelude.{
  ℕ, zero, suc, ◌+◌, ◌-◌, ◌≤◌, ◌≡◌, refl, arith, Option, none, some, List, [], ◌∷◌, take, length,
  length-append, leb, ltb, inl, inr, All, Bool-cases,
}
use winforge.Text.{Text, text_eq, text_lt}
use winforge.Errors.{Err, os, segment_limit, entry_too_large, Result, ok, err}
use winforge.Audit.Entry.{Entry}
use winforge.Audit.Store.{
  File, Slot, not_regular, full, room, size, total_size, max_read_bytes, max_file_bytes, max_files,
  inspect, remove_oldest, prune_inspected, prune_scanned, prune, read_audit_directory, find_file,
  write_file, slot_of, log_segment_path, append_from, append_encoded, Store, identified, time_of,
  append_bytes, append,
}
use winforge.Audit.Store.Retention.{prune-KeepsNewest}

abbrev pub IsSmall : File → Type 0
IsSmall f = size f ≤ max_file_bytes

-- the invariant of the log directory
abbrev pub IsBounded : List File → Type 0
IsBounded fs = All IsSmall fs

pub remove_oldest-All :
    (P : File → Type 0) (total : ℕ) (fs : List File) → All P fs → All P (remove_oldest total fs)
unfolding remove_oldest
remove_oldest-All P total [] h = h
remove_oldest-All P total (f ∷ fs) (h, hs) =
    let rest = remove_oldest-All P (total - size f) fs hs in
    elim (Bool-cases (leb total max_read_bytes)) [
      | inl fits ↦ rw fits (h, hs)
      | inr over ↦ rw over rest
    ]

take-IsBounded : (n : ℕ) (fs : List File) → IsBounded fs → IsBounded (take n fs)
take-IsBounded zero fs h = tt
take-IsBounded (suc n) [] h = tt
take-IsBounded (suc n) (f ∷ fs) (h, hs) = (h, take-IsBounded n fs hs)

prune_inspected-IsBounded :
    (fs files : List File) (o : Option Err)
    → IsBounded fs
    → IsBounded files
    → IsBounded (prune_inspected fs files o).1
prune_inspected-IsBounded fs files (some e) h k = h
prune_inspected-IsBounded fs files none h k = remove_oldest-All IsSmall (total_size files) files k

prune_scanned-IsBounded :
    (fs files : List File) (o : Option Err)
    → IsBounded fs
    → IsBounded files
    → IsBounded (prune_scanned fs files o).1
prune_scanned-IsBounded fs files (some e) h k = h
prune_scanned-IsBounded fs files none h k = prune_inspected-IsBounded fs files (inspect files) h k

prune-IsBounded : (fs : List File) → IsBounded fs → IsBounded (prune fs).1
unfolding prune read_audit_directory
prune-IsBounded fs h =
    prune_scanned-IsBounded fs (take max_files fs) _ h (take-IsBounded max_files fs h)

-- the size of the file of that name, 0 if there is none
abbrev found_size : Option File → ℕ
found_size none = 0
found_size (some f) = size f

write_file-IsBounded :
    (name bytes : Text) (fs : List File)
    → IsBounded fs
    → found_size (find_file name fs) + length bytes ≤ max_file_bytes
    → length bytes ≤ max_file_bytes
    → IsBounded (write_file name bytes fs)
unfolding write_file
write_file-IsBounded name bytes [] h k l = (l, tt)
write_file-IsBounded name bytes (f ∷ fs) (h, hs) k l =
    let rest = write_file-IsBounded name bytes fs hs in
    elim (Bool-cases (text_eq f.name name)) [
      | inl same ↦ rw same (omega (arith, length-append f.content bytes, (rw same at k)), hs)
      | inr other ↦ elim (Bool-cases (text_lt name f.name)) [
        | inl before ↦ rw (other, before) (l, (h, hs))
        | inr after ↦ rw (other, after) (h, rest (rw other at k) l)
      ]
    ]

room-fits :
    (n : ℕ) (o : Option File)
    → n ≤ max_file_bytes
    → slot_of n o ≡ room
    → found_size o + n ≤ max_file_bytes
room-fits n none h k = omega arith
room-fits n (some f) h k = ground arith

-- Append refuses and leaves the files alone, or it writes to one file with room for it and prunes.
module _ (bytes : Text) (fs : List File) (P : Option Err × List File → Type 0)
    (refused : (e : Err) → P (some e, fs))
    (written : (name : Text)
      → found_size (find_file name fs) + length bytes ≤ max_file_bytes
      → P (prune (write_file name bytes fs))) where
  abbrev at_slot : Slot → Text → Option Err × List File → Option Err × List File
  at_slot sl path again = elim sl [
    | not_regular ↦ (some (os 1), fs)
    | full ↦ again
    | room ↦ prune (write_file path bytes fs)
  ]

  at_slot-outcome :
      (sl : Slot) (path : Text) (again : Option Err × List File)
      → (sl ≡ room → found_size (find_file path fs) + length bytes ≤ max_file_bytes)
      → P again
      → P (at_slot sl path again)
  at_slot-outcome not_regular path again fits p = refused (os 1)
  at_slot-outcome full path again fits p = p
  at_slot-outcome room path again fits p = written path (fits refl)

  append_from-outcome :
      (left : ℕ) (date : Text) → length bytes ≤ max_file_bytes → P (append_from left date bytes fs)
  unfolding append_from
  append_from-outcome zero date n = refused segment_limit
  append_from-outcome (suc left) date n =
      let path = log_segment_path date (10000 - suc left) in
      at_slot-outcome (slot_of (length bytes) (find_file path fs)) path _
        (room-fits (length bytes) (find_file path fs) n) (append_from-outcome left date n)

  pub append_encoded-outcome : (date : Text) → P (append_encoded date bytes fs)
  unfolding append_encoded
  append_encoded-outcome date = elim (Bool-cases (ltb max_file_bytes (length bytes))) [
    | inl large ↦ rw large (refused entry_too_large)
    | inr fits ↦ rw fits (append_from-outcome 10000 date (ground arith))
  ]

append_encoded-IsBounded :
    (date bytes : Text) (fs : List File) → IsBounded fs → IsBounded (append_encoded date bytes fs).1
append_encoded-IsBounded date bytes fs h =
    append_encoded-outcome bytes fs (λ r. IsBounded r.1) (λ e. h)
      (λ name fits.
        prune-IsBounded (write_file name bytes fs)
          (write_file-IsBounded name bytes fs h fits (omega arith)))
      date

append_encoded-total :
    (date bytes : Text) (fs : List File)
    → (append_encoded date bytes fs).0 ≡ none
    → total_size (append_encoded date bytes fs).1 ≤ max_read_bytes
append_encoded-total date bytes fs =
    append_encoded-outcome bytes fs (λ r. r.0 ≡ none → total_size r.1 ≤ max_read_bytes) (λ e h. cc)
      (λ name fits h. (prune-KeepsNewest (write_file name bytes fs) h).within) date

module _ (date : ℕ → Text) (encode : Entry → Result Text) (new_id : ℕ → ℕ → Text) where
  append_at-IsBounded :
      (r : Result Text) (t : ℕ) (l : Store)
      → IsBounded l.files
      → IsBounded (append_bytes date r t l).1.files
  append_at-IsBounded (err x) t l h = h
  append_at-IsBounded (ok bytes) t l h = append_encoded-IsBounded (date t) bytes l.files h

  append_at-total :
      (r : Result Text) (t : ℕ) (l : Store)
      → (append_bytes date r t l).0 ≡ none
      → total_size (append_bytes date r t l).1.files ≤ max_read_bytes
  append_at-total (err x) t l h = cc
  append_at-total (ok bytes) t l h = append_encoded-total (date t) bytes l.files h

  identified-files : (e : Entry) (l : Store) → (identified new_id e l).1.files ≡ l.files
  identified-files e l = ground arith

  -- Append keeps every log file within the limit for one file, whether it returns an error or not.
  pub append-IsBounded :
      (e : Entry) (l : Store)
      → IsBounded l.files
      → IsBounded (append date encode new_id e l).1.files
  unfolding append
  append-IsBounded e l h =
      let (e', l') = identified new_id e l in
      let t = time_of e' l' in
      append_at-IsBounded (encode (record e' { timestamp = some t })) t l'
        (rw (identified-files e l) h)

  -- After an Append that returns no error the whole history is within the bytes that ReadAll reads.
  pub append-total :
      (e : Entry) (l : Store)
      → (append date encode new_id e l).0 ≡ none
      → total_size (append date encode new_id e l).1.files ≤ max_read_bytes
  unfolding append
  append-total e l =
      let (e', l') = identified new_id e l in
      let t = time_of e' l' in append_at-total (encode (record e' { timestamp = some t })) t l'
