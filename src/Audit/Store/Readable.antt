-- ===== src/Audit/Store/Readable.antt =====
-- What an Append that returned no error leaves for ReadAll.
use winforge.Prelude.{
  ℕ, ◌-◌, ◌≤◌, ◌≡◌, refl, arith, true, Option, none, some, List, [], ◌∷◌, length, All, take,
  take-all,
}
use winforge.Text.{Text}
use winforge.Errors.{Err, Result, ok, err}
use winforge.Audit.Entry.{Entry}
use winforge.Audit.Store.{
  File, Store, size, total_size, max_file_bytes, max_read_bytes, max_files, inspect, remove_oldest,
  prune_inspected, prune_scanned, prune, read_audit_directory, write_file, append_encoded, append,
  append_bytes, identified, time_of,
}
use winforge.Audit.Store.Retention.{prune-KeepsNewest}
use winforge.Audit.Store.Bounds.{remove_oldest-All, append_encoded-outcome}

-- a log file that every check of ReadAll accepts
abbrev pub IsReadable : File → Type 0
IsReadable f = (f.regular ≡ true) × (size f ≤ max_file_bytes)

pub record IsReadableLog (fs : List File) : Type 0 where
  pub every : All IsReadable fs
  pub few : length fs ≤ max_files
  pub within : total_size fs ≤ max_read_bytes

inspect-All : (fs : List File) → inspect fs ≡ none → All IsReadable fs
inspect-All [] h = tt
inspect-All (f ∷ fs) h = (ground arith, inspect-All fs (ground arith))

remove_oldest-length : (total : ℕ) (fs : List File) → length (remove_oldest total fs) ≤ length fs
unfolding remove_oldest
remove_oldest-length total [] = omega arith
remove_oldest-length total (f ∷ fs) = ground (arith, remove_oldest-length (total - size f) fs)

prune_inspected-IsReadableLog :
    (fs : List File) (o : Option Err)
    → inspect fs ≡ o
    → length fs ≤ max_files
    → (prune_inspected fs fs o).0 ≡ none
    → total_size (prune_inspected fs fs o).1 ≤ max_read_bytes
    → IsReadableLog (prune_inspected fs fs o).1
prune_inspected-IsReadableLog fs (some e) h k n t = cc
prune_inspected-IsReadableLog fs none h k n t = record {
  every = remove_oldest-All IsReadable (total_size fs) fs (inspect-All fs h);
  few = omega (arith, remove_oldest-length (total_size fs) fs);
  within = t;
}

prune_scanned-IsReadableLog :
    (fs files : List File) (scan : Option Err)
    → (scan ≡ none → (files ≡ fs) × (length fs ≤ max_files))
    → (prune_scanned fs files scan).0 ≡ none
    → total_size (prune_scanned fs files scan).1 ≤ max_read_bytes
    → IsReadableLog (prune_scanned fs files scan).1
prune_scanned-IsReadableLog fs files (some e) k = λ h t. cc
prune_scanned-IsReadableLog fs files none k =
    rw (k refl).0 (prune_inspected-IsReadableLog fs (inspect fs) refl (k refl).1)

scan-few : (fs : List File) → (read_audit_directory fs).1 ≡ none → length fs ≤ max_files
unfolding read_audit_directory
scan-few fs h = ground arith

prune-IsReadableLog : (fs : List File) → (prune fs).0 ≡ none → IsReadableLog (prune fs).1
unfolding prune read_audit_directory
prune-IsReadableLog fs h =
    prune_scanned-IsReadableLog fs (take max_files fs) _
      (λ k. (take-all max_files fs (scan-few fs k), scan-few fs k)) h
      (prune-KeepsNewest fs h).within

append_encoded-IsReadableLog :
    (date bytes : Text) (fs : List File)
    → (append_encoded date bytes fs).0 ≡ none
    → IsReadableLog (append_encoded date bytes fs).1
append_encoded-IsReadableLog date bytes fs =
    append_encoded-outcome bytes fs (λ r. r.0 ≡ none → IsReadableLog r.1) (λ e h. cc)
      (λ name fits. prune-IsReadableLog (write_file name bytes fs)) date

module _ (date : ℕ → Text) (encode : Entry → Result Text) (new_id : ℕ → ℕ → Text) where
  append_bytes-IsReadableLog :
      (r : Result Text) (t : ℕ) (l : Store)
      → (append_bytes date r t l).0 ≡ none
      → IsReadableLog (append_bytes date r t l).1.files
  append_bytes-IsReadableLog (err x) t l h = cc
  append_bytes-IsReadableLog (ok bytes) t l h =
      append_encoded-IsReadableLog (date t) bytes l.files h

  pub append-IsReadableLog :
      (e : Entry) (l : Store)
      → (append date encode new_id e l).0 ≡ none
      → IsReadableLog (append date encode new_id e l).1.files
  unfolding append
  append-IsReadableLog e l =
      let (e', l') = identified new_id e l in
      let t = time_of e' l' in
      append_bytes-IsReadableLog (encode (record e' { timestamp = some t })) t l'
