-- ===== src/Audit/Store/Retention.antt =====
-- What pruneLocked keeps.
use winforge.Prelude.{
  ℕ, zero, suc, ◌+◌, ◌-◌, ◌≤◌, ◌<◌, ◌≡◌, refl, arith, Option, none, some, List, [], ◌∷◌, drop, take,
  leb, Bool-cases, inl, inr, take-all, leb→le,
}
use mathlib.Core.Path.{subst}
use winforge.Errors.{Err}
use winforge.Audit.Store.{
  File, size, total_size, max_read_bytes, max_files, inspect, remove_oldest, prune_inspected,
  prune_scanned, prune, read_audit_directory,
}

-- `kept` is `files` without its oldest files, and no more of them are gone than the bound asks for.
pub record KeepsNewest (files kept : List File) : Type 0 where
  pub removed : ℕ
  pub is_suffix : kept ≡ drop removed files
  pub within : total_size kept ≤ max_read_bytes
  pub needed : (j : ℕ) → j < removed → max_read_bytes < total_size (drop j files)

KeepsNewest-none : (fs : List File) → total_size fs ≤ max_read_bytes → KeepsNewest fs fs
KeepsNewest-none fs h = record {
  removed = 0;
  is_suffix = refl;
  within = h;
  needed = λ j k. omega arith;
}

KeepsNewest-one :
    (f : File) (fs kept : List File)
    → max_read_bytes < total_size (f ∷ fs)
    → KeepsNewest fs kept
    → KeepsNewest (f ∷ fs) kept
KeepsNewest-one f fs kept h k = record {
  removed = suc k.removed;
  is_suffix = k.is_suffix;
  within = k.within;
  needed = later;
}
  where
    later : (j : ℕ) → j < suc k.removed → max_read_bytes < total_size (drop j (f ∷ fs))
    later zero i = h
    later (suc j) i = k.needed j (omega arith)

remove_oldest-KeepsNewest : (fs : List File) → KeepsNewest fs (remove_oldest (total_size fs) fs)
unfolding remove_oldest
remove_oldest-KeepsNewest [] = KeepsNewest-none [] (omega arith)
remove_oldest-KeepsNewest (f ∷ fs) =
    let rest : KeepsNewest fs (remove_oldest (size f + total_size fs - size f) fs) =
      subst (λ (n : ℕ). KeepsNewest fs (remove_oldest n fs)) (omega arith)
        (remove_oldest-KeepsNewest fs) in
    elim (Bool-cases (leb (total_size (f ∷ fs)) max_read_bytes)) [
      | inl fits ↦
          rw fits (KeepsNewest-none (f ∷ fs) (leb→le (total_size (f ∷ fs)) max_read_bytes fits))
      | inr over ↦ rw over (KeepsNewest-one f fs _ (ground arith) rest)
    ]

prune_inspected-KeepsNewest :
    (fs : List File) (o : Option Err)
    → (prune_inspected fs fs o).0 ≡ none
    → KeepsNewest fs (prune_inspected fs fs o).1
prune_inspected-KeepsNewest fs (some e) h = cc
prune_inspected-KeepsNewest fs none h = remove_oldest-KeepsNewest fs

prune_scanned-KeepsNewest :
    (fs files : List File) (scan : Option Err)
    → (scan ≡ none → files ≡ fs)
    → (prune_scanned fs files scan).0 ≡ none
    → KeepsNewest fs (prune_scanned fs files scan).1
prune_scanned-KeepsNewest fs files (some e) k = λ h. cc
prune_scanned-KeepsNewest fs files none k =
    rw (k refl) (prune_inspected-KeepsNewest fs (inspect fs))

-- A prune that returns no error keeps the newest files, as many of them as fit into the bound that
-- ReadAll reads, and removes no file that would still fit.
pub prune-KeepsNewest : (fs : List File) → (prune fs).0 ≡ none → KeepsNewest fs (prune fs).1
unfolding prune read_audit_directory
prune-KeepsNewest fs =
    prune_scanned-KeepsNewest fs (take max_files fs) _ λ h. take-all max_files fs (ground arith)
