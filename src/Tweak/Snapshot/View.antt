-- ===== src/Tweak/Snapshot/View.antt =====
-- A snapshot in terms of the value that the registry holds.
use winforge.Prelude.{Option, none, some, [], ◌∷◌, ◌≡◌, refl}
use winforge.Text.{Text}
use winforge.Decimal.{format_uint}
use winforge.Errors.{Err, Result, ok, err, join_from, wrapped}
use winforge.Audit.Entry.{dword, qword, string}
use winforge.Tweak.Executor.{Executor}
use winforge.Tweak.Snapshot.{Snapshot, absent, present, first_found, registry_snapshot}
use winforge.Tweak.Laws.{
  RegValue, reg_dword, reg_qword, reg_string, reg_expand, reg_other, Place, RegistryView,
  RegistryLaws, read_string, read_expand, read_dword, read_qword,
}

-- what is found of a value: a REG_EXPAND_SZ as a string with its variables expanded; a value of
-- another type cannot be read
abbrev pub snapshot_of : (Text → Text) → (RegValue → Err) → Option RegValue → Result Snapshot
snapshot_of expand mismatch none = ok absent
snapshot_of expand mismatch (some (reg_dword v)) = ok (present dword (format_uint v))
snapshot_of expand mismatch (some (reg_qword v)) = ok (present qword (format_uint v))
snapshot_of expand mismatch (some (reg_string v)) = ok (present string v)
snapshot_of expand mismatch (some (reg_expand v)) = ok (present string (expand v))
snapshot_of expand mismatch (some reg_other) =
    let e = mismatch reg_other in err (wrapped (join_from e (e ∷ e ∷ e ∷ [])))

first_found-read :
    (x : Text → Text) (m : RegValue → Err) (o : Option RegValue)
    → first_found (read_string x m o) (read_expand m o) (read_dword m o) (read_qword m o)
      ≡ snapshot_of x m o
unfolding first_found
first_found-read x m none = refl
first_found-read x m (some (reg_dword v)) = refl
first_found-read x m (some (reg_qword v)) = refl
first_found-read x m (some (reg_string v)) = refl
first_found-read x m (some (reg_expand v)) = refl
first_found-read x m (some reg_other) = refl

module _ {S : Type 0} (E : Executor S) (V : RegistryView S) (laws : RegistryLaws E V) where
  -- For an executor that obeys the laws of the registry, the four typed reads together find the
  -- value that is there: a REG_DWORD, REG_QWORD or REG_SZ with its type, a REG_EXPAND_SZ as a string
  -- with its variables expanded. They report it as absent only where there is none, and fail only
  -- for a value of another type.
  pub registry_snapshot-view :
      (p : Place) (s : S)
      → registry_snapshot E p.hive p.path p.name s
        ≡ snapshot_of (V.expand s) (V.mismatch p) (V.view p s)
  unfolding registry_snapshot
  registry_snapshot-view p s =
      rw (laws.get_string p s, laws.get_expand_string p s, laws.get_dword p s, laws.get_qword p s)
        (first_found-read (V.expand s) (V.mismatch p) (V.view p s))
