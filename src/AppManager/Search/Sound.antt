-- ===== src/AppManager/Search/Sound.antt =====
-- What the ids that parseSearchIDs returns are, and which ids it returns.
use winforge.Prelude.{
  ℕ, ◌≡◌, refl, arith, Bool, true, false, ◌||◌, Option, none, some, List, [], ◌∷◌, ◌++◌, map, any,
  All, if◌then◌else◌, Bool-cases, inl, inr,
}
use winforge.Text.{Text, text_eq, trim_space, to_lower, CaseTable}
use winforge.Text.Laws.{text_eq_refl}
use winforge.Text.Trim.{trim_space_idem}
use winforge.Errors.{ok}
use winforge.AppManager.{is_package_id, validate_package_id}
use winforge.AppManager.Search.{
  MarkTable, search_id_columns, display_column_slice, package_in, row_id, new_id, kept_id, ids_from,
  after_header, parse_search_ids,
}

-- an id that Install, Upgrade and Uninstall accept
abbrev pub IsInstallable : Text → Type 0
IsInstallable id = validate_package_id id ≡ ok tt

trimmed-IsInstallable :
    (f : Text) → is_package_id (trim_space f) ≡ true → IsInstallable (trim_space f)
unfolding validate_package_id
trimmed-IsInstallable f h = rw (trim_space_idem f) (rw (text_eq_refl (trim_space f)) (rw h refl))

module _ ⦃m : MarkTable⦄ ⦃t : CaseTable⦄ where
  -- No two of the ids differ only in case, and none is among `seen`.
  abbrev pub Once : (seen : List Text) → List Text → Type 0
  Once seen [] = Unit
  Once seen (id ∷ ids) = (any (text_eq (to_lower id)) seen ≡ false) × Once (to_lower id ∷ seen) ids

  abbrev pub listed : Text → List Text → Bool
  listed id ids = any (text_eq (to_lower id)) (map to_lower ids)

  picked :
      (f id : Text) (b : Bool)
      → is_package_id (trim_space f) ≡ b
      → (if b then some (trim_space f) else none) ≡ some id
      → IsInstallable id
  picked f id true e h = cc (h, trimmed-IsInstallable f e)
  picked f id false e h = cc

  package_in-IsInstallable :
      (o : Option Text) (id : Text) → package_in o ≡ some id → IsInstallable id
  package_in-IsInstallable none id h = cc
  package_in-IsInstallable (some f) id h = picked f id (is_package_id (trim_space f)) refl h

  abbrev Fine : List Text → List Text → Type 0
  Fine seen ids = All IsInstallable ids × Once seen ids

  kept_id-Fine :
      (seen : List Text) (o : Option Text) (more : List Text → List Text)
      → ((id : Text) → o ≡ some id → IsInstallable id)
      → ((seen' : List Text) → Fine seen' (more seen'))
      → Fine seen (kept_id seen o more)
  kept_id-Fine seen none more h k = k seen
  kept_id-Fine seen (some id) more h k = elim (Bool-cases (any (text_eq (to_lower id)) seen)) [
    | inl e ↦ rw e (k seen)
    | inr e ↦ rw e (let (a, b) = k (to_lower id ∷ seen) in ((h id refl, a), (e, b)))
  ]

  row_id-IsInstallable :
      (start stop : ℕ) (line id : Text) → row_id start stop line ≡ some id → IsInstallable id
  unfolding row_id
  row_id-IsInstallable start stop line id h =
      package_in-IsInstallable (display_column_slice line start stop) id h

  ids_from-Fine :
      (start stop : ℕ) (seen lines : List Text) → Fine seen (ids_from start stop seen lines)
  unfolding ids_from
  ids_from-Fine start stop seen [] = (tt, tt)
  ids_from-Fine start stop seen (line ∷ lines) =
      kept_id-Fine seen (row_id start stop line) (λ seen'. ids_from start stop seen' lines)
        (row_id-IsInstallable start stop line) (λ seen'. ids_from-Fine start stop seen' lines)

  after_header-Fine :
      (columns : Option (ℕ × ℕ)) (lines more : List Text)
      → Fine [] more
      → Fine [] (after_header columns lines more)
  after_header-Fine none lines more h = h
  after_header-Fine (some (start, stop)) lines more h = ids_from-Fine start stop [] lines

  -- For every output of winget: each id that parseSearchIDs returns is one that Install, Upgrade and
  -- Uninstall accept, and no two of them differ only in case.
  pub parse_search_ids-Fine :
      (lines : List Text)
      → All IsInstallable (parse_search_ids lines) × Once [] (parse_search_ids lines)
  unfolding parse_search_ids
  parse_search_ids-Fine [] = (tt, tt)
  parse_search_ids-Fine (line ∷ lines) =
      after_header-Fine (search_id_columns line) lines (parse_search_ids lines)
        (parse_search_ids-Fine lines)

  or-left : (a b : Bool) → a ≡ true → (a || b) ≡ true
  or-left a b h = rw h refl

  or-right : (a b : Bool) → b ≡ true → (a || b) ≡ true
  or-right true b h = refl
  or-right false b h = h

  -- a key is among those before, or among the ids
  abbrev Covered : Text → List Text → List Text → Type 0
  Covered key seen ids = (any (text_eq key) seen || any (text_eq key) (map to_lower ids)) ≡ true

  move :
      (key : Text) (seen : List Text) (id : Text) (ids : List Text)
      → Covered key (to_lower id ∷ seen) ids
      → Covered key seen (id ∷ ids)
  move key seen id ids h = ground arith

  kept_id-Covered :
      (key : Text) (seen : List Text) (o : Option Text) (more : List Text → List Text)
      → ((seen' : List Text)
          → (any (text_eq key) seen ≡ true → any (text_eq key) seen' ≡ true)
          → Covered key seen' (more seen'))
      → Covered key seen (kept_id seen o more)
  kept_id-Covered key seen none more k = k seen (λ e. e)
  kept_id-Covered key seen (some id) more k = elim (Bool-cases (any (text_eq (to_lower id)) seen)) [
    | inl e ↦ rw e (k seen (λ h. h))
    | inr e ↦
        rw e (move key seen id (more (to_lower id ∷ seen)) (k (to_lower id ∷ seen) (or-right _ _)))
  ]

  first-Covered :
      (seen : List Text) (id : Text) (more : List Text → List Text)
      → Covered (to_lower id) seen (new_id seen id more)
  first-Covered seen id more = elim (Bool-cases (any (text_eq (to_lower id)) seen)) [
    | inl e ↦ rw e refl
    | inr e ↦ rw e (or-left _ _ (text_eq_refl (to_lower id)))
  ]

  ids_from-Covered :
      (start stop : ℕ) (seen before : List Text) (row id : Text) (rows : List Text)
      → row_id start stop row ≡ some id
      → Covered (to_lower id) seen (ids_from start stop seen (before ++ (row ∷ rows)))
  unfolding ids_from
  ids_from-Covered start stop seen [] row id rows h =
      rw h (first-Covered seen id (λ seen'. ids_from start stop seen' rows))
  ids_from-Covered start stop seen (line ∷ before) row id rows h =
      kept_id-Covered (to_lower id) seen (row_id start stop line)
        (λ seen'. ids_from start stop seen' (before ++ (row ∷ rows)))
        (λ seen' e. ids_from-Covered start stop seen' before row id rows h)

  -- Where no line of `above` has an ID column, and the header after it has one: the id of every row
  -- below it is among the ids that parseSearchIDs returns, up to case.
  pub parse_search_ids-listed :
      (above : List Text) (header : Text) (start stop : ℕ) (before : List Text) (row : Text)
      (rows : List Text) (id : Text)
      → All (λ line. search_id_columns line ≡ none) above
      → search_id_columns header ≡ some (start, stop)
      → row_id start stop row ≡ some id
      → listed id (parse_search_ids (above ++ (header ∷ (before ++ (row ∷ rows))))) ≡ true
  unfolding parse_search_ids
  parse_search_ids-listed [] header start stop before row rows id u found r =
      rw found (ids_from-Covered start stop [] before row id rows r)
  parse_search_ids-listed (line ∷ above) header start stop before row rows id (none', rest) found
        r =
      rw none' (parse_search_ids-listed above header start stop before row rows id rest found r)
