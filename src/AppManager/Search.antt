-- ===== src/AppManager/Search.antt =====
-- internal/appmanager/manager.go: the table that `winget search` prints.
pub mod Sound
pub mod Rounds
use winforge.Prelude.{
  ℕ, zero, suc, ◌+◌, ◌≡◌, Bool, true, false, not, ◌&&◌, ◌||◌, Option, none, some, List, [], ◌∷◌,
  ◌++◌, length, any, ltb, leb, ◌==◌, if◌then◌else◌,
}
use winforge.Text.{
  Text, codes, text_eq, trim_space, is_space, is_control, to_lower, equal_fold, CaseTable,
}
use winforge.AppManager.{is_package_id}

-- Characters of the categories Mn, Me and Cf.
pub record MarkTable : Type 0 where
  pub is_mark : ℕ → Bool

module _ ⦃m : MarkTable⦄ where
  unfoldable pub rune_display_width : ℕ → ℕ
  rune_display_width r =
      if is_control r || m.is_mark r || (leb 0x1f3fb r && leb r 0x1f3ff)
      then 0
      else if leb 0x1100 r
          && (leb r 0x115f
              || r == 0x2329
              || r == 0x232a
              || (leb 0x2e80 r && leb r 0xa4cf && not (r == 0x303f))
              || (leb 0xac00 r && leb r 0xd7a3)
              || (leb 0xf900 r && leb r 0xfaff)
              || (leb 0xfe10 r && leb r 0xfe19)
              || (leb 0xfe30 r && leb r 0xfe6f)
              || (leb 0xff00 r && leb r 0xff60)
              || (leb 0xffe0 r && leb r 0xffe6)
              || (leb 0x1b000 r && leb r 0x1b2ff)
              || (leb 0x1f300 r && leb r 0x1f64f)
              || (leb 0x1f900 r && leb r 0x1faff)
              || (leb 0x20000 r && leb r 0x3fffd))
      then 2
      else 1

  -- a run of characters, what follows it, and the column after it
  pub record Run : Type 0 where
    pub run : Text
    pub rest : Text
    pub column : ℕ

  -- an inner loop of searchIDColumns: goes over the characters that satisfy `p`
  unfoldable pub scan : (ℕ → Bool) → Text → ℕ → Run
  unfolding rune_display_width
  scan p [] column = record { run = []; rest = []; column = column }
  scan p (c ∷ s) column =
      let more = scan p s (column + rune_display_width c) in
      if p c
      then record more { run = c ∷ more.run }
      else record { run = []; rest = c ∷ s; column = column }

  abbrev pub columns_after : (word_start : ℕ) → Text → Run → Option (ℕ × ℕ)
  columns_after word_start rest spaces = found spaces.run spaces.rest
    where
      found : Text → Text → Option (ℕ × ℕ)
      found [] next = none
      found (c ∷ s) [] = none
      found (c ∷ s) (d ∷ next) = some (word_start, spaces.column)

  abbrev pub non_space : ℕ → Bool
  non_space c = not (is_space c)

  -- the test of a word, and what follows it
  abbrev pub word_columns :
      ⦃t : CaseTable⦄ → Text → (start : ℕ) → Run → Option (ℕ × ℕ) → Option (ℕ × ℕ)
  word_columns [] start word more = none
  word_columns (c ∷ s) start word more =
      if equal_fold (c ∷ s) (codes "id")
      then columns_after start word.rest (scan is_space word.rest word.column)
      else more

  -- the loop over the words; each round takes at least one character
  unfoldable pub columns_from : ⦃t : CaseTable⦄ → (rounds : ℕ) → Text → ℕ → Option (ℕ × ℕ)
  unfolding scan
  columns_from zero line column = none
  columns_from (suc rounds) line column =
      let spaces = scan is_space line column in
      let word = scan non_space spaces.rest spaces.column in
      let more = columns_from rounds word.rest word.column in
      word_columns word.run spaces.column word more

  unfoldable pub search_id_columns : ⦃t : CaseTable⦄ → Text → Option (ℕ × ℕ)
  unfolding columns_from
  search_id_columns line = columns_from (suc (length line)) line 0

  abbrev pub put : ℕ → Option Text → Option Text
  put r none = none
  put r (some s) = some (r ∷ s)

  abbrev pub written : Bool → Option Text
  written true = some []
  written false = none

  -- what the loop of displayColumnSlice does at one character: it ends, or goes on at a column, with the
  -- character written or not
  pub data SliceStep : Type 0 where
    finish : Option Text → SliceStep
    go_on : (column : ℕ) → (writing write : Bool) → SliceStep

  unfoldable pub slice_step : (start stop : ℕ) → ℕ → (column : ℕ) → (writing : Bool) → SliceStep
  unfolding rune_display_width
  slice_step start stop r column writing =
      let width = rune_display_width r in
      let next = column + width in
      if width == 0
      then go_on column writing (writing && leb column stop)
      else if leb next start
      then go_on next writing false
      else if leb stop column
      then finish (written writing)
      else if ltb column start || ltb stop next
      then finish none
      else go_on next true true

  abbrev pub slice_next : ℕ → SliceStep → (ℕ → Bool → Option Text) → Option Text
  slice_next r (finish o) more = o
  slice_next r (go_on column writing true) more = put r (more column writing)
  slice_next r (go_on column writing false) more = more column writing

  unfoldable pub slice_from :
      (start stop : ℕ) → Text → (column : ℕ) → (writing : Bool) → Option Text
  unfolding slice_step
  slice_from start stop [] column writing = written writing
  slice_from start stop (r ∷ s) column writing =
      slice_next r (slice_step start stop r column writing)
        (λ column' writing'. slice_from start stop s column' writing')

  unfoldable pub display_column_slice : Text → (start stop : ℕ) → Option Text
  unfolding slice_from
  display_column_slice line start stop =
      if leb stop start then none else slice_from start stop line 0 false

  module _ ⦃t : CaseTable⦄ where
    -- the id in a row: none if the row has none
    abbrev pub package_in : Option Text → Option Text
    package_in none = none
    package_in (some f) = if is_package_id (trim_space f) then some (trim_space f) else none

    unfoldable pub row_id : (start stop : ℕ) → Text → Option Text
    unfolding display_column_slice
    row_id start stop line = package_in (display_column_slice line start stop)

    abbrev pub new_id : List Text → Text → (List Text → List Text) → List Text
    new_id seen id more =
        if any (text_eq (to_lower id)) seen then more seen else id ∷ more (to_lower id ∷ seen)

    abbrev pub kept_id : List Text → Option Text → (List Text → List Text) → List Text
    kept_id seen none more = more seen
    kept_id seen (some id) more = new_id seen id more

    -- the loop over the rows; `seen` are the ids in lower case
    unfoldable pub ids_from : (start stop : ℕ) → (seen : List Text) → List Text → List Text
    unfolding row_id
    ids_from start stop seen [] = []
    ids_from start stop seen (line ∷ lines) =
        kept_id seen (row_id start stop line) (λ seen'. ids_from start stop seen' lines)

    abbrev pub after_header : Option (ℕ × ℕ) → List Text → List Text → List Text
    after_header none lines more = more
    after_header (some (start, stop)) lines more = ids_from start stop [] lines

    -- parseSearchIDs
    unfoldable pub parse_search_ids : List Text → List Text
    unfolding search_id_columns ids_from
    parse_search_ids [] = []
    parse_search_ids (line ∷ lines) =
        let more = parse_search_ids lines in after_header (search_id_columns line) lines more
