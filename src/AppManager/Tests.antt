-- ===== src/AppManager/Tests.antt =====
-- A table that winget prints, and runs of the package manager.
use winforge.Prelude.{ℕ, ◌≡◌, refl, true, false, none, some, List, [], ◌∷◌, map, All, ◌+◌}
use winforge.Text.{
  Text, codes, is_space, is_control, keep_space, trim_left, trim_right, trim_space, text_eq,
  cut_prefix, has_prefix, contains_any, ascii_lower, lower_rune, to_lower, fold_rune, fold_text,
  equal_fold, CaseTable,
}
use winforge.Errors.{ok}
use winforge.AppManager.{
  split_at, has_suffix, segment_rune, is_segment, store_rune, is_package_id, validate_package_id,
}
use winforge.AppManager.Search.{
  MarkTable, rune_display_width, scan, columns_from, search_id_columns, slice_step, slice_from,
  display_column_slice, row_id, ids_from, parse_search_ids,
}
use winforge.AppManager.Search.Sound.{
  IsInstallable, Once, listed, parse_search_ids-Fine, parse_search_ids-listed,
}
use winforge.AppManager.Report.{
  trim_returns, Scanned, Winget, collect_report_output, report, install,
}
use winforge.AppManager.Report.Limits.{Kept, is_none, collect_report_output-Kept}

instance no_marks : MarkTable
no_marks = record { is_mark = λ c. false }

instance ascii_cases : CaseTable
ascii_cases = record { lower = λ c. c; fold = λ c. c }

abbrev table : List Text
table =
    codes "Searching"
    ∷ codes "Name    Id            Version"
    ∷ codes "-----------------------------"
    ∷ codes "漢字    Vendor.Tool   1.0"
    ∷ codes "Other   vendor.tool   1.1"
    ∷ []

table_ids : parse_search_ids table ≡ codes "Vendor.Tool" ∷ []
unfolding no_marks is_space is_control keep_space trim_left trim_right trim_space text_eq cut_prefix
    has_prefix contains_any ascii_lower lower_rune to_lower fold_rune fold_text equal_fold split_at
    has_suffix segment_rune is_segment store_rune is_package_id rune_display_width scan columns_from
    search_id_columns slice_step slice_from display_column_slice row_id ids_from parse_search_ids
table_ids = refl

parse_search_ids-Fine_example :
    All IsInstallable (parse_search_ids table) × Once [] (parse_search_ids table)
parse_search_ids-Fine_example = parse_search_ids-Fine table

header_columns :
    (search_id_columns (codes "Searching") ≡ none)
    × (search_id_columns (codes "Name    Id            Version") ≡ some (8, 22))
unfolding no_marks is_space is_control text_eq ascii_lower fold_rune fold_text equal_fold
    rune_display_width scan columns_from search_id_columns
header_columns = (refl, refl)

tool_row : row_id 8 22 (codes "漢字    Vendor.Tool   1.0") ≡ some (codes "Vendor.Tool")
unfolding no_marks is_space is_control keep_space trim_left trim_right trim_space text_eq cut_prefix
    has_prefix contains_any split_at has_suffix segment_rune is_segment store_rune is_package_id
    rune_display_width slice_step slice_from display_column_slice row_id
tool_row = refl

parse_search_ids-listed_example : listed (codes "Vendor.Tool") (parse_search_ids table) ≡ true
parse_search_ids-listed_example =
    parse_search_ids-listed (codes "Searching" ∷ []) (codes "Name    Id            Version") 8 22
      (codes "-----------------------------" ∷ []) (codes "漢字    Vendor.Tool   1.0")
      (codes "Other   vendor.tool   1.1" ∷ []) (codes "Vendor.Tool") (header_columns.0, tt)
      header_columns.1 tool_row

abbrev three_lines : Scanned
three_lines = record {
  tokens = codes "one\r" ∷ codes "two" ∷ codes "three" ∷ [];
  scan_error = none;
  drain_error = none;
}

collect_report_output-Kept_example :
    Kept 2 100
      (map trim_returns three_lines.tokens)
      (collect_report_output three_lines 2 100).0
      (is_none (collect_report_output three_lines 2 100).1)
collect_report_output-Kept_example = collect_report_output-Kept 2 100 three_lines

-- a winget that counts how often it is started
abbrev counting : Winget ℕ
counting = record {
  look_path = λ s. (ok (codes "winget.exe"), s);
  absolute = λ path s. (ok path, s);
  start_process = λ path args s. (ok tt, s + 1);
  read_output = λ s. (three_lines, s);
  wait = λ s. (none, s);
  context_error = λ s. none;
}

-- the option is no package id, and nothing is started
option_refused : (install counting (codes "-x") 0).1 ≡ 0
unfolding is_space is_control keep_space trim_left trim_right trim_space text_eq cut_prefix
    has_prefix contains_any split_at has_suffix segment_rune is_segment store_rune is_package_id
    validate_package_id report install
option_refused = refl
