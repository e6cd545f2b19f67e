-- ===== src/Updater/Tests.antt =====
-- Versions and releases on concrete inputs.
use winforge.Prelude.{◌≡◌, ◌≢◌, refl, Bool, true, false, Option, none, some, List, [], ◌∷◌}
use winforge.Text.{
  Text, codes, is_space, keep_space, trim_left, trim_right, trim_space, text_eq, text_lt,
  cut_prefix, trim_prefix, is_empty,
}
use winforge.Errors.{ok}
use winforge.AppManager.{split_at}
use winforge.Updater.{
  leading_digits, parse_from, parse_int, segment_number, compare_segments, compare_from,
  compare_versions, normalize_version, check_trimmed, check_for_update,
}
use winforge.Updater.Order.{check_for_update-strict_order}
use winforge.Updater.Release.{
  ReleaseInfo, check_assets, validate_release_info, first_published, choose_release,
}

update_of_patch : check_for_update (codes "v1.2.9") (codes "v1.2.10") ≡ ok true
unfolding is_space keep_space trim_left trim_right trim_space text_eq text_lt cut_prefix trim_prefix
    split_at leading_digits parse_from parse_int segment_number compare_segments compare_from
    compare_versions normalize_version check_trimmed check_for_update
update_of_patch = refl

update_of_minor : check_for_update (codes "v1.2.10") (codes "v1.3") ≡ ok true
unfolding is_space keep_space trim_left trim_right trim_space text_eq text_lt cut_prefix trim_prefix
    split_at leading_digits parse_from parse_int segment_number compare_segments compare_from
    compare_versions normalize_version check_trimmed check_for_update
update_of_minor = refl

patch_is_set :
    (is_empty (trim_space (codes "v1.2.9")) ≡ false)
    × (is_empty (trim_space (codes "v1.2.10")) ≡ false)
unfolding is_space keep_space trim_left trim_right trim_space
patch_is_set = (refl, refl)

check_for_update-strict_order_example :
    (check_for_update (codes "v1.2.10") (codes "v1.2.9") ≢ ok true)
    × (check_for_update (codes "v1.2.9") (codes "v1.3") ≡ ok true)
check_for_update-strict_order_example =
    check_for_update-strict_order (codes "v1.2.9") (codes "v1.2.10") (codes "v1.3") patch_is_set.0
      patch_is_set.1 update_of_patch update_of_minor

-- the release after its candidate is not offered, and the candidate is offered for the release
candidate_is_newer :
    (check_for_update (codes "1.0.0-rc1") (codes "1.0.0") ≡ ok false)
    × (check_for_update (codes "1.0.0") (codes "1.0.0-rc1") ≡ ok true)
unfolding is_space keep_space trim_left trim_right trim_space text_eq text_lt cut_prefix trim_prefix
    split_at leading_digits parse_from parse_int segment_number compare_segments compare_from
    compare_versions normalize_version check_trimmed check_for_update
candidate_is_newer = (refl, refl)

abbrev release : Text → Bool → ReleaseInfo
release tag draft = record {
  tag_name = tag;
  name = [];
  html_url = [];
  draft = draft;
  body = [];
  assets = [];
}

abbrev listing : List (Option ReleaseInfo)
listing = none ∷ some (release (codes "v2") true) ∷ some (release (codes "v1") false) ∷ []

first_is_chosen : choose_release listing ≡ ok (release (codes "v1") false)
unfolding is_space keep_space trim_left trim_right trim_space check_assets validate_release_info
    first_published choose_release
first_is_chosen = refl
