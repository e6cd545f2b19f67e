-- ===== src/Updater/Release.antt =====
-- internal/updater/github.go: the release that is offered. The HTTP client and package json are
-- parameters.
pub mod Newest
use winforge.Prelude.{
  ℕ, suc, ◌+◌, ◌≡◌, Bool, true, false, not, ◌&&◌, ◌||◌, Option, none, some, List, [], ◌∷◌, length,
  ltb, ◌==◌, if◌then◌else◌,
}
use winforge.Text.{Text, codes, trim_space, has_prefix, is_empty}
use winforge.Errors.{
  Err, Result, ok, err, ◌>>=◌, ◌>>◌, refuse, wrapped, empty_tag, url_too_long, url_scheme,
  http_status, too_many_bytes, no_releases, nil_release, tag_too_long, release_name_too_long,
  body_too_long, too_many, asset_name_too_long, asset_url_too_long,
}
use winforge.AppManager.{byte_length}

-- ReleaseAsset
pub record ReleaseAsset : Type 0 where
  pub name : Text
  pub download_url : Text
  pub size : ℕ

-- ReleaseInfo, without its time and flag of a pre-release, which nothing looks at
pub record ReleaseInfo : Type 0 where
  pub tag_name : Text
  pub name : Text
  pub html_url : Text
  pub draft : Bool
  pub body : Text
  pub assets : List ReleaseAsset

unfoldable pub check_assets : List ReleaseAsset → Result (Unit {0})
check_assets [] = ok tt
check_assets (a ∷ assets) = do
  refuse (ltb 256 (length a.name)) asset_name_too_long
  refuse (ltb 2048 (byte_length a.download_url)) asset_url_too_long
  check_assets assets

-- validateReleaseInfo; a nil pointer is none
unfoldable pub validate_release_info : Option ReleaseInfo → Result (Unit {0})
unfolding check_assets
validate_release_info none = err nil_release
validate_release_info (some r) = do
  refuse (is_empty (trim_space r.tag_name)) empty_tag
  refuse (ltb 256 (length r.tag_name)) tag_too_long
  refuse (ltb 4096 (length r.name)) release_name_too_long
  refuse (ltb 262144 (byte_length r.body)) body_too_long
  refuse (ltb 256 (length r.assets)) (too_many 256 (length r.assets))
  check_assets r.assets

abbrev pub published : Option ReleaseInfo → Bool
published none = false
published (some r) = not r.draft

-- the loop that picks the first release that is no draft
unfoldable pub first_published : List (Option ReleaseInfo) → Option ReleaseInfo
first_published [] = none
first_published (r ∷ releases) =
    let later = first_published releases in if published r then r else later

abbrev pub or_first : Option ReleaseInfo → Option ReleaseInfo → Option ReleaseInfo
or_first none first = first
or_first (some r) first = some r

abbrev pub with_valid : Option ReleaseInfo → Result (Unit {0}) → Result ReleaseInfo
with_valid chosen (err e) = err e
with_valid none (ok u) = err nil_release
with_valid (some r) (ok u) = ok r

-- the end of CheckGitHubRelease
unfoldable pub choose_release : List (Option ReleaseInfo) → Result ReleaseInfo
unfolding first_published validate_release_info
choose_release [] = err no_releases
choose_release (first ∷ releases) =
    let chosen = or_first (first_published (first ∷ releases)) first in
    with_valid chosen (validate_release_info chosen)

-- an answer of the server; the body is read up to a number of bytes
pub record Response : Type 0 where
  pub status_code : ℕ
  pub read_body : ℕ → Result Text

-- the client, and json.Unmarshal into a list and into one release
pub record Client : Type 0 where
  pub get : Text → Result Response
  pub decode_list : Text → Result (List (Option ReleaseInfo))
  pub decode_single : Text → Result ReleaseInfo

abbrev wrap {ℓ} : {A : Type ℓ} → Result A → Result A
wrap (err e) = err (wrapped e)
wrap (ok a) = ok a

unfoldable pub decode_releases : Client → Text → Result (List (Option ReleaseInfo))
decode_releases client raw =
    if has_prefix (trim_space raw) (codes "[")
    then wrap (client.decode_list raw)
    else (wrap (client.decode_single raw) >>= λ r. ok (some r ∷ []))

-- CheckGitHubRelease
unfoldable pub check_github_release : Client → Text → Result ReleaseInfo
unfolding choose_release decode_releases
check_github_release client given = do
  refuse (ltb 2048 (byte_length url)) url_too_long
  refuse (not (has_prefix url (codes "http://")) && not (has_prefix url (codes "https://")))
      url_scheme
  response ← wrap (client.get url)
  refuse (not (response.status_code == 200)) (http_status response.status_code)
  raw ← wrap (response.read_body 1048577)
  refuse (ltb 1048576 (byte_length raw)) too_many_bytes
  releases ← decode_releases client raw
  choose_release releases
  where
    url : Text
    url =
        if is_empty (trim_space given)
        then codes "https://api.github.com/repos/Warzonesiddiki/winforge/releases"
        else given
