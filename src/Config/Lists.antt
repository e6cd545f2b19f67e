-- ===== src/Config/Lists.antt =====
-- internal/config/models.go: the catalogues of applications, DNS servers and protected services, and
-- their Validate methods.
pub mod Distinct
use winforge.Prelude.{
  ℕ, suc, ◌≡◌, Bool, true, false, not, ◌&&◌, ◌||◌, Option, none, some, List, [], ◌∷◌, ◌++◌, length,
  any, ltb, if◌then◌else◌,
}
use winforge.Text.{Text, text_eq, trim_space, is_empty, to_lower, CaseTable}
use winforge.Errors.{
  Err, Result, ok, err, ◌>>=◌, ◌>>◌, refuse, name_required, duplicate_name, profile_required,
  name_padded,
}
use winforge.Config.Validate.{check_len, check_count}
use winforge.AppManager.{validate_package_id}
use winforge.Maintenance.{AddrParser, validate_dns_servers}

pub record App : Type 0 where
  pub id : Text
  pub name : Text
  pub category : Text
  pub description : Text
  pub tags : List Text

pub record DnsEntry : Type 0 where
  pub profile : Text
  pub primary : Text
  pub secondary : Text

unfoldable pub check_tags : List Text → Result (Unit {0})
check_tags [] = ok tt
check_tags (tag ∷ tags) = check_len tag 64 >> check_tags tags

unfoldable pub check_app_limits : App → Result (Unit {0})
unfolding check_tags
check_app_limits a = do
  check_len a.name 256
  check_len a.category 128
  check_len a.description 4096
  check_count (length a.tags) 32
  check_tags a.tags

-- The loop that the three methods share: a round checks an entry against the keys before it, and gives
-- its key.
unfoldable pub validate_each {ℓ} :
    {A : Type ℓ} → (List Text → A → Result Text) → List Text → List A → Result (Unit {0})
validate_each check seen [] = ok tt
validate_each check seen (a ∷ list) = check seen a >>= λ key. validate_each check (key ∷ seen) list

-- `if _, duplicate := seen[key]; duplicate`
abbrev pub new_key : List Text → Text → Result (Unit {0})
new_key seen key = refuse (any (text_eq key) seen) duplicate_name

module _ ⦃c : CaseTable⦄ where
  unfoldable pub validate_app : List Text → App → Result Text
  unfolding check_app_limits
  validate_app seen a = do
    validate_package_id a.id
    new_key seen (to_lower a.id)
    refuse (is_empty (trim_space a.name)) name_required
    check_app_limits a
    ok (to_lower a.id)

  unfoldable pub validate_apps : List App → Result (Unit {0})
  unfolding validate_each validate_app
  validate_apps apps = check_count (length apps) 4096 >> validate_each validate_app [] apps

  unfoldable pub validate_preset : ⦃n : AddrParser⦄ → List Text → DnsEntry → Result Text
  validate_preset seen p = do
    refuse (is_empty (trim_space p.profile)) profile_required
    check_len p.profile 128
    check_len p.primary 64
    check_len p.secondary 64
    refuse (not (text_eq (trim_space p.profile) p.profile)) name_padded
    new_key seen (to_lower (trim_space p.profile))
    validate_dns_servers p.primary p.secondary
    ok (to_lower (trim_space p.profile))

  unfoldable pub validate_dns : ⦃n : AddrParser⦄ → List DnsEntry → Result (Unit {0})
  unfolding validate_each validate_preset
  validate_dns presets =
      check_count (length presets) 256 >> validate_each validate_preset [] presets

  unfoldable pub validate_service : List Text → Text → Result Text
  validate_service seen name = do
    refuse (is_empty (trim_space name)) name_required
    check_len name 256
    refuse (not (text_eq (trim_space name) name)) name_padded
    new_key seen (to_lower name)
    ok (to_lower name)

  unfoldable pub validate_protected_services : List Text → Result (Unit {0})
  unfolding validate_each validate_service
  validate_protected_services services =
      check_count (length services) 1024 >> validate_each validate_service [] services
