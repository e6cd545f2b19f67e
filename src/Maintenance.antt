-- ===== src/Maintenance.antt =====
-- internal/maintenance/maintenance.go: the checks before a change of the network or of a feature, and the
-- output of DISM. Package netip is a parameter.
pub mod Packages
use winforge.Prelude.{
  ℕ, suc, ◌+◌, ◌≡◌, Bool, true, false, not, ◌&&◌, ◌||◌, Option, none, some, List, [], ◌∷◌, ◌++◌,
  length, all, ltb, leb, ◌==◌, if◌then◌else◌,
}
use winforge.Text.{Text, codes, text_eq, trim_space, is_empty, has_prefix, contains_any}
use winforge.Errors.{
  Err, Result, ok, err, ◌>>◌, refuse, feature_name_invalid, adapter_required, adapter_invalid,
  dns_not_address, dns_not_ipv4, dns_not_unicast, incomplete_packages, no_success_marker,
}
use winforge.AppManager.{byte_length, split_at}
use winforge.Tweak.Executor.{Change}

abbrev feature_rune : ℕ → Bool
feature_rune r =
    (leb b'a' r && leb r b'z')
    || (leb b'A' r && leb r b'Z')
    || (leb b'0' r && leb r b'9')
    || r == b'-'
    || r == b'_'
    || r == b'.'

unfoldable pub validate_feature_name : Text → Result (Unit {0})
validate_feature_name name = do
  refuse (is_empty name || ltb 256 (byte_length name) || not (text_eq (trim_space name) name))
      feature_name_invalid
  refuse (not (all feature_rune name)) feature_name_invalid

unfoldable pub validate_adapter_name : Text → Result (Unit {0})
validate_adapter_name adapter = do
  refuse (is_empty (trim_space adapter)) adapter_required
  refuse (contains_any adapter (0 ∷ codes "\r\n\"")) adapter_invalid

-- netip.Addr, as far as it is looked at
pub record Addr : Type 0 where
  pub is4 : Bool
  pub is_unspecified : Bool
  pub is_multicast : Bool

-- netip.ParseAddr; none is an error
pub record AddrParser : Type 0 where
  pub parse_addr : Text → Option Addr

module _ ⦃n : AddrParser⦄ where
  abbrev pub usable : Option Addr → Result (Unit {0})
  usable none = err dns_not_address
  usable (some a) = do
    refuse (not a.is4) dns_not_ipv4
    refuse (a.is_unspecified || a.is_multicast) dns_not_unicast

  unfoldable pub validate_dns_server : Text → (required : Bool) → Result (Unit {0})
  validate_dns_server value required =
      if is_empty value && not required then ok tt else usable (n.parse_addr value)

  unfoldable pub validate_dns_servers : (primary secondary : Text) → Result (Unit {0})
  unfolding validate_dns_server
  validate_dns_servers primary secondary =
      validate_dns_server primary true >> validate_dns_server secondary false

  unfoldable pub validate_dns_settings : (adapter primary secondary : Text) → Result (Unit {0})
  unfolding validate_adapter_name validate_dns_servers
  validate_dns_settings adapter primary secondary =
      validate_adapter_name adapter >> validate_dns_servers primary secondary

-- provisionedPackage
pub record ProvisionedPackage : Type 0 where
  pub display_name : Text
  pub package_name : Text

abbrev pub no_package : ProvisionedPackage
no_package = record { display_name = []; package_name = [] }

-- the variables of parseProvisionedPackages
pub record Parsed : Type 0 where
  pub packages : List ProvisionedPackage
  pub current : ProvisionedPackage
  pub malformed_records : ℕ

unfoldable pub flush : Parsed → Parsed
flush p =
    let named = not (is_empty p.current.display_name) in
    let packed = not (is_empty p.current.package_name) in
    if named && packed
    then record p { packages = p.packages ++ (p.current ∷ []); current = no_package }
    else if named || packed
    then record p { malformed_records = suc p.malformed_records; current = no_package }
    else record p { current = no_package }

-- strings.Cut(line, ":")
abbrev push_key : ℕ → Option (Text × Text) → Option (Text × Text)
push_key c none = none
push_key c (some (key, value)) = some (c ∷ key, value)

unfoldable pub cut_colon : Text → Option (Text × Text)
cut_colon [] = none
cut_colon (c ∷ s) = let rest = cut_colon s in if c == b':' then some ([], s) else push_key c rest

abbrev pub with_field : Parsed → Option (Text × Text) → Parsed
with_field p none = p
with_field p (some (key, value)) =
    let k = trim_space key in
    if text_eq k (codes "DisplayName")
    then (let q = flush p in
        record q { current = record q.current { display_name = trim_space value } })
    else if text_eq k (codes "PackageName")
    then record p { current = record p.current { package_name = trim_space value } }
    else p

unfoldable pub parse_lines : Parsed → List Text → Parsed
unfolding flush cut_colon
parse_lines p [] = flush p
parse_lines p (line ∷ lines) = parse_lines (with_field p (cut_colon line)) lines

-- strings.Contains
unfoldable pub contains : Text → Text → Bool
contains [] part = is_empty part
contains (c ∷ s) part = let rest = contains s part in has_prefix (c ∷ s) part || rest

abbrev pub package_error : Parsed → Text → Option Err
package_error p output =
    if not (p.malformed_records == 0)
    then some incomplete_packages
    else if not (contains output (codes "The operation completed successfully."))
    then some no_success_marker
    else none

unfoldable pub parse_provisioned_packages : Text → List ProvisionedPackage × Option Err
unfolding parse_lines contains
parse_provisioned_packages output =
    let p =
      parse_lines (record { packages = []; current = no_package; malformed_records = 0 })
        (split_at b'\n' output) in
    (p.packages, package_error p output)
