-- ===== src/Maintenance/Packages.antt =====
-- What the packages that DISM lists have.
use winforge.Prelude.{
  suc, ◌≡◌, refl, Bool, true, false, not, ◌&&◌, ◌||◌, Option, none, some, List, [], ◌∷◌, ◌++◌, All,
  All-append, if◌then◌else◌,
}
use winforge.Text.{Text, codes, text_eq, trim_space, is_empty}
use winforge.AppManager.{split_at}
use winforge.Maintenance.{
  ProvisionedPackage, no_package, Parsed, flush, cut_colon, with_field, parse_lines,
  parse_provisioned_packages,
}

-- both identities of the package are there
abbrev pub IsNamed : ProvisionedPackage → Type 0
IsNamed p = (is_empty p.display_name ≡ false) × (is_empty p.package_name ≡ false)

not-false : (b : Bool) → not b ≡ true → b ≡ false
not-false true h = cc
not-false false h = refl

abbrev Named : Parsed → Type 0
Named p = All IsNamed p.packages

flush-Named : (p : Parsed) → Named p → Named (flush p)
unfolding flush
flush-Named p h = go (is_empty p.current.display_name) (is_empty p.current.package_name) refl refl
  where
    go :
        (a b : Bool)
        → is_empty p.current.display_name ≡ a
        → is_empty p.current.package_name ≡ b
        → Named (
            if not a && not b
            then record p { packages = p.packages ++ (p.current ∷ []); current = no_package }
            else if not a || not b
            then record p { malformed_records = suc p.malformed_records; current = no_package }
            else record p { current = no_package })
    go false false e d = All-append IsNamed p.packages (p.current ∷ []) h ((e, d), tt)
    go false true e d = h
    go true false e d = h
    go true true e d = h

with_field-Named :
    (p : Parsed) (field : Option (Text × Text)) → Named p → Named (with_field p field)
with_field-Named p none h = h
with_field-Named p (some (key, value)) h =
    go (text_eq (trim_space key) (codes "DisplayName"))
      (text_eq (trim_space key) (codes "PackageName"))
  where
    go :
        (a b : Bool)
        → Named (
            if a
            then (let q = flush p in
                record q { current = record q.current { display_name = trim_space value } })
            else if b
            then record p { current = record p.current { package_name = trim_space value } }
            else p)
    go true b = flush-Named p h
    go false true = h
    go false false = h

parse_lines-Named : (p : Parsed) (lines : List Text) → Named p → Named (parse_lines p lines)
unfolding parse_lines
parse_lines-Named p [] h = flush-Named p h
parse_lines-Named p (line ∷ lines) h =
    parse_lines-Named (with_field p (cut_colon line)) lines (with_field-Named p (cut_colon line) h)

-- Every package that parseProvisionedPackages returns has a display name and a package name.
pub parse_provisioned_packages-IsNamed :
    (output : Text) → All IsNamed (parse_provisioned_packages output).0
unfolding parse_provisioned_packages
parse_provisioned_packages-IsNamed output =
    parse_lines-Named (record { packages = []; current = no_package; malformed_records = 0 })
      (split_at b'\n' output) tt
