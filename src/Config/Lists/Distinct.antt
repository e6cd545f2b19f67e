-- ===== src/Config/Lists/Distinct.antt =====
-- What the accepted lists have.
use winforge.Prelude.{◌≡◌, refl, sym, Bool, true, false, not, List, [], ◌∷◌, length, any, All}
use winforge.Text.{Text, text_eq, trim_space, is_empty, to_lower, CaseTable}
use winforge.Text.Laws.{eq_of_text_eq}
use winforge.Errors.{Err, Result, ok, refuse}
use winforge.Config.Validate.{check_len, check_count}
use winforge.Config.Validate.Accepted.{>>=-ok}
use winforge.AppManager.{validate_package_id}
use winforge.Maintenance.{AddrParser, validate_dns_servers}
use winforge.Config.Lists.{
  App, DnsEntry, check_app_limits, validate_each, new_key, validate_app, validate_apps,
  validate_preset, validate_dns, validate_service, validate_protected_services,
}

-- No key is among `seen`, and none comes twice.
abbrev pub Fresh {ℓ} : {A : Type ℓ} → (A → Text) → List Text → List A → Type 0
Fresh key seen [] = Unit
Fresh key seen (a ∷ list) = (any (text_eq (key a)) seen ≡ false) × Fresh key (key a ∷ seen) list

refuse-false : (b : Bool) (e : Err) (u : Unit {0}) → refuse b e ≡ ok u → b ≡ false
refuse-false true e u h = cc
refuse-false false e u h = refl

not-false : (b : Bool) → not b ≡ false → b ≡ true
not-false true h = refl
not-false false h = cc

ok-injective : {A : Type 0} {a b : A} → ok a ≡ ok b → a ≡ b
ok-injective h = cc

module _ {A : Type 0} (check : List Text → A → Result Text) (key : A → Text)
    (Good : A → Type 0) where
  -- what an accepted round tells
  record Told (seen : List Text) (a : A) (k : Text) : Type 0 where
    good : Good a
    is_key : k ≡ key a
    new : any (text_eq (key a)) seen ≡ false

  validate_each-All :
      ((seen : List Text) (a : A) (k : Text) → check seen a ≡ ok k → Told seen a k)
      → (seen : List Text) (list : List A) → validate_each check seen list ≡ ok tt
      → All Good list × Fresh key seen list
  unfolding validate_each
  validate_each-All told seen [] h = (tt, tt)
  validate_each-All told seen (a ∷ list) h =
      let (k, e, rest) = >>=-ok (check seen a) _ h in
      let t = told seen a k e in
      let (good, fresh) = validate_each-All told (key a ∷ seen) list (rw (← t.is_key) rest) in
      ((t.good, good), (t.new, fresh))

module _ ⦃c : CaseTable⦄ where
  -- The name of a protected service, as it is compared.
  abbrev pub IsServiceName : Text → Type 0
  IsServiceName name = (is_empty (trim_space name) ≡ false) × (trim_space name ≡ name)

  validate_service-Told :
      (seen : List Text) (name key : Text)
      → validate_service seen name ≡ ok key
      → Told validate_service to_lower IsServiceName seen name key
  unfolding validate_service
  validate_service-Told seen name key h =
      let (u1, filled, h1) = >>=-ok (refuse (is_empty (trim_space name)) _) _ h in
      let (u2, short, h2) = >>=-ok (check_len name 256) _ h1 in
      let (u3, trimmed, h3) = >>=-ok (refuse (not (text_eq (trim_space name) name)) _) _ h2 in
      let (u4, fresh, h4) = >>=-ok (new_key seen (to_lower name)) _ h3 in
      record {
        good = (
          refuse-false _ _ _ filled,
          eq_of_text_eq (trim_space name) name (not-false _ (refuse-false _ _ _ trimmed)),
        );
        is_key = sym (ok-injective h4);
        new = refuse-false _ _ _ fresh;
      }

  -- The protected services of an accepted configuration have names without spaces around them, and no
  -- two of them differ only in case.
  pub validate_protected_services-Fresh :
      (services : List Text)
      → validate_protected_services services ≡ ok tt
      → All IsServiceName services × Fresh to_lower [] services
  unfolding validate_protected_services
  validate_protected_services-Fresh services h =
      let (u, few, each) = >>=-ok (check_count (length services) 1024) _ h in
      validate_each-All validate_service to_lower IsServiceName validate_service-Told [] services
        each

  -- An application that Install accepts, with its limits.
  abbrev pub IsApp : App → Type 0
  IsApp a =
      (validate_package_id a.id ≡ ok tt)
      × (is_empty (trim_space a.name) ≡ false)
      × (check_app_limits a ≡ ok tt)

  abbrev app_key : App → Text
  app_key a = to_lower a.id

  validate_app-Told :
      (seen : List Text) (a : App) (key : Text)
      → validate_app seen a ≡ ok key
      → Told validate_app app_key IsApp seen a key
  unfolding validate_app
  validate_app-Told seen a key h =
      let (u1, valid, h1) = >>=-ok (validate_package_id a.id) _ h in
      let (u2, fresh, h2) = >>=-ok (new_key seen (to_lower a.id)) _ h1 in
      let (u3, filled, h3) = >>=-ok (refuse (is_empty (trim_space a.name)) _) _ h2 in
      let (u4, limits, h4) = >>=-ok (check_app_limits a) _ h3 in
      record {
        good = (valid, refuse-false _ _ _ filled, limits);
        is_key = sym (ok-injective h4);
        new = refuse-false _ _ _ fresh;
      }

  pub validate_apps-Fresh :
      (apps : List App) → validate_apps apps ≡ ok tt → All IsApp apps × Fresh app_key [] apps
  unfolding validate_apps
  validate_apps-Fresh apps h =
      let (u, few, each) = >>=-ok (check_count (length apps) 4096) _ h in
      validate_each-All validate_app app_key IsApp validate_app-Told [] apps each

  module _ ⦃n : AddrParser⦄ where
    abbrev pub IsPreset : DnsEntry → Type 0
    IsPreset p =
        (trim_space p.profile ≡ p.profile) × (validate_dns_servers p.primary p.secondary ≡ ok tt)

    abbrev preset_key : DnsEntry → Text
    preset_key p = to_lower (trim_space p.profile)

    validate_preset-Told :
        (seen : List Text) (p : DnsEntry) (key : Text)
        → validate_preset seen p ≡ ok key
        → Told validate_preset preset_key IsPreset seen p key
    unfolding validate_preset
    validate_preset-Told seen p key h =
        let (u1, filled, h1) = >>=-ok (refuse (is_empty (trim_space p.profile)) _) _ h in
        let (u2, short, h2) = >>=-ok (check_len p.profile 128) _ h1 in
        let (u3, short1, h3) = >>=-ok (check_len p.primary 64) _ h2 in
        let (u4, short2, h4) = >>=-ok (check_len p.secondary 64) _ h3 in
        let (u5, trimmed, h5) =
          >>=-ok (refuse (not (text_eq (trim_space p.profile) p.profile)) _) _ h4 in
        let (u6, fresh, h6) = >>=-ok (new_key seen (to_lower (trim_space p.profile))) _ h5 in
        let (u7, servers, h7) = >>=-ok (validate_dns_servers p.primary p.secondary) _ h6 in
        record {
          good = (eq_of_text_eq _ _ (not-false _ (refuse-false _ _ _ trimmed)), servers);
          is_key = sym (ok-injective h7);
          new = refuse-false _ _ _ fresh;
        }

    pub validate_dns-Fresh :
        (presets : List DnsEntry)
        → validate_dns presets ≡ ok tt
        → All IsPreset presets × Fresh preset_key [] presets
    unfolding validate_dns
    validate_dns-Fresh presets h =
        let (u, few, each) = >>=-ok (check_count (length presets) 256) _ h in
        validate_each-All validate_preset preset_key IsPreset validate_preset-Told [] presets each
