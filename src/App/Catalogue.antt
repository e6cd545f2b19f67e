-- ===== src/App/Catalogue.antt =====
-- The catalogue of the program.
use winforge.Prelude.{ℕ, ◌≡◌, refl, ◌⊎◌, inl, inr, Bool, true, false, List, [], ◌∷◌, All}
use mathlib.Core.Path.{subst}
use winforge.Text.{Text, CaseTable}
use winforge.Errors.{ok}
use winforge.Config.{Tweak}
use winforge.Config.Catalogue.{validate}
use winforge.Config.Catalogue.Accepted.{IsValid, Distinct, validate-IsValid}
use winforge.Config.Validate.Accepted.{>>=-ok}
use winforge.Plugin.{Files, merge_tweaks}
use winforge.Plugin.Discover.{Plugin, Host}
use winforge.Plugin.Discover.Limits.{IsCatalogue, discover-IsLimited}
use winforge.Plugin.Merged.{IsMerged, merge_tweaks-IsMerged, IsMerged-after, nothing-IsMerged}
use winforge.App.{merge_plugins, plugins_of, app_tweaks}

ok-injective : {A : Type 0} {a b : A} → ok a ≡ ok b → a ≡ b
ok-injective h = cc

module _ ⦃c : CaseTable⦄ (upper : ℕ → ℕ) {F : Type 0} (fs : Files F) (host : Host) where
  merge_plugins-IsMerged :
      (base : List Tweak) (plugins : List Plugin)
      → Distinct [] base
      → All (λ t. IsValid t) base
      → All (λ p. IsCatalogue upper fs host p.tweaks) plugins
      → IsMerged base (merge_plugins base plugins)
  unfolding merge_plugins
  merge_plugins-IsMerged base [] d v h = nothing-IsMerged base d v
  merge_plugins-IsMerged base (p ∷ plugins) d v (first, h) =
      let m = merge_tweaks-IsMerged base p.tweaks d v first.1 in
      IsMerged-after base (merge_tweaks base p.tweaks) _ m
        (merge_plugins-IsMerged (merge_tweaks base p.tweaks) plugins m.distinct m.accepted h)

  -- the built-in tweaks as Validate corrects them, and what the catalogue is made of them
  pub record IsBuilt (elevated : Bool) (decoded catalogue : List Tweak) : Type 0 where
    pub built_in : List Tweak
    pub validated : validate upper decoded ≡ ok built_in
    pub merged : IsMerged built_in catalogue
    pub plain : (elevated ≡ false) ⊎ (catalogue ≡ built_in)

  plugins_of-All :
      (elevated : Bool) (root : Text) (names : List Text) (plugins : List Plugin)
      → plugins_of upper fs host elevated root names ≡ ok plugins
      → All (λ p. IsCatalogue upper fs host p.tweaks) plugins
  plugins_of-All true root names [] h = tt
  plugins_of-All true root names (p ∷ plugins) h = cc
  plugins_of-All false root names plugins h =
      (discover-IsLimited upper fs host root names plugins h).accepted

  plugins_of-plain :
      (elevated : Bool) (root : Text) (names : List Text) (plugins : List Plugin)
      (base : List Tweak)
      → plugins_of upper fs host elevated root names ≡ ok plugins
      → (elevated ≡ false) ⊎ (merge_plugins base plugins ≡ base)
  unfolding merge_plugins
  plugins_of-plain false root names plugins base h = inl refl
  plugins_of-plain true root names [] base h = inr refl
  plugins_of-plain true root names (p ∷ plugins) base h = cc

  -- A catalogue that newApp builds begins with the built-in tweaks, as Validate corrects them, and in an
  -- elevated process has no other ones; no id comes twice in it, and each of its tweaks, those of the
  -- plugins and their scripts included, is one that Validate accepts.
  pub app_tweaks-IsBuilt :
      (elevated : Bool) (root : Text) (names : List Text) (decoded catalogue : List Tweak)
      → app_tweaks upper fs host elevated root names decoded ≡ ok catalogue
      → IsBuilt elevated decoded catalogue
  unfolding app_tweaks
  app_tweaks-IsBuilt elevated root names decoded catalogue h =
      let (base, valid, h1) = >>=-ok (validate upper decoded) _ h in
      let (plugins, found, h2) = >>=-ok (plugins_of upper fs host elevated root names) _ h1 in
      let (distinct, accepted, same) = validate-IsValid upper decoded base valid in
      subst (IsBuilt elevated decoded) (ok-injective h2) (record {
        built_in = base;
        validated = valid;
        merged =
            merge_plugins-IsMerged base plugins distinct accepted
              (plugins_of-All elevated root names plugins found);
        plain = plugins_of-plain elevated root names plugins base found;
      })
